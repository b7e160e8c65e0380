-- ===== src/KeyClient/Tests.antt =====
-- Clients in several states, and what their operations do.
use stmm_input_bt.Base.{
  Bool, not, ◌&&◌, ◌||◌, ◌==◌, take, ℕ, ◌<◌, ◌≡◌, refl, false, List, [], ◌∷◌, Option, none, some,
  arith, replicate, Returns, pos,
}
use stmm_input_bt.CircularBuffer.{CircularBuffer}
use stmm_input_bt.CircularBuffer.Refine.{IsValid, to_list}
use stmm_input_bt.CircularBuffer.Window.{window}
use stmm_input_bt.KeyPacket.{KeyPacket, key_press, key_release}
use stmm_input_bt.KeyClient.State.{
  State, same, send_buffer_size, connected, sending, disconnected, connecting, Key, accepted, sent,
  state_changed, would_block, no_error, KeyClient,
}
use stmm_input_bt.KeyClient.Packets.{drain}
use stmm_input_bt.KeyClient.Drain.{Drained, last_state, drain_lem}
use stmm_input_bt.KeyClient.Send.{
  noop_fits, noop_due, send_key, send_remove, do_interval_timeout, do_pending_send,
}
use stmm_input_bt.KeyClient.Invariant.{IsConsistent}
use stmm_input_bt.KeyClient.SendSafety.{send_key-IsConsistent}
use stmm_input_bt.KeyClient.Stops.{
  send_remove_lem, do_interval_timeout_lem, do_pending_send_lem, StopsIf, is_current,
}
use stmm_input_bt.KeyClient.Pending.{Followed, follow_up, do_pending_send-Followed}
use stmm_input_bt.KeyClient.Delivery.{has_removal, Delivered, queued, send_key-Delivered}

abbrev blank : KeyPacket
blank = record { magic1 = 0; magic2 = 0; cmd = 0; key_type = 0; hardware_key = 0 }

-- A buffer with `n` keys.
abbrev keys_in : ℕ → CircularBuffer Key
keys_in n = record { count = n; read_idx = 0; write_idx = n; items = replicate 20 (key_press, 30) }

abbrev full_buffer : CircularBuffer Key
full_buffer = record {
  count = 20;
  read_idx = 0;
  write_idx = 0;
  items = replicate 20 (key_press, 30);
}

abbrev client_in : State → CircularBuffer Key → Option ℕ → Option ℕ → Option ℕ → KeyClient
client_in state buffer fd pending_connect pending_send = record {
  timeout_connect = 60000;
  timeout_send = 5000;
  interval = 1000;
  noop_after = 5000;
  state = state;
  last_error = no_error;
  client_fd = fd;
  server_addr = 1 ∷ 2 ∷ 3 ∷ 4 ∷ 5 ∷ 6 ∷ [];
  l2cap_port = pos 8353;
  started_connecting = 0;
  started_sending = 1000;
  buffered_keys = buffer;
  last_sent = pos 1000;
  packets = replicate 20 blank;
  tot_packets = 0;
  pending_connect = pending_connect;
  pending_send = pending_send;
  interval_timeout = some 20000;
  next_source_id = 7;
  effects = [];
}

abbrev idle : KeyClient
idle = client_in disconnected (keys_in 0) none none none

abbrev waiting : KeyClient
waiting = client_in connecting (keys_in 0) (some 4) (some 3) none

abbrev linked : KeyClient
linked = client_in connected (keys_in 1) (some 4) none none

abbrev quiet : KeyClient
quiet = client_in connected (keys_in 0) (some 4) none none

abbrev linked_full : KeyClient
linked_full = client_in connected full_buffer (some 4) none none

abbrev busy : KeyClient
busy = client_in sending (keys_in 2) (some 4) none (some 5)

keys_in-IsValid : (n : ℕ) → n < 20 → IsValid (keys_in n)
keys_in-IsValid n h = ground arith

full_buffer-IsValid : IsValid full_buffer
full_buffer-IsValid = ground arith

idle-IsConsistent : IsConsistent idle
idle-IsConsistent = record {
  ready = record {
    buffer = keys_in-IsValid 0 (omega arith);
    room = refl;
    slots = refl;
    linked = refl;
    waiting = refl;
    pending = refl;
    timed = refl;
  };
  drained = refl;
}

waiting-IsConsistent : IsConsistent waiting
waiting-IsConsistent = record {
  ready = record {
    buffer = keys_in-IsValid 0 (omega arith);
    room = refl;
    slots = refl;
    linked = refl;
    waiting = refl;
    pending = refl;
    timed = refl;
  };
  drained = refl;
}

linked-IsConsistent : IsConsistent linked
linked-IsConsistent = record {
  ready = record {
    buffer = keys_in-IsValid 1 (omega arith);
    room = refl;
    slots = refl;
    linked = refl;
    waiting = refl;
    pending = refl;
    timed = refl;
  };
  drained = refl;
}

quiet-IsConsistent : IsConsistent quiet
quiet-IsConsistent = record {
  ready = record {
    buffer = keys_in-IsValid 0 (omega arith);
    room = refl;
    slots = refl;
    linked = refl;
    waiting = refl;
    pending = refl;
    timed = refl;
  };
  drained = refl;
}

busy-IsConsistent : IsConsistent busy
busy-IsConsistent = record {
  ready = record {
    buffer = keys_in-IsValid 2 (omega arith);
    room = refl;
    slots = refl;
    linked = refl;
    waiting = refl;
    pending = refl;
    timed = refl;
  };
  drained = refl;
}

linked_full-IsConsistent : IsConsistent linked_full
linked_full-IsConsistent = record {
  ready = record {
    buffer = full_buffer-IsValid;
    room = refl;
    slots = refl;
    linked = refl;
    waiting = refl;
    pending = refl;
    timed = refl;
  };
  drained = refl;
}

drain_lem_example :
    (b' : CircularBuffer Key) × (ps' : List KeyPacket) × (drain 2
        (keys_in 2)
        (replicate 20 blank)
        0
        sending
      ≡ some (b', ps', 2, last_state (to_list (keys_in 2)) sending))
    × Drained (keys_in 2) (replicate 20 blank) 0 b' ps'
drain_lem_example =
    drain_lem 2 (keys_in 2) (replicate 20 blank) 0 sending (keys_in-IsValid 2 (omega arith))
      (omega arith) (omega arith)

send_key-IsConsistent_example : Returns IsConsistent (send_key linked (key_press, 31) would_block)
send_key-IsConsistent_example =
    send_key-IsConsistent linked (key_press, 31) would_block linked-IsConsistent

send_remove_lem_example :
    StopsIf
      (same linked_full.state connected && linked_full.buffered_keys.count == send_buffer_size)
      IsConsistent
      (send_remove linked_full accepted)
send_remove_lem_example = send_remove_lem linked_full accepted linked_full-IsConsistent

do_interval_timeout_lem_example :
    StopsIf
      (same linked.state connected
        && (not (noop_fits linked)
            || (noop_due linked 20000 && not (linked.buffered_keys.count == 0))))
      IsConsistent
      (do_interval_timeout linked accepted)
do_interval_timeout_lem_example =
    do_interval_timeout_lem linked accepted 20000 linked-IsConsistent refl

do_pending_send_lem_example :
    StopsIf
      (is_current 5 busy.pending_send && not (same busy.state sending))
      (λ x. IsConsistent x.0)
      (do_pending_send busy 5 false accepted would_block)
do_pending_send_lem_example =
    do_pending_send_lem busy 5 false accepted would_block busy-IsConsistent

linked-queued : has_removal (queued linked (key_release, 30)) ≡ false
unfolding has_removal window
linked-queued = refl

send_key-Delivered_example :
    Returns
      (Delivered linked (queued linked (key_release, 30)))
      (send_key linked (key_release, 30) accepted)
send_key-Delivered_example =
    send_key-Delivered linked (key_release, 30) linked-IsConsistent refl linked-queued

busy-queued : has_removal (to_list busy.buffered_keys) ≡ false
unfolding has_removal window
busy-queued = refl

do_pending_send-Followed_example :
    Returns
      (λ (x : KeyClient × Bool).
        Followed
          (state_changed
            ∷ follow_up
                (to_list busy.buffered_keys)
                busy.packets
                (sent (take busy.tot_packets busy.packets) ∷ busy.effects))
          x.0)
      (do_pending_send busy 5 false accepted accepted)
do_pending_send-Followed_example =
    do_pending_send-Followed busy 5 busy-IsConsistent refl refl busy-queued
