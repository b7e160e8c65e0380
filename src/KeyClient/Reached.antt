-- ===== src/KeyClient/Reached.antt =====
-- Clients that are reached from the construction.
use stmm_input_bt.Base.{◌≢◌, refl, false, [], ◌∷◌, none, some, pos, negsuc, replicate}
use stmm_input_bt.BdAddr.{BdAddr}
use stmm_input_bt.CircularBuffer.{is_full, is_empty, read, write}
use stmm_input_bt.KeyPacket.{KeyPacket, key_press}
use stmm_input_bt.KeyClient.State.{
  disconnected, connecting, connected, accepted, sent, state_changed, in_progress, done, ok,
  no_error, KeyClient, init,
}
use stmm_input_bt.KeyClient.Packets.{pack, drain, next_state}
use stmm_input_bt.KeyClient.Connect.{ConnectCalls, connect_to_server, do_pending_connect}
use stmm_input_bt.KeyClient.Send.{make_room, send_packets, after_send, send_key}
use stmm_input_bt.KeyClient.Invariant.{IsConsistent}
use stmm_input_bt.KeyClient.Steps.{
  Reach, start, later, connecting_to, connect_done, key_sent, Reach-IsConsistent,
}
use stmm_input_bt.KeyClient.OnWire.{OnWire, Reach-OnWire}

abbrev blank : KeyPacket
blank = record { magic1 = 0; magic2 = 0; cmd = 0; key_type = 0; hardware_key = 0 }

abbrev pub calls : ConnectCalls
calls = record { socket = ok 4; get_flags = ok tt; set_flags = ok tt; connect = in_progress }

in_progress-is-not-done : ConnectCalls.connect calls ≢ done
in_progress-is-not-done e = cc

abbrev pub some_addr : BdAddr
some_addr = 1 ∷ 2 ∷ 3 ∷ 4 ∷ 5 ∷ 6 ∷ []

abbrev pub fresh : KeyClient
fresh = record {
  timeout_connect = 60000;
  timeout_send = 5000;
  interval = 1000;
  noop_after = 5000;
  state = disconnected;
  last_error = no_error;
  client_fd = none;
  server_addr = some_addr;
  l2cap_port = negsuc 0;
  started_connecting = 0;
  started_sending = 0;
  buffered_keys = record {
    count = 0;
    read_idx = 0;
    write_idx = 0;
    items = replicate 20 (key_press, 0);
  };
  last_sent = negsuc 0;
  packets = replicate 20 blank;
  tot_packets = 0;
  pending_connect = none;
  pending_send = none;
  interval_timeout = none;
  next_source_id = 7;
  effects = [];
}

fresh-Reach : Reach fresh
unfolding init
fresh-Reach =
    start 60000 5000 1000 5000 (replicate 20 blank) some_addr (key_press, 0) 7 fresh refl refl

abbrev pub calling : KeyClient
calling = record fresh {
  state = connecting;
  client_fd = some 4;
  l2cap_port = pos 8353;
  pending_connect = some 7;
  next_source_id = 8;
  interval_timeout = some 0;
  effects = state_changed ∷ [];
}

calling-Reach : Reach calling
unfolding connect_to_server
calling-Reach =
    later fresh calling fresh-Reach
      (connecting_to fresh calling some_addr (pos 8353) calls in_progress-is-not-done refl)

abbrev pub at_server : KeyClient
at_server = record calling {
  state = connected;
  pending_connect = none;
  effects = state_changed ∷ state_changed ∷ [];
}

at_server-Reach : Reach at_server
unfolding do_pending_connect
at_server-Reach =
    later calling at_server calling-Reach (connect_done calling at_server 7 false false refl)

abbrev told : KeyClient
told = record at_server {
  buffered_keys = record {
    count = 0;
    read_idx = 1;
    write_idx = 1;
    items = (key_press, 30) ∷ replicate 19 (key_press, 0);
  };
  last_sent = pos 0;
  packets = pack (key_press, 30) blank ∷ replicate 19 blank;
  tot_packets = 1;
  effects = sent (pack (key_press, 30) blank ∷ []) ∷ state_changed ∷ state_changed ∷ [];
}

told-Reach : Reach told
unfolding send_key make_room is_full write send_packets drain is_empty read after_send next_state
    pack
told-Reach =
    later at_server told at_server-Reach (key_sent at_server told (key_press, 30) accepted refl)

Reach-IsConsistent_example : IsConsistent told
Reach-IsConsistent_example = Reach-IsConsistent told told-Reach

Reach-OnWire_example : OnWire told
Reach-OnWire_example = Reach-OnWire told told-Reach
