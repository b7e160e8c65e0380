-- ===== src/AcceptSource/Tests.antt =====
-- A port that is in use.
use stmm_input_bt.Base.{
  ◌+◌, ◌≡◌, if◌then◌else◌, ℕ, Bool, true, false, refl, [], ◌∷◌, Option, some, arith, Returns,
}
use stmm_input_bt.BdAddr.{BdAddr}
use stmm_input_bt.ReceiveSource.{IoFlags}
use stmm_input_bt.KeyClient.State.{ok, err}
use stmm_input_bt.AcceptSource.{
  AcceptSource, no_error, opened, check, dispatch_accept, ListenCalls, connect_source,
  destroy_source, init_server,
}
use stmm_input_bt.AcceptSource.Sockets.{
  openings, closings, is_listener, AreOwned, IsDispatched, dispatch_accept_lem, init_server_lem,
}

abbrev in_use : ListenCalls
in_use = record { socket = ok 7; bind = err 98; listen = ok tt }

init_server_lem_example :
    ((init_server in_use).1 ≡ connect_source (init_server in_use).0)
    × (openings 7 (init_server in_use).0.sockets
        ≡ closings 7 (init_server in_use).0.sockets
          + (if is_listener 7 (init_server in_use).0 then 1 else 0))
    × (openings 7 (destroy_source (init_server in_use).0).sockets
        ≡ closings 7 (destroy_source (init_server in_use).0).sockets)
init_server_lem_example = init_server_lem in_use 7

-- The server listens, and a client waits.
abbrev listening : AcceptSource
listening = record {
  listener_fd = some 7;
  error = no_error;
  polled = true;
  sockets = opened 7 ∷ [];
}

listening-AreOwned : AreOwned listening
listening-AreOwned fd = ground arith

abbrev readable : IoFlags
readable = record { input = true; hang_up = false; error = false; invalid = false }

abbrev client_addr : BdAddr
client_addr = 1 ∷ 2 ∷ 3 ∷ 4 ∷ 5 ∷ 6 ∷ []

-- The slot counts the clients.
abbrev counting : ℕ → BdAddr → ℕ → Option (ℕ × Bool)
counting fd addr n = some (n + 1, true)

is_ready : check readable ≡ true
unfolding check
is_ready = refl

dispatch_accept_lem_example :
    Returns
      (λ r. AreOwned r.0 × IsDispatched counting readable (ok (8, client_addr)) listening 0 r)
      (dispatch_accept counting true readable (ok (8, client_addr)) listening 0)
dispatch_accept_lem_example =
    dispatch_accept_lem counting readable (ok (8, client_addr)) listening 0 (λ fd addr. refl)
      is_ready listening-AreOwned refl
