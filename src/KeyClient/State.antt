-- ===== src/KeyClient/State.antt =====
-- The state of a `BtKeyClient`, and what it does to the outside.
use stmm_input_bt.Base.{ℕ, Bool, List, [], Option, none, some, ℤ, negsuc, ◌==◌, ◌>>=◌}
use stmm_input_bt.BdAddr.{BdAddr}
use stmm_input_bt.CircularBuffer.{CircularBuffer, create}
use stmm_input_bt.KeyPacket.{KeyPacket, KeyInputType}

pub data State : Type 0 where
  disconnected connecting connected sending removing : State

abbrev pub state_code : State → ℕ
state_code disconnected = 0
state_code connecting = 1
state_code connected = 2
state_code sending = 3
state_code removing = 10

abbrev pub same : State → State → Bool
same s t = state_code s == state_code t

-- A key as it is buffered: its type and its code.
abbrev pub Key : Type 0
Key = KeyInputType × ℕ

-- `::send`: accepted, EAGAIN (or EWOULDBLOCK), or another errno.
pub data SendResult : Type 0 where
  accepted would_block : SendResult
  refused : ℕ → SendResult

-- `::connect`: done at once, EINPROGRESS, or another errno.
pub data ConnectResult : Type 0 where
  done in_progress : ConnectResult
  failed : ℕ → ConnectResult

-- A system call: its value or its errno.
pub data SysCall (A : Type 0) : Type 0 where
  ok : A → SysCall A
  err : ℕ → SysCall A

-- The texts of `m_sLastError`; an argument is the errno that `strerror` spells out.
pub data Message : Type 0 where
  no_error : Message
  socket_failed get_flags_failed set_flags_failed connect_failed : ℕ → Message
  connection_failed connecting_timed_out sending_failed sending_timed_out : Message
  packet_failed send_failed : SendResult → Message

-- What the outside sees: the two signals, a closed socket, and the packets that a send delivered.
pub data Effect : Type 0 where
  state_changed error_raised : Effect
  closed : ℕ → Effect
  sent : List KeyPacket → Effect

-- A null reference and the file descriptor -1 are `none`. A `PendingWriteSource` is its id, the
-- `IntervalTimeoutSource` its elapsed milliseconds. The newest effect stands first.
pub record KeyClient : Type 0 where
  pub timeout_connect : ℕ
  pub timeout_send : ℕ
  pub interval : ℕ
  pub noop_after : ℕ
  pub state : State
  pub last_error : Message
  pub client_fd : Option ℕ
  pub server_addr : BdAddr
  pub l2cap_port : ℤ
  pub started_connecting : ℕ
  pub started_sending : ℕ
  pub buffered_keys : CircularBuffer Key
  pub last_sent : ℤ
  pub packets : List KeyPacket
  pub tot_packets : ℕ
  pub pending_connect : Option ℕ
  pub pending_send : Option ℕ
  pub interval_timeout : Option ℕ
  pub next_source_id : ℕ
  pub effects : List Effect

abbrev pub send_buffer_size : ℕ
send_buffer_size = 20

-- The constructor. `packets` is what the uninitialised array holds, `addr` the uninitialised
-- address, `key` the value-initialised pair.
unfoldable pub init : ℕ → ℕ → ℕ → ℕ → List KeyPacket → BdAddr → Key → ℕ → Option KeyClient
unfolding create
init timeout_connect timeout_send interval noop_after packets addr key source_id = do
  buffer ← create key send_buffer_size
  some (record {
    timeout_connect = timeout_connect;
    timeout_send = timeout_send;
    interval = interval;
    noop_after = noop_after;
    state = disconnected;
    last_error = no_error;
    client_fd = none;
    server_addr = addr;
    l2cap_port = negsuc 0;
    started_connecting = 0;
    started_sending = 0;
    buffered_keys = buffer;
    last_sent = negsuc 0;
    packets = packets;
    tot_packets = 0;
    pending_connect = none;
    pending_send = none;
    interval_timeout = none;
    next_source_id = source_id;
    effects = [];
  })
