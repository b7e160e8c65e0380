-- ===== src/Server.antt =====
-- libstmm-input-gtk-bt/src/btgtkbackend.cc with btgtkdevicemanager.cc: the server, which is the backend with
-- the device manager as its owner, and the events that the main loop hands to it.
mod Linked
mod Tests
use stmm_input_bt.Base.{ℕ, Bool, true, false, List, [], ◌∷◌, Option, none, some, get_elem?, ◌>>=◌}
use stmm_input_bt.BdAddr.{BdAddr}
use stmm_input_bt.KeyPacket.{KeyPacket, PacketCmd, cmd_code, KeyInputType}
use stmm_input_bt.Backend.{Backend, do_server_accept_client, do_server_receive}
use stmm_input_bt.DeviceManager.State.{KeyEvent, DeviceManager}
use stmm_input_bt.DeviceManager.Devices.{on_manager_key, on_device_added, on_device_removed}

-- A client connects; the source of a slot hands over a key or tells that the client is lost; or it
-- hands over the client's removal.
pub data Event : Type 0 where
  connects : ℕ → BdAddr → Event
  receives : ℕ → KeyPacket → Event
  removes : ℕ → KeyPacket → Event

-- A removal comes with its command.
abbrev pub removal : KeyPacket → KeyPacket
removal p = record p { cmd = cmd_code PacketCmd.remove_device }

-- `type_of` is the cast of a byte to a key type, `stamp` the library's next time stamp; the others are
-- those of the device manager.
module _ {W : Type 0} (type_of : ℕ → KeyInputType) (stamp : W → ℕ)
    (call_if : ℕ → KeyEvent → DeviceManager W → Option (DeviceManager W))
    (reset_all : DeviceManager W → DeviceManager W)
    (send_device_mgmt : Bool → ℕ → DeviceManager W → Option (DeviceManager W))
    (add_device remove_device : ℕ → W → W × Bool) where
  -- The owner's handlers, as the backend calls them.
  abbrev pub owner_added : BdAddr → ℕ → DeviceManager W → Option (DeviceManager W)
  owner_added addr i m =
      on_device_added call_if reset_all send_device_mgmt add_device remove_device i m

  abbrev pub owner_key : ℕ → ℕ → ℕ → DeviceManager W → Option (DeviceManager W × Bool)
  owner_key i t k m = on_manager_key call_if i (type_of t) k (stamp m.world) m

  abbrev pub owner_removed : ℕ → DeviceManager W → Option (DeviceManager W)
  owner_removed i m =
      on_device_removed call_if reset_all send_device_mgmt add_device remove_device i m

  -- A slot without a source hands nothing over.
  unfoldable pub receive :
      Backend → DeviceManager W → ℕ → Bool → KeyPacket → Option (Backend × DeviceManager W)
  receive b m i remove p = elim (get_elem? b.input_sources i) [
    | none ↦ some (b, m)
    | some none ↦ some (b, m)
    | some (some source) ↦ do
      (b', m', continue) ← do_server_receive owner_added owner_key owner_removed b m i remove p
      some (b', m')
  ]

  unfoldable pub serve : Event → Backend → DeviceManager W → Option (Backend × DeviceManager W)
  unfolding receive
  serve (connects fd addr) b m =
      do_server_accept_client owner_added owner_key owner_removed b m fd addr
  serve (receives i p) b m = receive b m i false p
  serve (removes i p) b m = receive b m i true (removal p)

  unfoldable pub serve_all :
      List Event → Backend → DeviceManager W → Option (Backend × DeviceManager W)
  unfolding serve
  serve_all [] b m = some (b, m)
  serve_all (event ∷ events) b m = do (b', m') ← serve event b m; serve_all events b' m'
