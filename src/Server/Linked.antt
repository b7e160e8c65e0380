-- ===== src/Server/Linked.antt =====
-- The backend and the device manager stay in step.
use stmm_input_bt.Base.{
  ℕ, ◌≡◌, ◌≢◌, refl, ap, ◌∙◌, Bool, true, false, List, [], ◌∷◌, Option, some, get_elem?, Returns,
  Returns->>=, Returns-weaken, arith, Option-cases, inl, inr,
}
use stmm_input_bt.BdAddr.{empty_addr}
use stmm_input_bt.KeyPacket.{KeyPacket, PacketCmd, cmd_code, KeyInputType}
use stmm_input_bt.Backend.{Backend, do_server_receive}
use stmm_input_bt.Backend.Link.{IsOwner, IsLinked}
use stmm_input_bt.Backend.Accept.{Accepted, do_server_accept_client_lem}
use stmm_input_bt.Backend.Receive.{Received, do_server_receive_lem}
use stmm_input_bt.DeviceManager.State.{KeyEvent, DeviceManager}
use stmm_input_bt.DeviceManager.Devices.{on_manager_key}
use stmm_input_bt.DeviceManager.Alike.{Alike}
use stmm_input_bt.DeviceManager.Sound.{IsSound, Alike-IsSound, on_manager_key-Alike}
use stmm_input_bt.DeviceManager.Owner.{
  IsLibrary, on_device_added-Relisted, on_device_removed-Relisted,
}
use stmm_input_bt.Server.{
  Event, connects, receives, removes, removal, owner_added, owner_key, owner_removed, receive,
  serve, serve_all,
}

-- No client has the address of a freed slot.
abbrev pub AreReal : List Event → Type 0
AreReal [] = Unit
AreReal (connects fd addr ∷ events) = (addr ≢ empty_addr) × AreReal events
AreReal (receives i p ∷ events) = AreReal events
AreReal (removes i p ∷ events) = AreReal events

split_real :
    (event : Event) (events : List Event)
    → AreReal (event ∷ events)
    → AreReal (event ∷ []) × AreReal events
split_real (connects fd addr) events h = ((h.0, tt), h.1)
split_real (receives i p) events h = (tt, h)
split_real (removes i p) events h = (tt, h)

module _ {W : Type 0} (listed : ℕ → W → Bool) where
  abbrev pub in_list : ℕ → DeviceManager W → Bool
  in_list i m = listed i m.world

  abbrev pub InStep : Backend × DeviceManager W → Type 0
  InStep r = IsLinked (IsSound listed) in_list r.0 r.1

module _ {W : Type 0} (listed : ℕ → W → Bool) (type_of : ℕ → KeyInputType) (stamp : W → ℕ)
    (call_if : ℕ → KeyEvent → DeviceManager W → Option (DeviceManager W))
    (reset_all : DeviceManager W → DeviceManager W)
    (send_device_mgmt : Bool → ℕ → DeviceManager W → Option (DeviceManager W))
    (add_device remove_device : ℕ → W → W × Bool)
    (library : IsLibrary listed call_if reset_all send_device_mgmt add_device remove_device) where
  -- The device manager keeps the owner's promise.
  pub manager-IsOwner :
      IsOwner
        (owner_added type_of stamp call_if reset_all send_device_mgmt add_device remove_device)
        (owner_key type_of stamp call_if reset_all send_device_mgmt add_device remove_device)
        (owner_removed type_of stamp call_if reset_all send_device_mgmt add_device remove_device)
        (IsSound listed)
        (in_list listed)
  manager-IsOwner = record {
    added = λ addr i m v free.
        on_device_added-Relisted listed call_if reset_all send_device_mgmt add_device remove_device
          library i m v free;
    key = λ i t k m v here.
        Returns-weaken (λ (r : DeviceManager W × Bool). Alike listed m r.0)
          (λ (r : DeviceManager W × Bool).
            IsSound listed r.0 × ((j : ℕ) → in_list listed j r.0 ≡ in_list listed j m))
          (on_manager_key call_if i (type_of t) k (stamp m.world) m)
          (on_manager_key-Alike listed call_if library.calm i (type_of t) k (stamp m.world) m v
            here)
          (λ r h. (Alike-IsSound listed m r.0 v h, h.4));
    removed = λ i m v here.
        on_device_removed-Relisted listed call_if reset_all send_device_mgmt add_device
          remove_device library i m v here;
  }

  receive-InStep :
      (b : Backend) (m : DeviceManager W) (i : ℕ) (remove : Bool) (p : KeyPacket)
      → InStep listed (b, m)
      → (remove ≡ true → p.cmd ≡ cmd_code PacketCmd.remove_device)
      → Returns (InStep listed) (
          receive type_of stamp call_if reset_all send_device_mgmt add_device remove_device b m i
            remove p)
  unfolding receive
  receive-InStep b m i remove p v cmd = elim (Option-cases (get_elem? b.input_sources i)) [
    | inl out ↦ rw (receive, out) v
    | inr (slot, at) ↦ elim (Option-cases slot) [
      | inl lost ↦ rw (receive, at, lost) v
      | inr (source, there) ↦
          rw (receive, at, there)
            (Returns->>= (Received (IsSound listed) (in_list listed) b i remove) (InStep listed)
              (do_server_receive
                (owner_added type_of stamp call_if reset_all send_device_mgmt add_device
                  remove_device)
                (owner_key type_of stamp call_if reset_all send_device_mgmt add_device
                  remove_device)
                (owner_removed type_of stamp call_if reset_all send_device_mgmt add_device
                  remove_device)
                b m i remove p)
              (λ r. some (r.0, r.1))
              (do_server_receive_lem _ _ _ (IsSound listed) (in_list listed) manager-IsOwner b m i
                remove p source v (at ∙ ap some there) cmd)
              (λ r h. h.0))
    ]
  ]

  serve-InStep :
      (event : Event) (b : Backend) (m : DeviceManager W)
      → AreReal (event ∷ [])
      → InStep listed (b, m)
      → Returns (InStep listed) (
          serve type_of stamp call_if reset_all send_device_mgmt add_device remove_device event b m)
  unfolding serve
  serve-InStep (connects fd addr) b m real v =
      Returns-weaken (Accepted (IsSound listed) (in_list listed) b addr fd) (InStep listed) _
        (do_server_accept_client_lem _ _ _ (IsSound listed) (in_list listed) manager-IsOwner b m fd
          addr v real.0)
        (λ r h. h.0)
  serve-InStep (receives i p) b m real v =
      receive-InStep b m i false p v (λ e. absurd (ground arith))
  serve-InStep (removes i p) b m real v = receive-InStep b m i true (removal p) v (λ e. refl)

  -- Whatever clients connect, send keys, are lost or removed, in any order and with any packets: with
  -- the library's list of devices, listeners that leave the devices alone, and clients with real
  -- addresses, no assertion of the backend, of the device manager or of a device fails; two clients
  -- never share a slot, and the manager has a device in a slot exactly if a client has it, which is so
  -- exactly if the library lists one.
  pub serve_all-InStep :
      (events : List Event) (b : Backend) (m : DeviceManager W)
      → AreReal events
      → InStep listed (b, m)
      → Returns (InStep listed) (
          serve_all type_of stamp call_if reset_all send_device_mgmt add_device remove_device events
            b m)
  unfolding serve_all
  serve_all-InStep [] b m real v = v
  serve_all-InStep (event ∷ events) b m real v =
      let (first, rest) = split_real event events real in
      Returns->>= (InStep listed) (InStep listed)
        (serve type_of stamp call_if reset_all send_device_mgmt add_device remove_device event b m)
        _ (serve-InStep event b m first v) (λ r h. serve_all-InStep events r.0 r.1 rest h)
