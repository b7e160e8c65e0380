-- ===== src/Backend/Receive.antt =====
-- btgtkbackend.cc, `doServerReceive`: the keys of a client, its loss and its removal.
use stmm_input_bt.Base.{
  ℕ, ◌≡◌, ◌≢◌, ◌<◌, refl, sym, Bool, true, false, Option, none, some, length, get_elem?, set,
  length-set, get_elem?-set_self, get_elem?-set_ne, get_elem?-set_origin, lt→ltb, ap, ◌∙◌,
  get_elem?_total, get_elem?_bound, if◌then◌else◌, ◌==◌, Returns, Returns->>=, arith, Bool-cases,
  inl, inr, ℕ_discrete,
}
use stmm_input_bt.BdAddr.{BdAddr, empty_addr}
use stmm_input_bt.KeyPacket.{KeyPacket, PacketCmd, cmd_code}
use stmm_input_bt.Backend.{Backend, do_server_receive}
use stmm_input_bt.ReceiveSource.{ReceiveSource}
use stmm_input_bt.Backend.Link.{
  has_client, has_client-some, has_client-empty, IsOwner, IsLinked, set-client,
}
use stmm_input_bt.Backend.Slots.{IsChange, change-IsUnshared, IsWellFormed}

pub reset-IsWellFormed :
    (b : Backend) (i : ℕ)
    → IsWellFormed b
    → i < length b.input_sources
    → IsWellFormed (record b { input_sources = set b.input_sources i none })
reset-IsWellFormed b i h bound = record {
  same_length = omega (arith, length-set b.input_sources i none, h.same_length);
  unshared = h.unshared;
  freed = λ j at. elim (ℕ_discrete i j) [
    | yes here ↦ rw (sym here) (get_elem?-set_self b.input_sources i none bound)
    | no other ↦ rw (get_elem?-set_ne b.input_sources i j none other) (h.freed j at)
  ];
}

pub remove-IsWellFormed :
    (b : Backend) (i : ℕ)
    → IsWellFormed b
    → i < length b.input_sources
    → IsWellFormed (record b {
      input_sources = set b.input_sources i none;
      permanent_addrs = set b.permanent_addrs i empty_addr;
    })
remove-IsWellFormed b i h bound =
    let change : IsChange b.permanent_addrs (set b.permanent_addrs i empty_addr) i empty_addr =
      (λ j a at. get_elem?-set_origin b.permanent_addrs i j empty_addr a at) in
    record {
      same_length = omega (
        arith,
        length-set b.input_sources i none,
        length-set b.permanent_addrs i empty_addr,
        h.same_length,
      );
      unshared =
          change-IsUnshared b.permanent_addrs (set b.permanent_addrs i empty_addr) i empty_addr
            h.unshared (λ ne. absurd (ne refl)) change;
      freed = λ j at. elim (ℕ_discrete i j) [
        | yes here ↦ rw (sym here) (get_elem?-set_self b.input_sources i none bound)
        | no other ↦
            rw (get_elem?-set_ne b.input_sources i j none other)
              (h.freed j (rw (sym (get_elem?-set_ne b.permanent_addrs i j empty_addr other)) at))
      ];
    }

module _ {M : Type 0} (P : M → Type 0) (present : ℕ → M → Bool) where
  -- The backend is in step with its owner, the others' slots are as they were, and a removed client's is
  -- free.
  abbrev pub Received : Backend → ℕ → Bool → Backend × M × Bool → Type 0
  Received b i is_removed r =
      IsLinked P present r.0 r.1
      × ((j : ℕ)
          → j ≢ i
          → (get_elem? r.0.permanent_addrs j ≡ get_elem? b.permanent_addrs j)
            × (get_elem? r.0.input_sources j ≡ get_elem? b.input_sources j))
      × (is_removed ≡ true → get_elem? r.0.permanent_addrs i ≡ some empty_addr)

module _ {M : Type 0} (on_device_added : BdAddr → ℕ → M → Option M)
    (on_blue_key : ℕ → ℕ → ℕ → M → Option (M × Bool)) (on_device_removed : ℕ → M → Option M)
    (P : M → Type 0) (present : ℕ → M → Bool)
    (owner : IsOwner on_device_added on_blue_key on_device_removed P present) where
  -- A slot with a source is a client's.
  source-present :
      (b : Backend) (m : M) (i : ℕ) (source : ReceiveSource)
      → IsLinked P present b m
      → get_elem? b.input_sources i ≡ some (some source)
      → (present i m ≡ true) × (i < length b.input_sources)
  source-present b m i source v at =
      let inside = get_elem?_bound b.input_sources i (some source) at in
      let (addr, there) =
        get_elem?_total b.permanent_addrs i (omega (arith, v.backend.same_length)) in
      let ne : addr ≢ empty_addr = λ e.
        let freed = v.backend.freed i (there ∙ ap some e) in
        let clash : some (some source) ≡ some none = sym at ∙ freed in absurd (ground arith) in
      (v.devices i ∙ ap has_client there ∙ has_client-some addr ne, inside)

  removed-Received :
      (b : Backend) (m : M) (i : ℕ) (p : KeyPacket)
      → IsLinked P present b m
      → present i m ≡ true
      → i < length b.input_sources
      → p.cmd ≡ cmd_code PacketCmd.remove_device
      → Returns
          (Received P present b i true)
          (do_server_receive on_device_added on_blue_key on_device_removed b m i true p)
  unfolding do_server_receive
  removed-Received b m i p v here inside cmd =
      let bound : i < length b.permanent_addrs = omega (arith, v.backend.same_length) in
      rw
        (
          do_server_receive,
          lt→ltb i (length b.input_sources) inside,
          cmd,
          lt→ltb i (length b.permanent_addrs) bound,
        )
        (Returns->>=
          (λ m'. P m' × ((j : ℕ) → present j m' ≡ (if i == j then false else present j m)))
          (Received P present b i true) (on_device_removed i m) _ (owner.removed i m v.owner here)
          (λ m' (kept, slots). (
            record {
              backend = remove-IsWellFormed b i v.backend inside;
              owner = kept;
              devices = λ j.
                  slots j
                  ∙ ap (λ x. if i == j then false else x) (v.devices j)
                  ∙ ap (λ x. if i == j then x else has_client (get_elem? b.permanent_addrs j))
                      (sym has_client-empty)
                  ∙ sym (set-client b.permanent_addrs i empty_addr j bound);
            },
            (λ j other. (
              get_elem?-set_ne b.permanent_addrs i j empty_addr (λ e. other (sym e)),
              get_elem?-set_ne b.input_sources i j none (λ e. other (sym e)),
            )),
            λ _. get_elem?-set_self b.permanent_addrs i empty_addr bound,
          )))

  kept-Received :
      (b : Backend) (m : M) (i : ℕ) (p : KeyPacket)
      → IsLinked P present b m
      → present i m ≡ true
      → i < length b.input_sources
      → Returns
          (Received P present b i false)
          (do_server_receive on_device_added on_blue_key on_device_removed b m i false p)
  unfolding do_server_receive
  kept-Received b m i p v here inside = elim (Bool-cases (p.cmd == cmd_code PacketCmd.key)) [
    | inl is_key ↦
        rw (do_server_receive, lt→ltb i (length b.input_sources) inside, is_key)
          (Returns->>= (λ (r : M × Bool). P r.0 × ((j : ℕ) → present j r.0 ≡ present j m))
            (Received P present b i false) (on_blue_key i p.key_type p.hardware_key m) _
            (owner.key i p.key_type p.hardware_key m v.owner here)
            (λ r (kept, slots). (
              record { backend = v.backend; owner = kept; devices = λ j. slots j ∙ v.devices j },
              (λ j other. (refl, refl)),
              λ e. absurd (ground arith),
            )))
    | inr other ↦
        rw (do_server_receive, lt→ltb i (length b.input_sources) inside, other)
          (
            record {
              backend = reset-IsWellFormed b i v.backend inside;
              owner = v.owner;
              devices = v.devices;
            },
            (λ j ne. (refl, get_elem?-set_ne b.input_sources i j none (λ e. ne (sym e)))),
            λ e. absurd (ground arith),
          )
  ]

  -- A packet that the source of a slot hands to a well-formed backend, whose slots are those of its
  -- owner's devices, where a removal comes with the removal's command: with an owner that keeps its
  -- promise, which gets keys and removals only for an id with a device, no assertion fails, the
  -- backend is well-formed and in step with the owner again, the slots of the other clients are
  -- unchanged, and the slot of a removed client is free.
  pub do_server_receive_lem :
      (b : Backend) (m : M) (i : ℕ) (remove : Bool) (p : KeyPacket) (source : ReceiveSource)
      → IsLinked P present b m
      → get_elem? b.input_sources i ≡ some (some source)
      → (remove ≡ true → p.cmd ≡ cmd_code PacketCmd.remove_device)
      → Returns
          (Received P present b i remove)
          (do_server_receive on_device_added on_blue_key on_device_removed b m i remove p)
  do_server_receive_lem b m i true p source v at cmd =
      let (here, inside) = source-present b m i source v at in
      removed-Received b m i p v here inside (cmd refl)
  do_server_receive_lem b m i false p source v at cmd =
      let (here, inside) = source-present b m i source v at in kept-Received b m i p v here inside
