-- ===== src/Backend/Accept.antt =====
-- btgtkbackend.cc, `doServerAcceptClient`: the id of a client that connects.
use stmm_input_bt.Base.{
  ℕ, ◌≡◌, ◌≢◌, ◌<◌, Bool, Option, none, some, length, get_elem?, get_elem?_total, get_elem?_bound,
  sym, ap, ◌∙◌, true, if◌then◌else◌, ◌==◌, Returns-both, Returns, Returns->>=, arith, Option-cases,
  inl, inr,
}
use stmm_input_bt.BdAddr.{BdAddr, empty_addr}
use stmm_input_bt.Backend.{Backend, get_backend_id, new_slot, do_server_accept_client}
use stmm_input_bt.Backend.Ids.{get_backend_id_found}
use stmm_input_bt.Backend.Link.{IsOwner, IsLinked, IsNew, new_slot-IsNew}
use stmm_input_bt.Backend.Slots.{
  IsKept, IsServed, IsOpen, serve-source, serve-IsWellFormed, new_slot_lem,
}

module _ {M : Type 0} (P : M → Type 0) (present : ℕ → M → Bool) where
  abbrev pub Accepted : Backend → BdAddr → ℕ → Backend × M → Type 0
  Accepted b addr fd r = IsLinked P present r.0 r.1 × IsServed b addr fd r.0

module _ {M : Type 0} (on_device_added : BdAddr → ℕ → M → Option M)
    (on_blue_key : ℕ → ℕ → ℕ → M → Option (M × Bool)) (on_device_removed : ℕ → M → Option M)
    (P : M → Type 0) (present : ℕ → M → Bool)
    (owner : IsOwner on_device_added on_blue_key on_device_removed P present) where
  known-Accepted :
      (b : Backend) (m : M) (fd i : ℕ) (addr : BdAddr)
      → IsLinked P present b m
      → addr ≢ empty_addr
      → get_backend_id b.permanent_addrs addr ≡ some i
      → Returns
          (Accepted P present b addr fd)
          (do_server_accept_client on_device_added on_blue_key on_device_removed b m fd addr)
  unfolding do_server_accept_client
  known-Accepted b m fd i addr v ne known =
      let h = v.backend in
      let at : get_elem? b.permanent_addrs i ≡ some addr =
        get_backend_id_found b.permanent_addrs addr i known in
      let open_i : IsOpen b i addr = record {
        same_length = h.same_length;
        unshared = h.unshared;
        at = at;
        freed = λ j _. h.freed j;
      } in
      let bound : i < length b.permanent_addrs = get_elem?_bound b.permanent_addrs i addr at in
      let (source, was) = get_elem?_total b.input_sources i (omega (arith, h.same_length)) in
      rw (do_server_accept_client, known, was)
        (
          record {
            backend = serve-IsWellFormed b i fd addr open_i ne;
            owner = v.owner;
            devices = v.devices;
          },
          record {
            id = i;
            at = at;
            source = serve-source b i fd addr open_i;
            others = λ j a _ there. there;
          },
        )

  new-Accepted :
      (b : Backend) (m : M) (fd : ℕ) (addr : BdAddr)
      → IsLinked P present b m
      → addr ≢ empty_addr
      → get_backend_id b.permanent_addrs addr ≡ none
      → Returns
          (Accepted P present b addr fd)
          (do_server_accept_client on_device_added on_blue_key on_device_removed b m fd addr)
  unfolding do_server_accept_client
  new-Accepted b m fd addr v ne unknown =
      rw (do_server_accept_client, unknown)
        (Returns->>=
          (λ (r : Backend × ℕ).
            (IsOpen r.0 r.1 addr × IsKept b.permanent_addrs r.0.permanent_addrs) × IsNew b addr r)
          (Accepted P present b addr fd) (new_slot b addr) _
          (Returns-both
            (λ (r : Backend × ℕ).
              IsOpen r.0 r.1 addr × IsKept b.permanent_addrs r.0.permanent_addrs)
            (IsNew b addr) (new_slot b addr) (new_slot_lem b addr v.backend ne unknown)
            (new_slot-IsNew b addr v.backend ne))
          (λ r (opened, fresh).
            Returns->>=
              (λ m'. P m' × ((j : ℕ) → present j m' ≡ (if r.1 == j then true else present j m)))
              (Accepted P present b addr fd) (on_device_added addr r.1 m) _
              (owner.added addr r.1 m v.owner (v.devices r.1 ∙ fresh.0))
              (λ m' (kept, slots). (
                record {
                  backend = serve-IsWellFormed r.0 r.1 fd addr opened.0 ne;
                  owner = kept;
                  devices = λ j.
                      slots j
                      ∙ ap (λ x. if r.1 == j then true else x) (v.devices j)
                      ∙ sym (fresh.1 j);
                },
                record {
                  id = r.1;
                  at = opened.0.at;
                  source = serve-source r.0 r.1 fd addr opened.0;
                  others = opened.1;
                },
              ))))

  -- A client with a real address that connects to a well-formed backend, whose slots are those of its
  -- owner's devices: with an owner that keeps its promise, which is asked to add a device only for an
  -- id without one, no assertion fails, the backend is well-formed and in step with the owner again,
  -- the client has a slot whose source reads its file descriptor, and every other client keeps its
  -- id.
  pub do_server_accept_client_lem :
      (b : Backend) (m : M) (fd : ℕ) (addr : BdAddr)
      → IsLinked P present b m
      → addr ≢ empty_addr
      → Returns
          (Accepted P present b addr fd)
          (do_server_accept_client on_device_added on_blue_key on_device_removed b m fd addr)
  do_server_accept_client_lem b m fd addr v ne =
      elim (Option-cases (get_backend_id b.permanent_addrs addr)) [
        | inl unknown ↦ new-Accepted b m fd addr v ne unknown
        | inr (i, known) ↦ known-Accepted b m fd i addr v ne known
      ]
