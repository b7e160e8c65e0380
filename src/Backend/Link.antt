-- ===== src/Backend/Link.antt =====
-- btgtkbackend.cc: what the backend relies on, and what it promises to its owner. The owner has devices by
-- their ids: it gets a new one only for an id without one, and keys and removals only for an id with
-- one. A slot has a client exactly if the owner has a device for it.
use stmm_input_bt.Base.{
  ℕ, ◌≡◌, ◌≢◌, ◌<◌, refl, sym, ap, ◌∙◌, Bool, true, false, not, List, [], ◌∷◌, ◌++◌, Option, none,
  some, length, get_elem?, set, get_elem?_bound, get_elem?_out, get_elem?-set_self,
  get_elem?-set_ne, get_elem?-append_left, get_elem?-append_last, length-append, ◌==◌,
  if◌then◌else◌, Returns, arith, Option-cases, Bool-cases, inl, inr, ℕ_discrete, dec_lt,
}
use stmm_input_bt.BdAddr.{BdAddr, empty_addr, same_addr, same_addr_iff}
use stmm_input_bt.Backend.{Backend, get_backend_id, is_empty_bd_addr, new_slot}
use stmm_input_bt.Backend.Ids.{get_backend_id_found}
use stmm_input_bt.Backend.Slots.{IsWellFormed}

-- Whether a slot is a client's, and not freed.
abbrev pub has_client : Option BdAddr → Bool
has_client none = false
has_client (some addr) = not (is_empty_bd_addr addr)

pub has_client-some : (addr : BdAddr) → addr ≢ empty_addr → has_client (some addr) ≡ true
unfolding is_empty_bd_addr
has_client-some addr ne = elim (Bool-cases (same_addr empty_addr addr)) [
  | inl same ↦ absurd (ne (sym ((same_addr_iff empty_addr addr).0 same)))
  | inr other ↦ ground arith
]

pub has_client-empty : has_client (some empty_addr) ≡ false
unfolding is_empty_bd_addr same_addr
has_client-empty = refl

-- The owner's promise. `present i` is whether it has a device for the id `i`, and `P` its own invariant.
pub record IsOwner {M : Type 0} (on_device_added : BdAddr → ℕ → M → Option M)
    (on_blue_key : ℕ → ℕ → ℕ → M → Option (M × Bool)) (on_device_removed : ℕ → M → Option M)
    (P : M → Type 0) (present : ℕ → M → Bool) : Type 0 where
  pub added :
      (addr : BdAddr) (i : ℕ) (m : M)
      → P m
      → present i m ≡ false
      → Returns
          (λ m'. P m' × ((j : ℕ) → present j m' ≡ (if i == j then true else present j m)))
          (on_device_added addr i m)
  pub key :
      (i t k : ℕ) (m : M)
      → P m
      → present i m ≡ true
      → Returns
          (λ (r : M × Bool). P r.0 × ((j : ℕ) → present j r.0 ≡ present j m))
          (on_blue_key i t k m)
  pub removed :
      (i : ℕ) (m : M)
      → P m
      → present i m ≡ true
      → Returns
          (λ m'. P m' × ((j : ℕ) → present j m' ≡ (if i == j then false else present j m)))
          (on_device_removed i m)

module _ {M : Type 0} (P : M → Type 0) (present : ℕ → M → Bool) where
  -- The backend is well-formed, the owner's invariant holds, and the slots are those of its devices.
  pub record IsLinked (b : Backend) (m : M) : Type 0 where
    pub backend : IsWellFormed b
    pub owner : P m
    pub devices : (j : ℕ) → present j m ≡ has_client (get_elem? b.permanent_addrs j)

-- A new slot was no client's, and the others are as they were.
abbrev pub IsNew : Backend → BdAddr → Backend × ℕ → Type 0
IsNew b addr r =
    (has_client (get_elem? b.permanent_addrs r.1) ≡ false)
    × ((j : ℕ)
        → has_client (get_elem? r.0.permanent_addrs j)
          ≡ (if r.1 == j then true else has_client (get_elem? b.permanent_addrs j)))

append-client :
    (addrs : List BdAddr) (addr : BdAddr) (j : ℕ)
    → addr ≢ empty_addr
    → has_client (get_elem? (addrs ++ (addr ∷ [])) j)
      ≡ (if length addrs == j then true else has_client (get_elem? addrs j))
append-client addrs addr j ne = elim (ℕ_discrete (length addrs) j) [
  | yes last ↦
      let at : get_elem? (addrs ++ (addr ∷ [])) j ≡ some addr =
        ap (get_elem? (addrs ++ (addr ∷ []))) (sym last) ∙ get_elem?-append_last addrs addr in
      ground (arith, at, has_client-some addr ne)
  | no other ↦ elim (dec_lt j (length addrs)) [
    | yes inside ↦ ground (arith, get_elem?-append_left addrs addr j inside)
    | no out ↦
        let gone : get_elem? addrs j ≡ none = get_elem?_out addrs j (omega arith) in
        let gone' : get_elem? (addrs ++ (addr ∷ [])) j ≡ none =
          get_elem?_out (addrs ++ (addr ∷ [])) j
            (omega (arith, length-append addrs (addr ∷ []), other)) in
        ground (arith, gone, gone')
  ]
]

pub set-client :
    (addrs : List BdAddr) (i : ℕ) (addr : BdAddr) (j : ℕ)
    → i < length addrs
    → has_client (get_elem? (set addrs i addr) j)
      ≡ (if i == j then has_client (some addr) else has_client (get_elem? addrs j))
set-client addrs i addr j inside = elim (ℕ_discrete i j) [
  | yes here ↦
      let at : get_elem? (set addrs i addr) j ≡ some addr =
        ap (get_elem? (set addrs i addr)) (sym here) ∙ get_elem?-set_self addrs i addr inside in
      ground (arith, at)
  | no other ↦ ground (arith, get_elem?-set_ne addrs i j addr other)
]

pub new_slot-IsNew :
    (b : Backend) (addr : BdAddr)
    → IsWellFormed b
    → addr ≢ empty_addr
    → Returns (IsNew b addr) (new_slot b addr)
unfolding new_slot
new_slot-IsNew b addr h ne = elim (Option-cases (get_backend_id b.permanent_addrs empty_addr)) [
  | inl full ↦
      let gone : get_elem? b.permanent_addrs (length b.permanent_addrs) ≡ none =
        get_elem?_out b.permanent_addrs (length b.permanent_addrs) (omega arith) in
      rw (new_slot, full) (ground (arith, gone), λ j. append-client b.permanent_addrs addr j ne)
  | inr (i, e) ↦
      let was : get_elem? b.permanent_addrs i ≡ some empty_addr =
        get_backend_id_found b.permanent_addrs empty_addr i e in
      let inside = get_elem?_bound b.permanent_addrs i empty_addr was in
      rw (new_slot, e, h.freed i was)
        (
          ground (arith, was, has_client-empty),
          λ j.
              ground (arith, set-client b.permanent_addrs i addr j inside, has_client-some addr ne),
        )
]
