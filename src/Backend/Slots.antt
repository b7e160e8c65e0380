-- ===== src/Backend/Slots.antt =====
-- btgtkbackend.cc: the well-formed backend, and the slot that `doServerAcceptClient` finds for a
-- client that is not known.
use stmm_input_bt.Base.{
  ℕ, ◌≡◌, ◌≢◌, ◌<◌, sym, List, [], ◌∷◌, ◌++◌, none, some, length, get_elem?, set, length-append,
  length-set, get_elem?-set_self, get_elem?-set_ne, get_elem?-append_left, get_elem?-append_last,
  get_elem?_bound, get_elem?-set_origin, get_elem?-append_origin, ◌⊎◌, Returns, arith, Option-cases,
  inl, inr, ℕ_discrete,
}
use stmm_input_bt.BdAddr.{BdAddr, empty_addr}
use stmm_input_bt.Backend.{Backend, get_backend_id, new_slot, attached}
use stmm_input_bt.Backend.Ids.{get_backend_id_found, get_backend_id_absent}

-- The addresses `addrs'` are those of `addrs` but for `addr` in slot `i`.
abbrev pub IsChange : List BdAddr → List BdAddr → ℕ → BdAddr → Type 0
IsChange addrs addrs' i addr =
    (j : ℕ) (a : BdAddr)
    → get_elem? addrs' j ≡ some a
    → (j ≡ i) × (a ≡ addr) ⊎ (get_elem? addrs j ≡ some a)

-- No two slots share an address.
abbrev pub IsUnshared : List BdAddr → Type 0
IsUnshared addrs =
    (i j : ℕ) (addr : BdAddr)
    → addr ≢ empty_addr
    → get_elem? addrs i ≡ some addr
    → get_elem? addrs j ≡ some addr
    → i ≡ j

-- The vectors have the same length, no two clients share an address, and a freed slot has no source.
pub record IsWellFormed (b : Backend) : Type 0 where
  pub same_length : length b.input_sources ≡ length b.permanent_addrs
  pub unshared : IsUnshared b.permanent_addrs
  pub freed :
      (i : ℕ)
      → get_elem? b.permanent_addrs i ≡ some empty_addr
      → get_elem? b.input_sources i ≡ some none

-- The clients of `addrs` have their ids in `addrs'`.
abbrev pub IsKept : List BdAddr → List BdAddr → Type 0
IsKept addrs addrs' =
    (j : ℕ) (a : BdAddr) → a ≢ empty_addr → get_elem? addrs j ≡ some a → get_elem? addrs' j ≡ some a

-- Slot `i` is the client's, with a source that reads `fd`, and the other clients have kept theirs.
pub record IsServed (b : Backend) (addr : BdAddr) (fd : ℕ) (b' : Backend) : Type 0 where
  pub id : ℕ
  pub at : get_elem? b'.permanent_addrs id ≡ some addr
  pub source : get_elem? b'.input_sources id ≡ some (some (attached id fd))
  pub others : IsKept b.permanent_addrs b'.permanent_addrs

pub change-IsUnshared :
    (addrs addrs' : List BdAddr) (i : ℕ) (addr : BdAddr)
    → IsUnshared addrs
    → (addr ≢ empty_addr → (j : ℕ) → get_elem? addrs j ≢ some addr)
    → IsChange addrs addrs' i addr
    → IsUnshared addrs'
change-IsUnshared addrs addrs' i addr h fresh change j k a ne at_j at_k = elim (change j a at_j) [
  | inl (j_new, a_new) ↦ elim (change k a at_k) [
    | inl (k_new, b_new) ↦ cc
    | inr k_old ↦ absurd (fresh (rw (sym a_new) ne) k (rw (sym a_new) k_old))
  ]
  | inr j_old ↦ elim (change k a at_k) [
    | inl (k_new, b_new) ↦ absurd (fresh (rw (sym b_new) ne) j (rw (sym b_new) j_old))
    | inr k_old ↦ h j k a ne j_old k_old
  ]
]

-- A client's slot gets its source.
abbrev pub serve : Backend → ℕ → ℕ → Backend
serve b i fd = record b { input_sources = set b.input_sources i (some (attached i fd)) }

-- Slot `i` of a backend that is well-formed elsewhere.
pub record IsOpen (b : Backend) (i : ℕ) (addr : BdAddr) : Type 0 where
  pub same_length : length b.input_sources ≡ length b.permanent_addrs
  pub unshared : IsUnshared b.permanent_addrs
  pub at : get_elem? b.permanent_addrs i ≡ some addr
  pub freed :
      (j : ℕ)
      → j ≢ i
      → get_elem? b.permanent_addrs j ≡ some empty_addr
      → get_elem? b.input_sources j ≡ some none

pub serve-source :
    (b : Backend) (i fd : ℕ) (addr : BdAddr)
    → IsOpen b i addr
    → get_elem? (set b.input_sources i (some (attached i fd))) i ≡ some (some (attached i fd))
serve-source b i fd addr open_i =
    let bound : i < length b.permanent_addrs = get_elem?_bound b.permanent_addrs i addr open_i.at in
    get_elem?-set_self b.input_sources i (some (attached i fd)) (omega (arith, open_i.same_length))

pub serve-IsWellFormed :
    (b : Backend) (i fd : ℕ) (addr : BdAddr)
    → IsOpen b i addr
    → addr ≢ empty_addr
    → IsWellFormed (serve b i fd)
serve-IsWellFormed b i fd addr open_i ne = record {
  same_length =
      omega (arith, length-set b.input_sources i (some (attached i fd)), open_i.same_length);
  unshared = open_i.unshared;
  freed = λ j freed. elim (ℕ_discrete j i) [
    | yes here ↦
        let same : get_elem? b.permanent_addrs i ≡ some empty_addr = rw (sym here) freed in
        let at : get_elem? b.permanent_addrs i ≡ some addr = open_i.at in absurd (ne cc)
    | no other ↦
        rw (get_elem?-set_ne b.input_sources i j (some (attached i fd)) (λ e. other (sym e)))
          (open_i.freed j other freed)
  ];
}

-- The freed slot that a new client takes.
freed-IsOpen :
    (b : Backend) (i : ℕ) (addr : BdAddr)
    → IsWellFormed b
    → addr ≢ empty_addr
    → ((j : ℕ) → get_elem? b.permanent_addrs j ≢ some addr)
    → i < length b.permanent_addrs
    → IsOpen (record b { permanent_addrs = set b.permanent_addrs i addr }) i addr
freed-IsOpen b i addr h ne fresh bound =
    let change : IsChange b.permanent_addrs (set b.permanent_addrs i addr) i addr =
      (λ j a at. get_elem?-set_origin b.permanent_addrs i j addr a at) in
    record {
      same_length = omega (arith, length-set b.permanent_addrs i addr, h.same_length);
      unshared =
          change-IsUnshared b.permanent_addrs (set b.permanent_addrs i addr) i addr h.unshared
            (λ _. fresh) change;
      at = get_elem?-set_self b.permanent_addrs i addr bound;
      freed = λ j other freed. elim (change j empty_addr freed) [
        | inl (new, e) ↦ absurd (ne (sym e))
        | inr old ↦ h.freed j old
      ];
    }

-- One slot more, for a new client.
more-IsOpen :
    (b : Backend) (addr : BdAddr)
    → IsWellFormed b
    → addr ≢ empty_addr
    → ((j : ℕ) → get_elem? b.permanent_addrs j ≢ some addr)
    → IsOpen
        (record b {
          permanent_addrs = b.permanent_addrs ++ (addr ∷ []);
          input_sources = b.input_sources ++ (none ∷ []);
        })
        (length b.permanent_addrs)
        addr
more-IsOpen b addr h ne fresh =
    let change : IsChange b.permanent_addrs (b.permanent_addrs ++ (addr ∷ []))
        (length b.permanent_addrs) addr =
      (λ j a at. get_elem?-append_origin b.permanent_addrs j addr a at) in
    record {
      same_length = omega (
        arith,
        length-append b.permanent_addrs (addr ∷ []),
        length-append b.input_sources (none ∷ []),
        h.same_length,
      );
      unshared =
          change-IsUnshared b.permanent_addrs (b.permanent_addrs ++ (addr ∷ []))
            (length b.permanent_addrs) addr h.unshared (λ _. fresh) change;
      at = get_elem?-append_last b.permanent_addrs addr;
      freed = λ j other freed. elim (change j empty_addr freed) [
        | inl (new, e) ↦ absurd (ne (sym e))
        | inr old ↦
            let was : get_elem? b.input_sources j ≡ some none = h.freed j old in
            rw
              (get_elem?-append_left b.input_sources none j
                (get_elem?_bound b.input_sources j none was))
              was
      ];
    }

pub set-IsKept :
    (addrs : List BdAddr) (i : ℕ) (addr : BdAddr)
    → get_elem? addrs i ≡ some empty_addr
    → IsKept addrs (set addrs i addr)
set-IsKept addrs i addr was j a ne at = elim (ℕ_discrete i j) [
  | yes here ↦ let freed : get_elem? addrs j ≡ some empty_addr = rw (sym here) was in absurd (ne cc)
  | no other ↦ rw (get_elem?-set_ne addrs i j addr other) at
]

pub append-IsKept : (addrs : List BdAddr) (addr : BdAddr) → IsKept addrs (addrs ++ (addr ∷ []))
append-IsKept addrs addr j a ne at =
    rw (get_elem?-append_left addrs addr j (get_elem?_bound addrs j a at)) at

-- What `new_slot` gives to a client that is not known.
pub new_slot_lem :
    (b : Backend) (addr : BdAddr)
    → IsWellFormed b
    → addr ≢ empty_addr
    → get_backend_id b.permanent_addrs addr ≡ none
    → Returns
        (λ r. IsOpen r.0 r.1 addr × IsKept b.permanent_addrs r.0.permanent_addrs)
        (new_slot b addr)
unfolding new_slot
new_slot_lem b addr h ne unknown =
    let fresh : (j : ℕ) → get_elem? b.permanent_addrs j ≢ some addr =
      (λ j. get_backend_id_absent b.permanent_addrs addr j unknown) in
    elim (Option-cases (get_backend_id b.permanent_addrs empty_addr)) [
      | inl full ↦
          rw (new_slot, full) (more-IsOpen b addr h ne fresh, append-IsKept b.permanent_addrs addr)
      | inr (i, e) ↦
          let was : get_elem? b.permanent_addrs i ≡ some empty_addr =
            get_backend_id_found b.permanent_addrs empty_addr i e in
          let bound : i < length b.permanent_addrs =
            get_elem?_bound b.permanent_addrs i empty_addr was in
          rw (new_slot, e, h.freed i was)
            (freed-IsOpen b i addr h ne fresh bound, set-IsKept b.permanent_addrs i addr was)
    ]
