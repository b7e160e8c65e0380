-- ===== src/Backend/Ids.antt =====
-- btgtkbackend.cc: what `getBackendId` finds.
use stmm_input_bt.Base.{
  ℕ, zero, suc, ◌≡◌, ◌≢◌, true, List, [], ◌∷◌, none, some, get_elem?, arith, Bool-cases,
  Option-cases, inl, inr, ap,
}
use stmm_input_bt.BdAddr.{BdAddr, same_addr, same_addr_iff}
use stmm_input_bt.Backend.{get_backend_id}

pub get_backend_id_found :
    (addrs : List BdAddr) (addr : BdAddr) (i : ℕ)
    → get_backend_id addrs addr ≡ some i
    → get_elem? addrs i ≡ some addr
unfolding get_backend_id
get_backend_id_found [] addr i e = cc
get_backend_id_found (a ∷ addrs) addr i e = elim (Bool-cases (same_addr a addr)) [
  | inl same ↦
      let here : i ≡ 0 = ground arith in
      let it : a ≡ addr = (same_addr_iff a addr).0 same in rw (here) (ap some it)
  | inr other ↦ elim (Option-cases (get_backend_id addrs addr)) [
    | inl nothing ↦ absurd (ground arith)
    | inr (j, at) ↦
        let there : i ≡ suc j = ground arith in
        let found : get_elem? addrs j ≡ some addr = get_backend_id_found addrs addr j at in
        rw (there) found
  ]
]

pub get_backend_id_absent :
    (addrs : List BdAddr) (addr : BdAddr) (i : ℕ)
    → get_backend_id addrs addr ≡ none
    → get_elem? addrs i ≢ some addr
unfolding get_backend_id
get_backend_id_absent [] addr i e at = cc
get_backend_id_absent (a ∷ addrs) addr zero e at =
    let it : a ≡ addr = cc in
    let same : same_addr a addr ≡ true = (same_addr_iff a addr).1 it in ground arith
get_backend_id_absent (a ∷ addrs) addr (suc i) e at =
    get_backend_id_absent addrs addr i (ground arith) at
