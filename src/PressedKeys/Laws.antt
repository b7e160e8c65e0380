-- ===== src/PressedKeys/Laws.antt =====
-- btkbwindow.cc: the effect of one `pressKey`, of one `releaseKey`, and of `finalizeKeys`.
use stmm_input_bt.Base.{
  ℕ, ◌≡◌, refl, Bool, true, ◌||◌, List, [], ◌∷◌, ◌++◌, Option, none, some, arith, ◌==◌, Returns,
  Returns->>=, Option-cases, inl, inr,
}
use stmm_input_bt.KeyPacket.{key_release, key_release_cancel}
use stmm_input_bt.KeyClient.State.{Key}
use stmm_input_bt.PressedKeys.{
  PressedKey, KeyWindow, Line, released_line, canceled_line, same_finger, is_key_pressed, scan,
  is_released, take_out, tell_client, release_key, release_all, finalize_keys,
}

same_finger_self : (f : Option ℕ) → same_finger f f ≡ true
same_finger_self none = refl
same_finger_self (some a) = ground arith

-- A held key is released by its own source.
is_released_self : (p : PressedKey) → is_released p p ≡ true
is_released_self p = ground (arith, same_finger_self p.finger)

take_out-head : (p : PressedKey) (ps : List PressedKey) → take_out p (p ∷ ps) ≡ some (p, ps)
unfolding take_out
take_out-head p ps = rw (is_released_self p)

pub scan-already :
    (q : PressedKey) (already found : Bool) (ps : List PressedKey)
    → scan q already ps ≡ some found
    → found ≡ (already || is_key_pressed q.key ps)
unfolding scan is_key_pressed
scan-already q already found [] e = ground arith
scan-already q already found (p ∷ ps) e =
    ground (arith, scan-already q true found ps, scan-already q already found ps)

pub is_key_pressed-append :
    (k : ℕ) (ps : List PressedKey) (q : PressedKey)
    → is_key_pressed k (ps ++ (q ∷ [])) ≡ (is_key_pressed k ps || q.key == k)
unfolding is_key_pressed
is_key_pressed-append k [] q = ground arith
is_key_pressed-append k (p ∷ ps) q = ground (arith, is_key_pressed-append k ps q)

-- What `take_out` takes from the held keys.
pub is_key_pressed-take_out :
    (k : ℕ) (q found : PressedKey) (ps others : List PressedKey)
    → take_out q ps ≡ some (found, others)
    → is_key_pressed k ps ≡ (found.key == k || is_key_pressed k others)
unfolding take_out is_key_pressed
is_key_pressed-take_out k q found [] others e = cc
is_key_pressed-take_out k q found (p ∷ ps) others e = elim (Option-cases (take_out q ps)) [
  | inl nothing ↦ ground arith
  | inr ((f, os), more) ↦ ground (arith, is_key_pressed-take_out k q f ps os)
]

-- A client whose `sendKeyToServer` returns and keeps `P`.
abbrev pub Sends : {C : Type 0} → (C → Type 0) → (Key → C → Option C) → Type 0
Sends {C} P send = (key : Key) (c : C) → P c → Returns P (send key c)

module _ {C : Type 0} (is_connected : C → Bool) (send : Key → C → Option C) (P : C → Type 0)
    (keeps : Sends P send) where
  -- The window's client is fine, and its held keys are these.
  abbrev pub Holds : List PressedKey → KeyWindow C → Type 0
  Holds ps w = (w.pressed ≡ ps) × P w.client

  tell_client-Holds :
      (w : KeyWindow C) (line : Line) (key : Key)
      → P w.client
      → Returns (Holds w.pressed) (tell_client is_connected send w line key)
  unfolding tell_client
  tell_client-Holds w line key h = ground (arith, keeps key w.client h)

  release_key-head :
      (w : KeyWindow C) (p : PressedKey) (ps : List PressedKey) (cancel : Bool)
      → P w.client
      → w.pressed ≡ p ∷ ps
      → Returns (λ r. Holds ps r.0) (release_key is_connected send w p cancel)
  unfolding release_key
  release_key-head w p ps cancel h at = ground (
    arith,
    take_out-head p ps,
    tell_client-Holds (record w { pressed = ps }) (canceled_line p.key) (key_release_cancel, p.key)
        h,
    tell_client-Holds (record w { pressed = ps }) (released_line p.key) (key_release, p.key) h,
  )

  release_all-Holds :
      (ps : List PressedKey) (w : KeyWindow C)
      → P w.client
      → w.pressed ≡ ps
      → Returns (Holds []) (release_all is_connected send ps w)
  unfolding release_all
  release_all-Holds [] w h at = (at, h)
  release_all-Holds (p ∷ ps) w h at =
      Returns->>= (λ r. Holds ps r.0) (Holds []) (release_key is_connected send w p true)
        (λ r. release_all is_connected send ps r.0) (release_key-head w p ps true h at)
        (λ r kept. release_all-Holds ps r.0 kept.1 kept.0)

  -- `finalizeKeys` returns and leaves no key pressed, and it keeps what the calls of the client keep.
  pub finalize_keys-Holds :
      (w : KeyWindow C) → P w.client → Returns (Holds []) (finalize_keys is_connected send w)
  unfolding finalize_keys
  finalize_keys-Holds w h = release_all-Holds w.pressed w h refl
