-- ===== src/PressedKeys/Balance.antt =====
-- btkbwindow.cc: over any sequence of presses and releases, of each key the calls of
-- `sendKeyToServer` are a press and then a release in turn.
use stmm_input_bt.Base.{
  ℕ, ◌≡◌, Bool, true, false, List, [], ◌∷◌, Option, some, arith, if◌then◌else◌, ◌>>=◌, Returns,
  Returns->>=, Returns-both, Returns-weaken, Option-cases, Bool-cases, inl, inr, ◌++◌,
}
use stmm_input_bt.KeyPacket.{key_press, key_release, key_release_cancel}
use stmm_input_bt.KeyClient.State.{Key}
use stmm_input_bt.PressedKeys.{
  PressedKey, KeyWindow, Line, pressed_line, released_line, canceled_line, is_key_pressed, scan,
  take_out, tell_client, press_key, release_key, finalize_keys, release_all,
}
use stmm_input_bt.PressedKeys.Laws.{finalize_keys-Holds, scan-already}
use stmm_input_bt.PressedKeys.Counts.{
  record_call, presses, releases, IsBalanced, Told, more-IsBalanced, first-IsBalanced,
  still-IsBalanced, last-IsBalanced, none_held,
}

-- What the window is asked to do.
pub data Action : Type 0 where
  press : PressedKey → Action
  release : PressedKey → Bool → Action
  finalize : Action

module _ (is_connected : List Key → Bool) where
  unfoldable pub act : Action → KeyWindow (List Key) → Option (KeyWindow (List Key))
  act (press q) w = do (w', found) ← press_key is_connected record_call w q; some w'
  act (release q cancel) w = do
    (w', found) ← release_key is_connected record_call w q cancel
    some w'
  act finalize w = finalize_keys is_connected record_call w

  unfoldable pub act_all : List Action → KeyWindow (List Key) → Option (KeyWindow (List Key))
  act_all [] w = some w
  act_all (a ∷ actions) w = do w' ← act a w; act_all actions w'

  tell_client-calls :
      (w : KeyWindow (List Key)) (line : Line) (key : Key)
      → Returns (Told w key) (tell_client is_connected record_call w line key)
  unfolding tell_client record_call
  tell_client-calls w line key = ground arith

  pub press_key-IsBalanced :
      (w : KeyWindow (List Key)) (q : PressedKey)
      → IsBalanced w
      → Returns (λ r. IsBalanced r.0) (press_key is_connected record_call w q)
  unfolding press_key
  press_key-IsBalanced w q h = elim (Option-cases (scan q false w.pressed)) [
    | inl again ↦ rw (press_key, again) h
    | inr (true, e) ↦
        rw (press_key, e) (more-IsBalanced w q h (scan-already q false true w.pressed e))
    | inr (false, e) ↦
        rw (press_key, e)
          (Returns->>= (Told (record w { pressed = w.pressed ++ (q ∷ []) }) (key_press, q.key))
            (λ r. IsBalanced r.0)
            (tell_client is_connected record_call (record w { pressed = w.pressed ++ (q ∷ []) })
              (pressed_line q.key) (key_press, q.key))
            (λ w''. some (w'', true))
            (tell_client-calls (record w { pressed = w.pressed ++ (q ∷ []) }) (pressed_line q.key)
              (key_press, q.key))
            (λ w'' told. first-IsBalanced w w'' q h (scan-already q false false w.pressed e) told))
  ]

  released-IsBalanced :
      (w : KeyWindow (List Key)) (q found : PressedKey) (others : List PressedKey) (cancel : Bool)
      → IsBalanced w
      → take_out q w.pressed ≡ some (found, others)
      → is_key_pressed found.key others ≡ false
      → Returns (λ r. IsBalanced r.0) (release_key is_connected record_call w q cancel)
  unfolding release_key
  released-IsBalanced w q found others cancel h e last =
      let line : Line = if cancel then canceled_line found.key else released_line found.key in
      let key : Key = (if cancel then key_release_cancel else key_release, found.key) in
      rw (release_key, e, last)
        (Returns->>= (Told (record w { pressed = others }) key) (λ r. IsBalanced r.0)
          (tell_client is_connected record_call (record w { pressed = others }) line key)
          (λ w''. some (w'', true)) (tell_client-calls (record w { pressed = others }) line key)
          (λ w'' told. last-IsBalanced w w'' q found others cancel h e last told))

  pub release_key-IsBalanced :
      (w : KeyWindow (List Key)) (q : PressedKey) (cancel : Bool)
      → IsBalanced w
      → Returns (λ r. IsBalanced r.0) (release_key is_connected record_call w q cancel)
  unfolding release_key
  release_key-IsBalanced w q cancel h = elim (Option-cases (take_out q w.pressed)) [
    | inl nothing ↦ rw (release_key, nothing) h
    | inr ((found, others), e) ↦ elim (Bool-cases (is_key_pressed found.key others)) [
      | inl still ↦ rw (release_key, e, still) (still-IsBalanced w q found others h e still)
      | inr last ↦ released-IsBalanced w q found others cancel h e last
    ]
  ]

  pub release_all-IsBalanced :
      (ps : List PressedKey) (w : KeyWindow (List Key))
      → IsBalanced w
      → Returns IsBalanced (release_all is_connected record_call ps w)
  unfolding release_all
  release_all-IsBalanced [] w h = h
  release_all-IsBalanced (p ∷ ps) w h =
      Returns->>= (λ r. IsBalanced r.0) IsBalanced (release_key is_connected record_call w p true)
        (λ r. release_all is_connected record_call ps r.0) (release_key-IsBalanced w p true h)
        (λ r kept. release_all-IsBalanced ps r.0 kept)

  act-IsBalanced :
      (a : Action) (w : KeyWindow (List Key)) → IsBalanced w → Returns IsBalanced (act a w)
  unfolding act finalize_keys
  act-IsBalanced (press q) w h =
      Returns->>= (λ r. IsBalanced r.0) IsBalanced (press_key is_connected record_call w q)
        (λ r. some r.0) (press_key-IsBalanced w q h) (λ r kept. kept)
  act-IsBalanced (release q cancel) w h =
      Returns->>= (λ r. IsBalanced r.0) IsBalanced (release_key is_connected record_call w q cancel)
        (λ r. some r.0) (release_key-IsBalanced w q cancel h) (λ r kept. kept)
  act-IsBalanced finalize w h = release_all-IsBalanced w.pressed w h

  -- Any sequence of presses, releases and finalizations of a window that is balanced returns, and the
  -- window is balanced after it: of every key the client was told as many releases as presses, and
  -- one press more exactly if the key is still held.
  pub act_all-IsBalanced :
      (actions : List Action) (w : KeyWindow (List Key))
      → IsBalanced w
      → Returns IsBalanced (act_all actions w)
  unfolding act_all
  act_all-IsBalanced [] w h = h
  act_all-IsBalanced (a ∷ actions) w h =
      Returns->>= IsBalanced IsBalanced (act a w) (act_all actions) (act-IsBalanced a w h)
        (λ w' kept. act_all-IsBalanced actions w' kept)

  -- `finalizeKeys` of a window that is balanced returns, no key is pressed after it, and of every key
  -- the client has been told as many releases as presses.
  pub finalize_keys-balance :
      (w : KeyWindow (List Key))
      → IsBalanced w
      → Returns
          (λ w'. (w'.pressed ≡ []) × ((k : ℕ) → presses k w'.client ≡ releases k w'.client))
          (finalize_keys is_connected record_call w)
  unfolding finalize_keys record_call
  finalize_keys-balance w h =
      Returns-weaken (λ w'. IsBalanced w' × ((w'.pressed ≡ []) × Unit {0}))
        (λ w'. (w'.pressed ≡ []) × ((k : ℕ) → presses k w'.client ≡ releases k w'.client))
        (finalize_keys is_connected record_call w)
        (Returns-both IsBalanced (λ w'. (w'.pressed ≡ []) × Unit {0})
          (finalize_keys is_connected record_call w) (release_all-IsBalanced w.pressed w h)
          (finalize_keys-Holds is_connected record_call (λ calls. Unit {0}) (λ key calls p. tt) w
            tt))
        (λ w' kept. (kept.1.0, λ k. none_held w' kept.0 kept.1.0 k))
