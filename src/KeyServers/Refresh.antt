-- ===== src/KeyServers/Refresh.antt =====
-- btkeyservers.cc: the states of a refresh, and that it ends.
use stmm_input_bt.Base.{
  ℕ, zero, suc, ◌+◌, ◌*◌, ◌≤◌, ◌<◌, ◌≡◌, refl, Bool, true, List, Option, none, some, arith, Returns,
  Returns->>=, is_some, ◌>>=◌, dec_lt,
}
use stmm_input_bt.KeyServers.{
  KeyServers, ServerInfo, RefreshError, start_refresh_servers, limit_fits, refresh_limit,
  do_refresh_timeout, tick,
}

-- A refresh that began at `s` can be asked for its result, and there is a timeout, on which the time
-- has gone on since.
abbrev pub IsRunning : Bool → Option ℕ → Option ℕ → Type 0
IsRunning valid timer none = Unit {0}
IsRunning valid none (some s) = ⊥
IsRunning valid (some t) (some s) = (valid ≡ true) × (s ≤ t)

abbrev pub IsSound : KeyServers → Type 0
IsSound k = IsRunning k.future_valid k.interval_timeout k.refresh_started

-- `startRefreshServers` of servers in a sound state leaves them so, with a refresh that runs.
pub start_refresh_servers-IsSound :
    (k : KeyServers)
    → IsSound k
    → IsSound (start_refresh_servers k).0
      × (is_some (start_refresh_servers k).0.refresh_started ≡ true)
unfolding start_refresh_servers
start_refresh_servers-IsSound k h = ground arith

-- The callback of the timeout on servers in a sound state with a timeout, where the limit fits,
-- returns, whatever the thread answers, and leaves them in a sound state with the timeout.
pub tick-IsSound :
    (k : KeyServers) (result : Option (RefreshError × List ServerInfo)) (t : ℕ)
    → IsSound k
    → k.interval_timeout ≡ some t
    → limit_fits k ≡ true
    → Returns (λ k'. IsSound k' × (k'.interval_timeout ≡ some (t + 1000))) (tick k result)
unfolding tick do_refresh_timeout
tick-IsSound k result t h timer fits = ground arith

-- The callbacks of some seconds in which the thread does not finish.
unfoldable pub ticks : ℕ → KeyServers → Option KeyServers
ticks zero k = some k
ticks (suc n) k = do k' ← tick k none; ticks n k'

-- Servers with a timeout that shows `t`, which stays as the time goes on.
abbrev Shows : ℕ → ℕ → Option ℕ → KeyServers → Type 0
Shows limit t started k =
    (limit_fits k ≡ true)
    × (refresh_limit k ≡ limit)
    × (k.interval_timeout ≡ some t)
    × (k.refresh_started ≡ started)

ticks-ended :
    (n limit t : ℕ) (k : KeyServers)
    → Shows limit t none k
    → Returns (λ k'. k'.refresh_started ≡ none) (ticks n k)
unfolding ticks tick do_refresh_timeout
ticks-ended zero limit t k h = h.3
ticks-ended (suc n) limit t k h =
    Returns->>= (Shows limit (t + 1000) none) (λ k'. k'.refresh_started ≡ none) (tick k none)
      (ticks n) (ground arith) (λ k' h'. ticks-ended n limit (t + 1000) k' h')

-- One callback before the limit, and one behind it.
tick-waits :
    (limit t s : ℕ) (k : KeyServers)
    → k.future_valid ≡ true
    → Shows limit t (some s) k
    → t + 1000 ≤ s + limit
    → Returns (λ k'. (k'.future_valid ≡ true) × Shows limit (t + 1000) (some s) k') (tick k none)
unfolding tick do_refresh_timeout
tick-waits limit t s k valid h early = ground arith

tick-ends :
    (limit t s : ℕ) (k : KeyServers)
    → k.future_valid ≡ true
    → Shows limit t (some s) k
    → s + limit < t + 1000
    → Returns (Shows limit (t + 1000) none) (tick k none)
unfolding tick do_refresh_timeout
tick-ends limit t s k valid h late = ground arith

ticks-running :
    (n limit t s : ℕ) (k : KeyServers)
    → k.future_valid ≡ true
    → Shows limit t (some s) k
    → t ≤ s + limit
    → s + limit < t + n * 1000
    → Returns (λ k'. k'.refresh_started ≡ none) (ticks n k)
unfolding ticks
ticks-running zero limit t s k valid h early late = absurd (omega arith)
ticks-running (suc n) limit t s k valid h early late = elim (dec_lt (s + limit) (t + 1000)) [
  | yes behind ↦
      Returns->>= (Shows limit (t + 1000) none) (λ k'. k'.refresh_started ≡ none) (tick k none)
        (ticks n) (tick-ends limit t s k valid h behind)
        (λ k' h'. ticks-ended n limit (t + 1000) k' h')
  | no before ↦
      Returns->>= (λ k'. (k'.future_valid ≡ true) × Shows limit (t + 1000) (some s) k')
        (λ k'. k'.refresh_started ≡ none) (tick k none) (ticks n)
        (tick-waits limit t s k valid h (omega (arith, before)))
        (λ k' h'.
          ticks-running n limit (t + 1000) s k' h'.0 h'.1 (omega (arith, before))
            (omega (arith, late)))
]

-- A refresh ends even if the thread never does: of servers in a sound state whose refresh began at `s`
-- and whose timeout shows `t`, where twice 1280 times the periods fit in 31 bits, not yet behind the
-- limit, no refresh is running after `n` seconds without a result, if these go beyond the limit.
pub refresh_ends :
    (n t s : ℕ) (k : KeyServers)
    → IsSound k
    → k.interval_timeout ≡ some t
    → k.refresh_started ≡ some s
    → limit_fits k ≡ true
    → t ≤ s + refresh_limit k
    → s + refresh_limit k < t + n * 1000
    → Returns (λ k'. k'.refresh_started ≡ none) (ticks n k)
refresh_ends n t s k h timer started fits early late =
    ticks-running n (refresh_limit k) t s k (ground arith) (fits, refl, timer, started) early late
