-- ===== src/Pairing/Backoff.antt =====
-- The back-off between connection attempts.
use native.Mathlib.Nat.{pow-suc, mul-le-mul_left}
use native.Mathlib.Decide.{dec_le}
use cardputer_codex_deck.Base.{
  ℕ, zero, suc, ◌+◌, ◌*◌, ◌^◌, ◌≤◌, ◌<◌, ◌≡◌, ◌∙◌, ap, List, [], ◌∷◌, arith, min, length, leb, u32,
}
use cardputer_codex_deck.Models.{reconnect_min_ms, reconnect_max_ms}
use cardputer_codex_deck.Pairing.State.{PairingManager, Env, deadline_reached}
use cardputer_codex_deck.Pairing.Link.{schedule_reconnect}

-- Failures in a row, each scheduling the next attempt.
pub fail_each : List Env → PairingManager → PairingManager
fail_each [] m = m
fail_each (env ∷ envs) m = fail_each envs (schedule_reconnect env m)

pow-pos : (n : ℕ) → 1 ≤ 2 ^ n
pow-pos zero = omega arith
pow-pos (suc n) = omega (arith, pow-pos n, pow-suc 2 n)

-- Doubling under the cap, then by a power of two under the cap, is doubling the power.
cap_double :
    (d p : ℕ)
    → d ≤ reconnect_max_ms
    → 1 ≤ p
    → min (min (u32 (d * 2)) reconnect_max_ms * p) reconnect_max_ms
      ≡ min (d * (p * 2)) reconnect_max_ms
cap_double d p h k = elim (dec_le (d * 2) reconnect_max_ms) [
  | yes low ↦ let e : min (u32 (d * 2)) reconnect_max_ms ≡ d * 2 = omega arith in rw e (omega arith)
  | no high ↦
      let e : min (u32 (d * 2)) reconnect_max_ms ≡ reconnect_max_ms = omega arith in
      rw e (omega (arith, mul-le-mul_left d k))
]

delay-fail_each :
    (envs : List Env) (m : PairingManager)
    → m.reconnect_delay_ms ≤ reconnect_max_ms
    → (fail_each envs m).reconnect_delay_ms
      ≡ min (m.reconnect_delay_ms * 2 ^ length envs) reconnect_max_ms
unfolding fail_each schedule_reconnect
delay-fail_each [] m h = omega arith
delay-fail_each (env ∷ envs) m h =
    rw (delay-fail_each envs (schedule_reconnect env m) (omega arith), pow-suc 2 (length envs))
      (cap_double m.reconnect_delay_ms (2 ^ length envs) h (pow-pos (length envs)))

-- After n calls of `scheduleReconnect`, at any times, from the least delay, the delay is 1000 ms
-- times 2^n, at most 20 s.
pub backoff_doubles :
    (envs : List Env) (m : PairingManager)
    → m.reconnect_delay_ms ≡ reconnect_min_ms
    → (fail_each envs m).reconnect_delay_ms
      ≡ min (reconnect_min_ms * 2 ^ length envs) reconnect_max_ms
backoff_doubles envs m h =
    delay-fail_each envs m (omega arith)
    ∙ ap (λ (d : ℕ). min (d * 2 ^ length envs) reconnect_max_ms) h

-- The deadline that a failure at a 32-bit time t sets, with a delay of at most 20 s, is reached at
-- t + k, on the clock that wraps, exactly when k is at least the delay, for k below 2^31 ms.
pub deadline_exact :
    (env : Env) (m : PairingManager) (k : ℕ)
    → env.now < 2 ^ 32
    → m.reconnect_delay_ms ≤ reconnect_max_ms
    → k < 2 ^ 31
    → deadline_reached (u32 (env.now + k)) (schedule_reconnect env m).next_connect_ms
      ≡ leb m.reconnect_delay_ms k
unfolding schedule_reconnect
deadline_exact env m k h d lt = ground arith
