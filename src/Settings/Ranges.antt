-- ===== src/Settings/Ranges.antt =====
-- The durations and the retry policy that the mains compute from the environment.
use flashsale_reservation.Prelude.{ℕ, ◌*◌, ◌≤◌, ◌≡◌, arith, Bool-cases, inl, inr}
use flashsale_reservation.Prelude.Int.{ℤ, pos, negsuc, ◌≤ℤ◌, ◌<ℤ◌, ltb_ℤ, int64, pos_part, neg_part}
use flashsale_reservation.Prelude.Text.{codes}
use flashsale_reservation.Retry.{default_policy, second}
use flashsale_reservation.Env.{Env, int, in_seconds}
use flashsale_reservation.Consumer.{service_policy}
use flashsale_reservation.Settings.{decision_settings}

-- The largest number of seconds that a time.Duration holds.
abbrev pub max_seconds : ℕ
max_seconds = 9_223_372_036

-- A number of seconds of either sign within the range of time.Duration is converted exactly.
pub in_seconds_exact :
    (z : ℤ)
    → pos_part z ≤ max_seconds
    → neg_part z ≤ max_seconds
    → (pos_part (in_seconds z) ≡ pos_part z * second)
      × (neg_part (in_seconds z) ≡ neg_part z * second)
unfolding int64
in_seconds_exact (pos n) h g = (ground arith, ground arith)
in_seconds_exact (negsuc n) h g = (ground arith, ground arith)

service_policy-caps :
    (a e : ℤ)
    → e ≤ℤ pos max_seconds
    → (pos 0 <ℤ (service_policy a e).max_attempts) × (pos 0 <ℤ (service_policy a e).max_elapsed)
unfolding service_policy default_policy
service_policy-caps a e h = elim (Bool-cases (ltb_ℤ (pos 0) e)) [
  | inl set ↦
      let (exact, _) = in_seconds_exact e (ground arith) (ground arith) in
      (ground arith, ground arith)
  | inr unset ↦ (ground arith, ground arith)
]

-- Whatever the environment holds, the decision service's policy has a positive `MaxAttempts`, and a
-- positive `MaxElapsed` too, unless DECISION_MAX_RETRY_ELAPSED_SECONDS reads as more than 9223372036.
pub decision_policy_caps :
    (env : Env)
    → int env (codes "DECISION_MAX_RETRY_ELAPSED_SECONDS") (pos 0) ≤ℤ pos max_seconds
    → (pos 0 <ℤ (decision_settings env).policy.max_attempts)
      × (pos 0 <ℤ (decision_settings env).policy.max_elapsed)
unfolding decision_settings
decision_policy_caps env h = service_policy-caps _ _ h
