-- ===== src/Mains/Fair.antt =====
-- cmd/decision-service/main.go: what holds of the service for every environment it is started in.
use flashsale_reservation.Prelude.{ℕ, ◌<◌, ◌≡◌, inl, inr, refl, List, arith, Bool-cases}
use flashsale_reservation.Prelude.Int.{ℤ, pos, ltb_ℤ, pos_part}
use flashsale_reservation.Prelude.Text.{codes}
use flashsale_reservation.Prelude.Result.{Result-cases}
use flashsale_reservation.Env.{Env, int}
use flashsale_reservation.Settings.{decision_settings}
use flashsale_reservation.Retry.{default_policy}
use flashsale_reservation.Store.{Db, Uuids}
use flashsale_reservation.Store.Sums.{stock}
use flashsale_reservation.Store.Invariant.{Sound}
use flashsale_reservation.Connect.{new_pool}
use flashsale_reservation.Decision.{Attempt}
use flashsale_reservation.Consumer.{Round, handle, service_policy}
use flashsale_reservation.Consumer.Loop.{Fetch, Service}
use flashsale_reservation.Consumer.Safety.{IsFair, handle-IsFair}
use flashsale_reservation.Consumer.Order.{run_consume_loop-Sound}
use flashsale_reservation.Mains.{Dials, Reading, pool_at, loop_setup, decision_main}

attempts_positive : (a e : ℤ) → (m : ℕ) × ((service_policy a e).max_attempts ≡ pos m) × (0 < m)
unfolding service_policy default_policy
attempts_positive a e = elim (Bool-cases (ltb_ℤ (pos 0) a)) [
  | inl set ↦ elim (Bool-cases (ltb_ℤ (pos 0) e)) [
    | inl s ↦ (pos_part a, ground arith, ground arith)
    | inr s ↦ (pos_part a, ground arith, ground arith)
  ]
  | inr unset ↦ elim (Bool-cases (ltb_ℤ (pos 0) e)) [
    | inl s ↦ (5, ground arith, ground arith)
    | inr s ↦ (5, ground arith, ground arith)
  ]
]

-- No environment makes the decision service give a message up for an outage: whatever the settings,
-- `MaxAttempts` is a positive number, and whatever happens round after round, the cause of a dead
-- letter is not a failure to reach Postgres, and it reports at most that many attempts.
pub decision_settings-IsFair :
    (env : Env) (u : Uuids) (a : Attempt) (xs : List Round) (db : Db)
    → let f = decision_settings env in
      (m : ℕ) × (f.policy.max_attempts ≡ pos m)
      × (0 < m)
      × IsFair m (handle f.policy u f.reservation_ttl a xs 0 0 db).verdict
unfolding decision_settings
decision_settings-IsFair env u a xs db =
    let f = decision_settings env in
    let (m, e, p) =
      attempts_positive (int env (codes "DECISION_MAX_RETRIES") (pos 0))
        (int env (codes "DECISION_MAX_RETRY_ELAPSED_SECONDS") (pos 0)) in
    (m, e, p, handle-IsFair f.policy u f.reservation_ttl a xs 0 0 m db e p (omega arith))

-- Whatever the environment and whether the database can be reached, the decision service keeps sound
-- tables sound and conserves the stock of every item `i`.
pub decision_main-Sound {ℓ} :
    {E : Type ℓ} (env : Env) (d : Dials E) (r : Reading) (fs : List Fetch) (v : Service) (i : ℕ)
    → Sound v.db
    → let v' = (decision_main env d r fs v).1 in Sound v'.db × (stock i v'.db ≡ stock i v.db)
unfolding decision_main
decision_main-Sound env d r fs v i sound =
    let f = decision_settings env in
    elim (Result-cases (new_pool (pool_at f.dsn) d.open_db d.ping_db).0) [
      | inl (pool, up) ↦
          rw (up, decision_main) (run_consume_loop-Sound (loop_setup f r) fs v i sound)
      | inr (e, down) ↦ rw (down, decision_main) (sound, refl)
    ]
