-- ===== src/Consumer/Retries.antt =====
-- How often a message is tried, and what an outage does to its budget.
use flashsale_reservation.Prelude.{
  ℕ, suc, ◌+◌, ◌<◌, ◌≡◌, refl, true, false, some, List, [], ◌∷◌, ◌++◌, length, All, arith, ◌∙◌,
}
use flashsale_reservation.Prelude.Int.{ℤ, pos, ◌≤ℤ◌, ◌<ℤ◌}
use flashsale_reservation.Prelude.Result.{err}
use flashsale_reservation.Store.{Db, DbError, driver, postgres, PgCode, Uuids}
use flashsale_reservation.Decision.{Attempt, database, Calls, process_attempt, transaction}
use flashsale_reservation.Tx.{conclude}
use flashsale_reservation.Retry.{Policy, should_retry, next_backoff}
use flashsale_reservation.Consumer.{
  classify_outcome, Round, dead_lettered, waiting, leave, handle, next_round,
}

-- A call whose transaction cannot be begun.
process_attempt-down :
    (u : Uuids) (a : Attempt) (ttl : ℤ) (c : Calls) (db : Db) (e : DbError)
    → pos 0 <ℤ a.quantity
    → c.begin_tx ≡ some e
    → process_attempt u a ttl c db ≡ (err (database e), db)
unfolding process_attempt transaction conclude
process_attempt-down u a ttl c db e q h = ground arith

-- Postgres answers every BEGIN with an error of its own, in time, and no shutdown comes.
abbrev pub Failing : PgCode → ℤ → Round → Type 0
Failing code limit x =
    (x.calls.begin_tx ≡ some (postgres code)) × (x.slept ≡ true) × (x.elapsed <ℤ limit)

-- Postgres cannot be reached, and no shutdown comes.
abbrev pub Unreachable : Round → Type 0
Unreachable x = (x.calls.begin_tx ≡ some driver) × (x.slept ≡ true)

round-Failing :
    (p : Policy) (u : Uuids) (ttl : ℤ) (a : Attempt) (x : Round) (xs : List Round)
    (counted uncounted m : ℕ) (db : Db) (code : PgCode)
    → pos 0 <ℤ a.quantity
    → p.max_attempts ≡ pos m
    → pos 0 <ℤ p.max_elapsed
    → Failing code p.max_elapsed x
    → counted < m
    → handle p u ttl a (x ∷ xs) counted uncounted db
      ≡ record (handle p u ttl a xs (suc counted) uncounted db) {
        backoffs =
            next_backoff p (pos (suc counted))
            ∷ (handle p u ttl a xs (suc counted) uncounted db).backoffs;
      }
unfolding handle next_round classify_outcome should_retry
round-Failing p u ttl a x xs counted uncounted m db code q em pe (down, slept, soon) lt =
    ground (arith, process_attempt-down u a ttl x.calls db (postgres code) q down)

round-last :
    (p : Policy) (u : Uuids) (ttl : ℤ) (a : Attempt) (x : Round) (xs : List Round)
    (counted uncounted : ℕ) (db : Db) (code : PgCode)
    → pos 0 <ℤ a.quantity
    → x.calls.begin_tx ≡ some (postgres code)
    → should_retry p (pos counted) x.elapsed ≡ false
    → handle p u ttl a (x ∷ xs) counted uncounted db
      ≡ leave (dead_lettered (database (postgres code)) counted) db
unfolding handle next_round classify_outcome
round-last p u ttl a x xs counted uncounted db code q down stop =
    ground (arith, process_attempt-down u a ttl x.calls db (postgres code) q down)

round-Unreachable :
    (p : Policy) (u : Uuids) (ttl : ℤ) (a : Attempt) (x : Round) (xs : List Round)
    (counted uncounted : ℕ) (db : Db)
    → pos 0 <ℤ a.quantity
    → Unreachable x
    → handle p u ttl a (x ∷ xs) counted uncounted db
      ≡ record (handle p u ttl a xs counted (suc uncounted) db) {
        backoffs =
            next_backoff p (pos (suc uncounted))
            ∷ (handle p u ttl a xs counted (suc uncounted) db).backoffs;
      }
unfolding handle next_round classify_outcome
round-Unreachable p u ttl a x xs counted uncounted db q (down, slept) =
    ground (arith, process_attempt-down u a ttl x.calls db driver q down)

-- Between two counts the loop keeps going for as long as it is below the cap.
handle-Failing :
    (p : Policy) (u : Uuids) (ttl : ℤ) (a : Attempt) (xs : List Round) (x : Round)
    (counted uncounted m : ℕ) (db : Db) (code : PgCode)
    → pos 0 <ℤ a.quantity
    → p.max_attempts ≡ pos m
    → 0 < m
    → pos 0 <ℤ p.max_elapsed
    → All (Failing code p.max_elapsed) xs
    → Failing code p.max_elapsed x
    → counted + length xs ≡ m
    → let h = handle p u ttl a (xs ++ (x ∷ [])) counted uncounted db in
      (h.verdict ≡ dead_lettered (database (postgres code)) m) × (length h.backoffs ≡ length xs)
handle-Failing p u ttl a [] x counted uncounted m db code q em pm pe hs hx len =
    let stop : should_retry p (pos counted) x.elapsed ≡ false =
      unfold should_retry in ground arith in
    rw (round-last p u ttl a x [] counted uncounted db code q hx.0 stop) (ground arith, refl)
handle-Failing p u ttl a (y ∷ xs) x counted uncounted m db code q em pm pe hs hx len =
    let (v, l) =
      handle-Failing p u ttl a xs x (suc counted) uncounted m db code q em pm pe hs.1 hx
        (omega arith) in
    rw
      (round-Failing p u ttl a y (xs ++ (x ∷ [])) counted uncounted m db code q em pe hs.0
        (omega arith))
      (v, omega (arith, l))

-- While Postgres answers every BEGIN with an error of its own, before a positive `MaxElapsed` is
-- over and with no shutdown, a message for a positive quantity is dead-lettered by its call number
-- MaxAttempts + 1, for a positive `MaxAttempts`, with MaxAttempts attempts reported and as many
-- backoffs: one call more than the cap.
pub handle_gives_up :
    (p : Policy) (u : Uuids) (ttl : ℤ) (a : Attempt) (xs : List Round) (x : Round) (m : ℕ) (db : Db)
    (code : PgCode)
    → pos 0 <ℤ a.quantity
    → p.max_attempts ≡ pos m
    → 0 < m
    → pos 0 <ℤ p.max_elapsed
    → All (Failing code p.max_elapsed) xs
    → Failing code p.max_elapsed x
    → length xs ≡ m
    → let h = handle p u ttl a (xs ++ (x ∷ [])) 0 0 db in
      (h.verdict ≡ dead_lettered (database (postgres code)) m) × (length h.backoffs ≡ m)
handle_gives_up p u ttl a xs x m db code q em pm pe hs hx len =
    let (v, l) =
      handle-Failing p u ttl a xs x 0 0 m db code q em pm pe hs hx (omega (arith, len)) in
    (v, l ∙ len)

-- The loop waits an outage out: while no transaction can be begun because Postgres cannot be
-- reached, and no shutdown comes, a message for a positive quantity is neither committed nor given
-- up, after any number of rounds, and the tables stay as they are.
pub handle_waits :
    (p : Policy) (u : Uuids) (ttl : ℤ) (a : Attempt) (xs : List Round) (counted uncounted : ℕ)
    (db : Db)
    → pos 0 <ℤ a.quantity
    → All Unreachable xs
    → ((handle p u ttl a xs counted uncounted db).verdict ≡ waiting)
      × ((handle p u ttl a xs counted uncounted db).db ≡ db)
handle_waits p u ttl a [] counted uncounted db q hs = unfold handle in (refl, refl)
handle_waits p u ttl a (x ∷ xs) counted uncounted db q hs =
    rw (round-Unreachable p u ttl a x xs counted uncounted db q hs.0)
      (handle_waits p u ttl a xs counted (suc uncounted) db q hs.1)

-- The time of an outage counts, though its retries do not: when Postgres is back once a positive
-- `MaxElapsed` is over, and answers the first BEGIN with an error of its own, a message for a
-- positive quantity is dead-lettered with no attempt counted.
pub outage_spends_budget :
    (p : Policy) (u : Uuids) (ttl : ℤ) (a : Attempt) (xs ys : List Round) (x : Round)
    (uncounted : ℕ) (db : Db) (code : PgCode)
    → pos 0 <ℤ a.quantity
    → pos 0 <ℤ p.max_elapsed
    → All Unreachable xs
    → x.calls.begin_tx ≡ some (postgres code)
    → p.max_elapsed ≤ℤ x.elapsed
    → (handle p u ttl a (xs ++ (x ∷ ys)) 0 uncounted db).verdict
      ≡ dead_lettered (database (postgres code)) 0
outage_spends_budget p u ttl a [] ys x uncounted db code q pe hs down late =
    let stop : should_retry p (pos 0) x.elapsed ≡ false = unfold should_retry in ground arith in
    rw (round-last p u ttl a x ys 0 uncounted db code q down stop)
outage_spends_budget p u ttl a (y ∷ xs) ys x uncounted db code q pe hs down late =
    rw (round-Unreachable p u ttl a y (xs ++ (x ∷ ys)) 0 uncounted db q hs.0)
      (outage_spends_budget p u ttl a xs ys x (suc uncounted) db code q pe hs.1 down late)
