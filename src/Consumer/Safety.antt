-- ===== src/Consumer/Safety.antt =====
-- What handling one message keeps of the tables, and which messages it gives up.
use flashsale_reservation.Prelude.{
  ℕ, ◌≤◌, ◌<◌, ◌≡◌, ◌≢◌, refl, Bool, true, false, List, [], ◌∷◌, arith, ◌∙◌,
}
use flashsale_reservation.Prelude.Int.{ℤ, pos}
use flashsale_reservation.Prelude.Result.{Result, ok, err}
use flashsale_reservation.Store.{Db, driver, postgres, Uuids}
use flashsale_reservation.Store.Sums.{stock}
use flashsale_reservation.Store.Moves.{Move-stock}
use flashsale_reservation.Store.Invariant.{Sound, Move-Sound}
use flashsale_reservation.Decision.{
  Attempt, Outcome, Error, item_not_found, invalid_quantity, database, process_attempt,
}
use flashsale_reservation.Decision.Safety.{process_attempt-Move}
use flashsale_reservation.Retry.{Policy, should_retry}
use flashsale_reservation.Consumer.{
  classify_outcome, Round, Verdict, committed, dead_lettered, shut_down, waiting, Handled, handle,
  Next, leaves, retries, next_round, proceed,
}

proceed-keeps :
    (P : Db → Type 0) (n : Next) (slept : Bool) (rest : ℕ → ℕ → Handled) (db : Db)
    → P db
    → ((c k : ℕ) → P (rest c k).db)
    → P (proceed n slept rest db).db
proceed-keeps P (leaves v) slept rest db h more = h
proceed-keeps P (retries c k b) true rest db h more = more c k
proceed-keeps P (retries c k b) false rest db h more = h

-- Handling a message, through any number of failed and repeated calls, keeps the invariant of the
-- tables and, of every item `i`, the sum of the units on hand and the units held.
pub handle-Sound :
    (p : Policy) (u : Uuids) (ttl : ℤ) (a : Attempt) (xs : List Round) (counted uncounted : ℕ)
    (db : Db) (i : ℕ)
    → Sound db
    → Sound (handle p u ttl a xs counted uncounted db).db
      × (stock i (handle p u ttl a xs counted uncounted db).db ≡ stock i db)
unfolding handle
handle-Sound p u ttl a [] counted uncounted db i s = (s, refl)
handle-Sound p u ttl a (x ∷ xs) counted uncounted db i s =
    let m = process_attempt-Move u a ttl x.calls db in
    let db' = (process_attempt u a ttl x.calls db).1 in
    proceed-keeps (λ d. Sound d × (stock i d ≡ stock i db)) _ x.slept
      (λ c n. handle p u ttl a xs c n db') db' (Move-Sound m s, Move-stock i m)
      (λ c n.
        let (sound, same) = handle-Sound p u ttl a xs c n db' i (Move-Sound m s) in
        (sound, same ∙ Move-stock i m))

-- The verdicts that a property covers, whatever the rounds are.
module _ (V : Verdict → Type 0) where
  proceed-verdict :
      (n : Next) (slept : Bool) (rest : ℕ → ℕ → Handled) (db : Db)
      → V shut_down
      → ((v : Verdict) → n ≡ leaves v → V v)
      → ((c k : ℕ) (b : ℤ) → n ≡ retries c k b → V (rest c k).verdict)
      → V (proceed n slept rest db).verdict
  proceed-verdict (leaves v) slept rest db down here more = here v refl
  proceed-verdict (retries c k b) true rest db down here more = more c k b refl
  proceed-verdict (retries c k b) false rest db down here more = down

-- A dead letter's cause is the message's own or an answer of Postgres, and the counted attempts
-- before it are within the cap.
abbrev pub IsFair : ℕ → Verdict → Type 0
IsFair m (dead_lettered e n) = (e ≢ database driver) × (n ≤ m)
IsFair m _ = Unit {0}

next-dead :
    (p : Policy) (counted uncounted n : ℕ) (t : ℤ) (res : Result Error Outcome) (e : Error)
    → next_round p counted uncounted t res ≡ leaves (dead_lettered e n)
    → (e ≢ database driver) × (n ≡ counted)
unfolding next_round classify_outcome
next-dead p counted uncounted n t (ok out) e h = absurd (ground arith)
next-dead p counted uncounted n t (err item_not_found) e h = ground arith
next-dead p counted uncounted n t (err invalid_quantity) e h = ground arith
next-dead p counted uncounted n t (err (database driver)) e h = absurd (ground arith)
next-dead p counted uncounted n t (err (database (postgres code))) e h = ground arith

next-IsFair :
    (p : Policy) (counted uncounted m : ℕ) (t : ℤ) (res : Result Error Outcome) (v : Verdict)
    → counted ≤ m
    → next_round p counted uncounted t res ≡ leaves v
    → IsFair m v
next-IsFair p counted uncounted m t res (committed out) le h = tt
next-IsFair p counted uncounted m t res (dead_lettered e n) le h =
    let (cause, same) = next-dead p counted uncounted n t res e h in (cause, rw same le)
next-IsFair p counted uncounted m t res shut_down le h = tt
next-IsFair p counted uncounted m t res waiting le h = tt

-- Only a retry that the policy allows counts.
next-counted :
    (p : Policy) (counted uncounted m c k : ℕ) (t b : ℤ) (res : Result Error Outcome)
    → p.max_attempts ≡ pos m
    → 0 < m
    → counted ≤ m
    → next_round p counted uncounted t res ≡ retries c k b
    → c ≤ m
unfolding next_round classify_outcome should_retry
next-counted p counted uncounted m c k t b (ok out) em pm le h = absurd (ground arith)
next-counted p counted uncounted m c k t b (err item_not_found) em pm le h = absurd (ground arith)
next-counted p counted uncounted m c k t b (err invalid_quantity) em pm le h = absurd (ground arith)
next-counted p counted uncounted m c k t b (err (database driver)) em pm le h = ground arith
next-counted p counted uncounted m c k t b (err (database (postgres code))) em pm le h =
    ground arith

-- With a positive `MaxAttempts`, a message is never given up for an outage: whatever happens round
-- after round, the cause of a dead letter is not a failure to reach Postgres, and it reports at
-- most `MaxAttempts` attempts, if the count starts within them.
pub handle-IsFair :
    (p : Policy) (u : Uuids) (ttl : ℤ) (a : Attempt) (xs : List Round) (counted uncounted m : ℕ)
    (db : Db)
    → p.max_attempts ≡ pos m
    → 0 < m
    → counted ≤ m
    → IsFair m (handle p u ttl a xs counted uncounted db).verdict
unfolding handle
handle-IsFair p u ttl a [] counted uncounted m db em pm le = tt
handle-IsFair p u ttl a (x ∷ xs) counted uncounted m db em pm le =
    let res = (process_attempt u a ttl x.calls db).0 in
    let db' = (process_attempt u a ttl x.calls db).1 in
    proceed-verdict (IsFair m) (next_round p counted uncounted x.elapsed res) x.slept
      (λ c n. handle p u ttl a xs c n db') db' tt
      (λ v. next-IsFair p counted uncounted m x.elapsed res v le)
      (λ c k b h.
        handle-IsFair p u ttl a xs c k m db' em pm
          (next-counted p counted uncounted m c k x.elapsed b res em pm le h))
