-- ===== src/Consumer.antt =====
-- cmd/decision-service/main.go: the consume loop, its retries and its dead letters.
pub mod Retries
pub mod Safety
pub mod Loop
pub mod Order
use flashsale_reservation.Prelude.{
  ℕ, zero, suc, ◌+◌, ◌-◌, ◌*◌, ◌≡◌, refl, Bool, true, false, Option, none, some, List, [], ◌∷◌,
  ◌++◌, if◌then◌else◌,
}
use flashsale_reservation.Prelude.Int.{ℤ, pos, negsuc, ltb_ℤ, int64}
use flashsale_reservation.Prelude.Text.{Text}
use flashsale_reservation.Prelude.Result.{Result, ok, err}
use flashsale_reservation.Store.{Db, DbError, driver, postgres, Uuids}
use flashsale_reservation.Decision.{
  Attempt, Outcome, Error, item_not_found, invalid_quantity, database, Calls, process_attempt,
}
use flashsale_reservation.Retry.{Policy, default_policy, second, should_retry, next_backoff}
use flashsale_reservation.Env.{in_seconds}
use flashsale_reservation.Kafka.{
  PurchaseAttempted, DeadLetter, Codec, Delivery, Record, decode_attempt, publish_dead_letter,
}
use flashsale_reservation.Kafka

-- The overrides in `main`, from the two environment variables.
unfoldable pub service_policy : ℤ → ℤ → Policy
service_policy max_retries max_elapsed_seconds =
    let p =
      if ltb_ℤ (pos 0) max_retries
      then record default_policy { max_attempts = max_retries }
      else default_policy in
    if ltb_ℤ (pos 0) max_elapsed_seconds
    then record p { max_elapsed = in_seconds max_elapsed_seconds }
    else p

pub data Action : Type 0 where
  commit dead_letter retry_uncounted retry_counted : Action

-- `isConnectivityError` holds of an error with no `*pq.Error` in it, which is `driver` here.
abbrev by_policy : Bool → Action
by_policy true = retry_counted
by_policy false = dead_letter

unfoldable pub classify_outcome : Option Error → Policy → ℤ → ℤ → Action
classify_outcome none p n t = commit
classify_outcome (some item_not_found) p n t = dead_letter
classify_outcome (some invalid_quantity) p n t = dead_letter
classify_outcome (some (database driver)) p n t = retry_uncounted
classify_outcome (some (database (postgres code))) p n t = by_policy (should_retry p n t)

-- One round of the inner loop meets: what the call of `ProcessAttempt` meets, the time since the
-- first round began, and whether `sleepOrDone` slept to the end or the service is shutting down.
pub record Round : Type 0 where
  pub calls : Calls
  pub elapsed : ℤ
  pub slept : Bool

-- How the inner loop leaves a message. `waiting`: it has not left it after the rounds given.
pub data Verdict : Type 0 where
  committed : Outcome → Verdict
  dead_lettered : Error → ℕ → Verdict
  shut_down waiting : Verdict

pub record Handled : Type 0 where
  pub verdict : Verdict
  pub backoffs : List ℤ
  pub db : Db

abbrev pub leave : Verdict → Db → Handled
leave v db = record { verdict = v; backoffs = []; db = db }

-- What the switch on the classified outcome says to do: leave the message, or back off and go
-- round again with these counts.
pub data Next : Type 0 where
  leaves : Verdict → Next
  retries : ℕ → ℕ → ℤ → Next

-- The four cases of the switch; `commit` is never the class of an error.
abbrev pub switch : Policy → ℕ → ℕ → Error → Action → Next
switch p counted uncounted e commit = leaves waiting
switch p counted uncounted e dead_letter = leaves (dead_lettered e counted)
switch p counted uncounted e retry_uncounted =
    retries counted (suc uncounted) (next_backoff p (pos (suc uncounted)))
switch p counted uncounted e retry_counted =
    retries (suc counted) uncounted (next_backoff p (pos (suc counted)))

unfoldable pub next_round : Policy → ℕ → ℕ → ℤ → Result Error Outcome → Next
next_round p counted uncounted elapsed (ok out) = leaves (committed out)
next_round p counted uncounted elapsed (err e) =
    switch p counted uncounted e (classify_outcome (some e) p (pos counted) elapsed)

-- `sleepOrDone` with the backoff, then the rest of the loop unless the service shuts down in it.
abbrev pub pause : Bool → ℤ → Handled → Db → Handled
pause true b rest db = record rest { backoffs = b ∷ rest.backoffs }
pause false b rest db = record { verdict = shut_down; backoffs = b ∷ []; db = db }

abbrev pub proceed : Next → Bool → (ℕ → ℕ → Handled) → Db → Handled
proceed (leaves v) slept rest db = leave v db
proceed (retries counted uncounted b) slept rest db = pause slept b (rest counted uncounted) db

-- The inner loop over its rounds, with the counted attempts and the uncounted retries so far.
unfoldable pub handle : Policy → Uuids → ℤ → Attempt → List Round → ℕ → ℕ → Db → Handled
handle p u ttl a [] counted uncounted db = leave waiting db
handle p u ttl a (x ∷ xs) counted uncounted db =
    let (res, db') = process_attempt u a ttl x.calls db in
    proceed (next_round p counted uncounted x.elapsed res) x.slept
      (λ c n. handle p u ttl a xs c n db') db'
