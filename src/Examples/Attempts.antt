-- ===== src/Examples/Attempts.antt =====
-- Runs of internal/decision, and of attempts and expiries together.
use flashsale_reservation.Prelude.{
  ◌≤◌, ◌+◌, ◌≡◌, ◌⊎◌, refl, false, none, some, List, [], ◌∷◌, arith,
}
use flashsale_reservation.Prelude.Int.{pos}
use flashsale_reservation.Prelude.Text.{codes}
use flashsale_reservation.Prelude.Result.{ok, err}
use flashsale_reservation.Store.{
  reserved, driver, find_item, find_reservation, find_key, insert_reservation, decrement_available,
  set_available,
}
use flashsale_reservation.Store.Sums.{held, stock}
use flashsale_reservation.Store.Sums.{stock}
use flashsale_reservation.Store.Invariant.{Sound}
use flashsale_reservation.Tx.{lost, conclude}
use flashsale_reservation.Decision.{
  Attempt, Error, Outcome, process_attempt, item_not_found, invalid_quantity, database, decide,
  settle, new_row,
}
use flashsale_reservation.Decision
use flashsale_reservation.Sale.Restart.{
  Delivery, deliver, IsDecided, second_reading_changes_nothing,
}
use flashsale_reservation.Sale.Redelivery.{SameAnswer, redelivery_changes_nothing}
use flashsale_reservation.Decision.Verdict.{Healthy, refusal, process_attempt_verdict}
use flashsale_reservation.Sale.Ledger.{Entries, ledger_of, run_keeps_ledger}
use flashsale_reservation.Decision.Answers.{process_attempt_answers}
use flashsale_reservation.Sale.{Call, attempts, expires, run, run_never_oversells}
use flashsale_reservation.Examples.Data.{
  uuids, phone, full, full-Sound, part, part-Sound, row_id, order, calm, late,
}

calm-Healthy : Healthy calm
calm-Healthy = record {
  begins = refl;
  locks = refl;
  inserts = refl;
  looks_up = refl;
  updates = refl;
  commits = refl;
}

-- A second order that asks for too much, a redelivery of the first, and two expiries.
abbrev day : List Call
day =
    attempts (record order { idempotency_key = codes "k2"; quantity = pos 4 }) (pos 60)
      (record calm { new_id = 2 })
    ∷ attempts order (pos 60) calm
    ∷ expires row_id late
    ∷ expires row_id late
    ∷ []

run_never_oversells_example :
    (held 7 (run uuids part day).reservations ≤ 5)
    × (stock 7 (run uuids part day) ≡ stock 7 part)
    × Sound (run uuids part day)
unfolding find_item
run_never_oversells_example =
    run_never_oversells uuids part day 7 (record phone { available_inventory = 3 }) part-Sound refl

process_attempt_verdict_example :
    let db' = (process_attempt uuids order (pos 60) calm full).1 in
    ((process_attempt uuids order (pos 60) calm full).0
      ≡ ok (record { reservation_id = row_id; status = reserved; replayed = false }))
    × (find_item 7 db'.items ≡ some (record phone { available_inventory = 3 }))
    × (held 7 db'.reservations ≡ held 7 full.reservations + 2)
    × (find_item 8 db'.items ≡ find_item 8 full.items)
unfolding find_item find_key find_reservation
process_attempt_verdict_example =
    process_attempt_verdict uuids order (pos 60) calm full 7 phone calm-Healthy refl refl
      (omega arith) (omega arith) 8 (λ e. absurd (omega (arith, e))) refl refl

first_outcome :
    (process_attempt uuids order (pos 60) calm full).0
    ≡ ok (record { reservation_id = row_id; status = reserved; replayed = false })
unfolding process_attempt Decision.transaction decide settle new_row insert_reservation
    decrement_available set_available conclude find_item find_key find_reservation
first_outcome = refl

redelivery_changes_nothing_example :
    ((process_attempt uuids order
        (pos 60)
        calm
        (run uuids (process_attempt uuids order (pos 60) calm full).1 (expires row_id late ∷ []))).1
      ≡ run uuids (process_attempt uuids order (pos 60) calm full).1 (expires row_id late ∷ []))
    × SameAnswer
        (record { reservation_id = row_id; status = reserved; replayed = false })
        (process_attempt uuids order (pos 60) calm (
          run uuids
            (process_attempt uuids order (pos 60) calm full).1
            (expires row_id late ∷ []))).0
redelivery_changes_nothing_example =
    redelivery_changes_nothing uuids order order (pos 60) (pos 60) calm calm full
      (record { reservation_id = row_id; status = reserved; replayed = false })
      (expires row_id late ∷ []) full-Sound first_outcome refl refl

-- The consumer starts again from the first offset, and its first delivery is cut short.
abbrev again : List Delivery
again =
    record { attempt = order; ttl = pos 60; calls = record calm { commit = lost driver } }
    ∷ record { attempt = order; ttl = pos 60; calls = calm }
    ∷ []

order-IsDecided :
    IsDecided uuids full (attempts order (pos 60) calm ∷ expires row_id late ∷ []) order
order-IsDecided = (
  [],
  record { attempt = order; ttl = pos 60; calls = calm },
  expires row_id late ∷ [],
  record { reservation_id = row_id; status = reserved; replayed = false },
  refl,
  (unfold run in first_outcome),
  refl,
  refl,
)

second_reading_changes_nothing_example :
    let xs = attempts order (pos 60) calm ∷ expires row_id late ∷ [] in
    run uuids (run uuids full xs) (deliver again) ≡ run uuids full xs
second_reading_changes_nothing_example =
    second_reading_changes_nothing uuids full
      (attempts order (pos 60) calm ∷ expires row_id late ∷ []) again full-Sound
      (order-IsDecided, (order-IsDecided, tt))

process_attempt_answers_example :
    let big = record order { quantity = pos 3000000000 } in
    ((e : Error) × (refusal uuids big full ≡ some e)
      × (process_attempt uuids big (pos 60) calm full ≡ (err e, full)))
    ⊎ ((out : Outcome) × (refusal uuids big full ≡ none)
        × ((process_attempt uuids big (pos 60) calm full).0 ≡ ok out))
unfolding find_reservation
process_attempt_answers_example =
    process_attempt_answers uuids (record order { quantity = pos 3000000000 }) (pos 60) calm full
      calm-Healthy refl

run_keeps_ledger_example : Entries 4 (ledger_of part) (ledger_of (run uuids part day))
run_keeps_ledger_example = run_keeps_ledger uuids part day part-Sound
