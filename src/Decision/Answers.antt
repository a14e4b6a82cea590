-- ===== src/Decision/Answers.antt =====
-- internal/decision/processor.go: `ProcessAttempt` answers every uninterrupted call.
use flashsale_reservation.Prelude.{◌≡◌, ◌⊎◌, inl, inr, none, some, Option-cases}
use flashsale_reservation.Prelude.Int.{ℤ}
use flashsale_reservation.Prelude.Result.{ok, err}
use flashsale_reservation.Store.{Db, Uuids, find_reservation}
use flashsale_reservation.Decision.{Attempt, Outcome, Error, Calls, process_attempt}
use flashsale_reservation.Decision.Verdict.{
  Healthy, refusal, process_attempt_total, process_attempt_refuses,
}

-- An uninterrupted call, with a UUID drawn that is new, answers: an attempt that is to be refused, for
-- a quantity that is not positive, an item id that is no UUID, an item that is not there, or a
-- quantity that is no INTEGER, gets just that error and changes nothing; any other gets an outcome.
pub process_attempt_answers :
    (u : Uuids) (a : Attempt) (ttl : ℤ) (c : Calls) (db : Db)
    → Healthy c
    → find_reservation c.new_id db.reservations ≡ none
    → ((e : Error) × (refusal u a db ≡ some e) × (process_attempt u a ttl c db ≡ (err e, db)))
      ⊎ ((out : Outcome) × (refusal u a db ≡ none) × ((process_attempt u a ttl c db).0 ≡ ok out))
process_attempt_answers u a ttl c db h n = elim (Option-cases (refusal u a db)) [
  | inr (e, refused) ↦ inl (e, refused, process_attempt_refuses u a ttl c db e h refused)
  | inl fit ↦ let (out, e) = process_attempt_total u a ttl c db h fit n in inr (out, fit, e)
]
