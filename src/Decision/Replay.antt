-- ===== src/Decision/Replay.antt =====
-- Redelivery: a key that is recorded is never decided again.
use flashsale_reservation.Prelude.{ℕ, ◌≡◌, refl, subst, true, some, arith, inl, inr, Bool-cases}
use flashsale_reservation.Prelude.Int.{ℤ, pos, leb_ℤ}
use flashsale_reservation.Prelude.Text.{text_eq_self}
use flashsale_reservation.Prelude.Result.{ok}
use flashsale_reservation.Store.{Item, Reservation, Db, Uuids, find_key}
use flashsale_reservation.Tx.{conclude-ok, Answers, conclude-Answers}
use flashsale_reservation.Decision.{
  Attempt, Outcome, invalid_quantity, database, Calls, new_row, transaction, process_attempt,
}
use flashsale_reservation.Decision.Effect.{recorded, transaction-cases}

-- The transaction of an attempt whose key is recorded can only read the earlier outcome back.
replay_transaction :
    (u : Uuids) (a : Attempt) (ttl : ℤ) (c : Calls) (db : Db) (i : ℕ) (old : Reservation)
    (res : Outcome × Db)
    → u.parse a.item_id ≡ some i
    → find_key i a.idempotency_key db.reservations ≡ some old
    → transaction u a ttl c db ≡ ok res
    → (res.0 ≡ record { reservation_id = u.show old.id; status = old.status; replayed = true })
      × (res.1 ≡ db)
replay_transaction u a ttl c db i old res p k h =
    let (j, it, q, f, cases) = transaction-cases u a ttl c db res h in
    elim cases [
      | inl (row, k', e, same) ↦ ground arith
      | inr (can, _, _) ↦ absurd (unfold new_row in ground (arith, can.new_key))
    ]

-- The outcome that a recorded row stands for, as a redelivery reports it.
unfoldable pub recorded_outcome : Uuids → Reservation → Outcome
recorded_outcome u r = record { reservation_id = u.show r.id; status = r.status; replayed = true }

-- An attempt whose item and key are already recorded changes nothing, wherever its call is cut
-- short, and it returns an error or the id and the status of the recorded row, marked as replayed.
pub process_attempt-replay :
    (u : Uuids) (a : Attempt) (ttl : ℤ) (c : Calls) (db : Db) (i : ℕ) (old : Reservation)
    → u.parse a.item_id ≡ some i
    → find_key i a.idempotency_key db.reservations ≡ some old
    → Answers (recorded_outcome u old) db (process_attempt u a ttl c db)
unfolding process_attempt
process_attempt-replay u a ttl c db i old p k = elim (Bool-cases (leb_ℤ a.quantity (pos 0))) [
  | inl bad ↦ rw bad (refl, inr (invalid_quantity, refl))
  | inr good ↦ rw good (
      conclude-Answers database (recorded_outcome u old) c.commit db (transaction u a ttl c db)
        (λ res. unfold recorded_outcome in replay_transaction u a ttl c db i old res p k))
]

-- The row that an outcome is about.
abbrev pub Records : Uuids → Attempt → Outcome → Db → Type 0
Records u a out db =
    (i : ℕ) × (row : Reservation) × (u.parse a.item_id ≡ some i)
    × (find_key i a.idempotency_key db.reservations ≡ some row)
    × (out.reservation_id ≡ u.show row.id)
    × (out.status ≡ row.status)

recorded-find_key :
    (a : Attempt) (ttl : ℤ) (c : Calls) (i : ℕ) (it : Item) (db : Db)
    → find_key i a.idempotency_key (recorded a ttl c i it db).reservations
      ≡ some (new_row a ttl c i it)
unfolding recorded find_key new_row
recorded-find_key a ttl c i it db = ground (arith, text_eq_self a.idempotency_key)

transaction-Records :
    (u : Uuids) (a : Attempt) (ttl : ℤ) (c : Calls) (db : Db) (res : Outcome × Db)
    → transaction u a ttl c db ≡ ok res
    → Records u a res.0 res.1
transaction-Records u a ttl c db res h =
    let (i, it, p, f, cases) = transaction-cases u a ttl c db res h in
    elim cases [
      | inl (old, k, e, same) ↦ (i, old, p, rw same k, rw e, rw e)
      | inr (can, e, same) ↦ (
        i,
        new_row a ttl c i it,
        p,
        rw same (recorded-find_key a ttl c i it db),
        rw e (unfold new_row in refl),
        rw e,
      )
    ]

pub process_attempt-Records :
    (u : Uuids) (a : Attempt) (ttl : ℤ) (c : Calls) (db : Db) (out : Outcome)
    → (process_attempt u a ttl c db).0 ≡ ok out
    → Records u a out (process_attempt u a ttl c db).1
unfolding process_attempt
process_attempt-Records u a ttl c db out h = elim (Bool-cases (leb_ℤ a.quantity (pos 0))) [
  | inl bad ↦ absurd (ground arith)
  | inr good ↦ rw good (
      transaction-Records u a ttl c db _
        (conclude-ok database c.commit db (transaction u a ttl c db) out (rw good at h)))
]

-- Processing is idempotent: after a call has returned an outcome, any delivery with the same item
-- and key, whatever else it carries, changes nothing, and returns that outcome marked as replayed
-- or an error.
process_attempt_idempotent :
    (u : Uuids) (a a' : Attempt) (ttl ttl' : ℤ) (c c' : Calls) (db : Db) (out : Outcome)
    → (process_attempt u a ttl c db).0 ≡ ok out
    → a'.item_id ≡ a.item_id
    → a'.idempotency_key ≡ a.idempotency_key
    → Answers
        (record out { replayed = true })
        (process_attempt u a ttl c db).1
        (process_attempt u a' ttl' c' (process_attempt u a ttl c db).1)
process_attempt_idempotent u a a' ttl ttl' c c' db out h same_item same_key =
    let db' = (process_attempt u a ttl c db).1 in
    let (i, row, p, k, rid, rst) = process_attempt-Records u a ttl c db out h in
    let e : recorded_outcome u row ≡ record out { replayed = true } =
      unfold recorded_outcome in ground arith in
    subst (λ (o : Outcome). Answers o db' (process_attempt u a' ttl' c' db')) e
      (process_attempt-replay u a' ttl' c' db' i row (rw same_item p) (rw same_key k))
