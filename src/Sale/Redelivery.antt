-- ===== src/Sale/Redelivery.antt =====
-- Redelivery at any later time: what internal/decision and internal/expiry leave of a recorded attempt.
use flashsale_reservation.Prelude.{
  ℕ, ◌≡◌, ◌⊎◌, inl, inr, refl, ◌∙◌, true, some, List, [], ◌∷◌, ◌==◌, ◌&&◌, arith, Bool-cases,
}
use flashsale_reservation.Prelude.Int.{ℤ}
use flashsale_reservation.Prelude.Text.{Text, text_eq, text_eq_iff}
use flashsale_reservation.Prelude.Result.{Result, ok, err}
use flashsale_reservation.Store.{
  Reservation, Status, reserved, expired, Db, Uuids, find_key, find_reservation, set_status,
}
use flashsale_reservation.Store.Moves.{Move, CanAdd, stay, reject, reserve, release}
use flashsale_reservation.Store.Invariant.{Sound, Move-Sound}
use flashsale_reservation.Decision.{Attempt, Outcome, Calls, process_attempt}
use flashsale_reservation.Decision
use flashsale_reservation.Decision.Safety.{process_attempt-Move}
use flashsale_reservation.Decision.Replay.{
  recorded_outcome, process_attempt-replay, process_attempt-Records,
}
use flashsale_reservation.Sale.{Call, step, run, step-Move}

-- The row is still found under the key, with its id. Its status is the same, unless it was reserved
-- and has lapsed.
abbrev pub Survives : ℕ → Text → Reservation → List Reservation → Type 0
Survives i key r rs =
    (r' : Reservation) × (find_key i key rs ≡ some r')
    × (r'.id ≡ r.id)
    × ((r'.status ≡ r.status) ⊎ ((r.status ≡ reserved) × (r'.status ≡ expired)))

added-Survives :
    (i : ℕ) (key : Text) (r new : Reservation) (db : Db)
    → CanAdd new db
    → find_key i key db.reservations ≡ some r
    → Survives i key r (new ∷ db.reservations)
unfolding find_key
added-Survives i key r new db can h =
    elim (Bool-cases ((new.item_id == i) && text_eq new.idempotency_key key)) [
      | inr other ↦ (r, ground arith, refl, inl refl)
      | inl same ↦
          let same_item : new.item_id ≡ i = ground arith in
          let same_key : new.idempotency_key ≡ key =
            ground (arith, (text_eq_iff new.idempotency_key key).0) in
          absurd (cc can.new_key)
    ]

lapsed-Survives :
    (i : ℕ) (key : Text) (r old : Reservation) (k : ℕ) (rs : List Reservation)
    → find_reservation k rs ≡ some old
    → old.status ≡ reserved
    → find_key i key rs ≡ some r
    → Survives i key r (set_status k expired rs)
unfolding find_key set_status find_reservation
lapsed-Survives i key r old k [] f s h = absurd cc
lapsed-Survives i key r old k (x ∷ rs) f s h = elim (Bool-cases (x.id == k)) [
  | inl hit ↦ elim (Bool-cases ((x.item_id == i) && text_eq x.idempotency_key key)) [
    | inl same ↦ (record x { status = expired }, ground arith, ground arith, inr (ground arith))
    | inr other ↦ (r, ground arith, refl, inl refl)
  ]
  | inr miss ↦ elim (Bool-cases ((x.item_id == i) && text_eq x.idempotency_key key)) [
    | inl same ↦ (r, ground arith, refl, inl refl)
    | inr other ↦
        let (r', g, e, t) = lapsed-Survives i key r old k rs (ground arith) s (ground arith) in
        (r', ground arith, e, t)
  ]
]

Move-Survives :
    {db db' : Db}
    → Move db db'
    → (i : ℕ) (key : Text) (r : Reservation) → find_key i key db.reservations ≡ some r
    → Survives i key r db'.reservations
Move-Survives stay i key r h = (r, h, refl, inl refl)
Move-Survives {db} (reject new it s f short can) i key r h = added-Survives i key r new db can h
Move-Survives {db} (reserve new it s f le can) i key r h = added-Survives i key r new db can h
Move-Survives {db} (release old it g s f fits) i key r h =
    lapsed-Survives i key r old old.id db.reservations g s h

run-Survives :
    (u : Uuids) (db : Db) (xs : List Call) (i : ℕ) (key : Text) (r : Reservation)
    → Sound db
    → find_key i key db.reservations ≡ some r
    → Survives i key r (run u db xs).reservations
unfolding run
run-Survives u db [] i key r s h = (r, h, refl, inl refl)
run-Survives u db (x ∷ xs) i key r s h =
    let m = step-Move u db x s in
    let (r', g, e, t) = Move-Survives m i key r h in
    let (r'', g', e', t') = run-Survives u (step u db x) xs i key r' (Move-Sound m s) g in
    (r'', g', e' ∙ e, ground (arith, t, t'))

-- The answers left to a redelivery: an error, or the id that was given, marked as replayed, with the
-- status that was given, or with expired where that was reserved.
abbrev pub SameAnswer : Outcome → Result Decision.Error Outcome → Type 0
SameAnswer out answer =
    ((e : Decision.Error) × (answer ≡ err e))
    ⊎ ((s : Status) × (answer
          ≡ ok (record { reservation_id = out.reservation_id; status = s; replayed = true }))
        × ((s ≡ out.status) ⊎ ((out.status ≡ reserved) × (s ≡ expired))))

recorded-SameAnswer :
    (u : Uuids) (row row' : Reservation) (out : Outcome) (answer : Result Decision.Error Outcome)
    → out.reservation_id ≡ u.show row.id
    → row'.id ≡ row.id
    → out.status ≡ row.status
    → ((row'.status ≡ row.status) ⊎ ((row.status ≡ reserved) × (row'.status ≡ expired)))
    → answer ≡ ok (recorded_outcome u row')
    → SameAnswer out answer
unfolding recorded_outcome
recorded-SameAnswer u row row' out answer rid e rst t h =
    inr (row'.status, rw h (rw e (rw rid refl)), ground arith)

-- An attempt is decided once and for all. Suppose an attempt returned an outcome, on sound tables, and
-- any sequence of attempts and expiries ran after it. A later delivery with the same item and key,
-- whatever else it carries and wherever it is cut short, changes nothing: its answer is an error, or
-- the same reservation, replayed, with the same status unless that was reserved and has expired.
pub redelivery_changes_nothing :
    (u : Uuids) (a a' : Attempt) (ttl ttl' : ℤ) (c c' : Calls) (db : Db) (out : Outcome)
    → (later : List Call) → Sound db
    → (process_attempt u a ttl c db).0 ≡ ok out
    → a'.item_id ≡ a.item_id
    → a'.idempotency_key ≡ a.idempotency_key
    → ((process_attempt u a' ttl' c' (run u (process_attempt u a ttl c db).1 later)).1
        ≡ run u (process_attempt u a ttl c db).1 later)
      × SameAnswer out
          (process_attempt u a' ttl' c' (run u (process_attempt u a ttl c db).1 later)).0
redelivery_changes_nothing u a a' ttl ttl' c c' db out later sound h same_item same_key =
    let db' = (process_attempt u a ttl c db).1 in
    let now = run u db' later in
    let (i, row, p, k, rid, rst) = process_attempt-Records u a ttl c db out h in
    let (row', k', e, t) =
      run-Survives u db' later i a.idempotency_key row
        (Move-Sound (process_attempt-Move u a ttl c db) sound) k in
    let (kept, answer) =
      process_attempt-replay u a' ttl' c' now i row' (rw same_item p) (rw same_key k') in
    (
      kept,
      elim answer [
        | inr failed ↦ inl failed
        | inl replayed ↦ recorded-SameAnswer u row row' out _ rid e rst t replayed
      ],
    )
