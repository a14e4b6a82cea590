-- ===== src/Decision/Effect.antt =====
-- What a call of `ProcessAttempt` has done, by the outcome that its transaction reached.
use mathlib.Core.Option
use flashsale_reservation.Prelude.{
  ℕ, ◌-◌, ◌≡◌, ◌⊎◌, ap, true, false, Option, none, some, List, ◌∷◌, if◌then◌else◌, arith, inl, inr,
  Option-cases, Bool-cases,
}
use flashsale_reservation.Prelude.Int.{ℤ, pos, pos_part, leb_ℤ}
use flashsale_reservation.Prelude.Result.{
  Result, ok, or_fail, interrupt, map_err, >>=-eq-ok, or_fail-eq-ok, map_err-eq-ok,
}
use flashsale_reservation.Store.{
  Item, Reservation, Db, Uuids, find_item, find_key, set_available, insert_reservation,
  decrement_available,
}
use flashsale_reservation.Store.Moves.{CanAdd}
use flashsale_reservation.Decision.{
  Attempt, Outcome, Error, database, Calls, new_row, replay, settle, decide, transaction,
}

-- The INSERT put the row in, which the constraints then admit, or met an earlier row of its key.
abbrev Inserts : Reservation → Db → Option Reservation × List Reservation → Type 0
Inserts r db (none, rows) =
    (old : Reservation) × (find_key r.item_id r.idempotency_key db.reservations ≡ some old)
Inserts r db (some x, rows) = (x ≡ r) × (rows ≡ r ∷ db.reservations) × CanAdd r db

insert-Inserts :
    (r : Reservation) (db : Db) (res : Option Reservation × List Reservation)
    → insert_reservation r db ≡ ok res
    → Inserts r db res
unfolding insert_reservation
insert-Inserts r db (none, rows) h =
    elim (Option-cases (find_key r.item_id r.idempotency_key db.reservations)) [
      | inl free ↦ absurd (ground arith)
      | inr (old, e) ↦ (old, e)
    ]
insert-Inserts r db (some x, rows) h = ground arith

-- The tables once a new attempt is decided: the row in any case, and less stock if reserved.
unfoldable pub recorded : Attempt → ℤ → Calls → ℕ → Item → Db → Db
recorded a ttl c i it db =
    if leb_ℤ a.quantity (pos it.available_inventory)
    then record {
      items = set_available i (it.available_inventory - pos_part a.quantity) db.items;
      reservations = new_row a ttl c i it ∷ db.reservations;
    }
    else record db { reservations = new_row a ttl c i it ∷ db.reservations }

abbrev pub IsReplay : Uuids → Attempt → ℕ → Db → Outcome × Db → Type 0
IsReplay u a i db (out, db') =
    (old : Reservation) × (find_key i a.idempotency_key db.reservations ≡ some old)
    × (out ≡ record { reservation_id = u.show old.id; status = old.status; replayed = true })
    × (db' ≡ db)

abbrev pub IsDecision : Uuids → Attempt → ℤ → Calls → ℕ → Item → Db → Outcome × Db → Type 0
IsDecision u a ttl c i it db (out, db') =
    CanAdd (new_row a ttl c i it) db
    × (out ≡ record {
      reservation_id = u.show c.new_id;
      status = (new_row a ttl c i it).status;
      replayed = false;
    })
    × (db' ≡ recorded a ttl c i it db)

abbrev follow :
    Uuids
    → Attempt
    → Calls
    → ℕ
    → Db
    → Option Reservation × List Reservation
    → Result Error (Outcome × Db)
follow u a c i db (inserted, rows) = elim inserted [
  | none ↦ replay u a c i db
  | some r ↦ settle u a c i r (record db { reservations = rows })
]

-- What `settle` does to the row just inserted.
settle-new_row :
    (u : Uuids) (a : Attempt) (ttl : ℤ) (c : Calls) (i : ℕ) (it : Item) (db : Db)
    (res : Outcome × Db)
    → find_item i db.items ≡ some it
    → settle u a c i
        (new_row a ttl c i it)
        (record db { reservations = new_row a ttl c i it ∷ db.reservations })
      ≡ ok res
    → res ≡ (
      record {
        reservation_id = u.show c.new_id;
        status = (new_row a ttl c i it).status;
        replayed = false;
      },
      recorded a ttl c i it db,
    )
unfolding settle new_row recorded decrement_available
settle-new_row u a ttl c i it db res f h =
    elim (Bool-cases (leb_ℤ a.quantity (pos it.available_inventory))) [
      | inl enough ↦ ground arith
      | inr short ↦ ground arith
    ]

follow-cases :
    (u : Uuids) (a : Attempt) (ttl : ℤ) (c : Calls) (i : ℕ) (it : Item) (db : Db)
    (ins : Option Reservation) (rows : List Reservation) (res : Outcome × Db)
    → find_item i db.items ≡ some it
    → Inserts (new_row a ttl c i it) db (ins, rows)
    → follow u a c i db (ins, rows) ≡ ok res
    → IsReplay u a i db res ⊎ IsDecision u a ttl c i it db res
unfolding replay
follow-cases u a ttl c i it db none rows res f (old, e) h =
    inl (old, unfold new_row in e, unfold new_row in ground arith, unfold new_row in ground arith)
follow-cases u a ttl c i it db (some x) rows res f (same, rest, can) h =
    let e = settle-new_row u a ttl c i it db res f (rw (same, rest) at h) in
    inr (can, ap (λ (p : Outcome × Db). p.0) e, ap (λ (p : Outcome × Db). p.1) e)

-- A transaction that reaches its Commit has replayed an earlier outcome or decided anew.
pub transaction-cases :
    (u : Uuids) (a : Attempt) (ttl : ℤ) (c : Calls) (db : Db) (res : Outcome × Db)
    → transaction u a ttl c db ≡ ok res
    → (i : ℕ) × (it : Item) × (u.parse a.item_id ≡ some i)
      × (find_item i db.items ≡ some it)
      × (IsReplay u a i db res ⊎ IsDecision u a ttl c i it db res)
unfolding transaction decide
transaction-cases u a ttl c db res h =
    let (_, _, h1) = >>=-eq-ok (interrupt (Option.map database c.begin_tx)) _ h in
    let (_, _, h2) = >>=-eq-ok (interrupt (Option.map database c.lock_item)) _ h1 in
    let (i, ei, h3) = >>=-eq-ok (or_fail (u.parse a.item_id) _) _ h2 in
    let (it, ef, h4) = >>=-eq-ok (or_fail (find_item i db.items) _) _ h3 in
    let (_, _, h5) = >>=-eq-ok (interrupt (Option.map database c.insert)) _ h4 in
    let ((ins, rows), es, h6) =
      >>=-eq-ok (map_err database (insert_reservation (new_row a ttl c i it) db)) _ h5 in
    let f = or_fail-eq-ok (find_item i db.items) _ ef in
    (
      i,
      it,
      or_fail-eq-ok (u.parse a.item_id) _ ei,
      f,
      follow-cases u a ttl c i it db ins rows res f
          (insert-Inserts (new_row a ttl c i it) db (ins, rows)
            (map_err-eq-ok database (insert_reservation (new_row a ttl c i it) db) es))
          h6,
    )
