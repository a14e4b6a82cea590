-- ===== src/Decision/Safety.antt =====
-- `ProcessAttempt` as a move of the tables, whatever is interrupted.
use flashsale_reservation.Prelude.{
  ℕ, ◌-◌, ◌≤◌, ◌<◌, ◌≡◌, ◌⊎◌, refl, sym, subst, true, false, some, ◌∷◌, arith, inl, inr, Bool-cases,
}
use flashsale_reservation.Prelude.Int.{ℤ, pos, leb_ℤ}
use flashsale_reservation.Prelude.Result.{ok, err}
use flashsale_reservation.Store.{
  Item, reserved, rejected, Db, DbError, Uuids, find_item, set_available,
}
use flashsale_reservation.Store.Moves.{CanAdd, Move, stay, reject, reserve}
use flashsale_reservation.Tx.{Commit, done, lost, conclude-Move, conclude_atomic}
use flashsale_reservation.Decision.{
  Attempt, Outcome, Error, database, Calls, new_row, replay, settle, decide, transaction,
  process_attempt,
}
use flashsale_reservation.Decision.Effect.{recorded, transaction-cases}

module _ (a : Attempt) (ttl : ℤ) (c : Calls) (i : ℕ) (it : Item) (db : Db) where
  recorded-reserved :
      leb_ℤ a.quantity (pos it.available_inventory) ≡ true
      → let r = new_row a ttl c i it in
        (recorded a ttl c i it db ≡ record {
          items = set_available r.item_id (it.available_inventory - r.quantity) db.items;
          reservations = r ∷ db.reservations;
        })
        × (r.status ≡ reserved)
        × (r.quantity ≤ it.available_inventory)
  unfolding recorded new_row
  recorded-reserved enough = ground arith

  recorded-rejected :
      leb_ℤ a.quantity (pos it.available_inventory) ≡ false
      → let r = new_row a ttl c i it in
        (recorded a ttl c i it db ≡ record db { reservations = r ∷ db.reservations })
        × (r.status ≡ rejected)
        × (it.available_inventory < r.quantity)
  unfolding recorded new_row
  recorded-rejected short = ground arith

  recorded-Move :
      find_item i db.items ≡ some it
      → CanAdd (new_row a ttl c i it) db
      → Move db (recorded a ttl c i it db)
  recorded-Move f can = elim (Bool-cases (leb_ℤ a.quantity (pos it.available_inventory))) [
    | inl enough ↦
        let (e, s, le) = recorded-reserved enough in
        subst (Move db) (sym e) (reserve (new_row a ttl c i it) it s (unfold new_row in f) le can)
    | inr short ↦
        let (e, s, lt) = recorded-rejected short in
        subst (Move db) (sym e) (reject (new_row a ttl c i it) it s (unfold new_row in f) lt can)
  ]

transaction-Move :
    (u : Uuids) (a : Attempt) (ttl : ℤ) (c : Calls) (db : Db) (res : Outcome × Db)
    → transaction u a ttl c db ≡ ok res
    → Move db res.1
transaction-Move u a ttl c db res h =
    let (i, it, _, f, cases) = transaction-cases u a ttl c db res h in
    elim cases [
      | inl (old, _, _, e) ↦ subst (Move db) (sym e) stay
      | inr (can, _, e) ↦ subst (Move db) (sym e) (recorded-Move a ttl c i it db f can)
    ]

-- Whatever is asked and wherever the call is cut short, `ProcessAttempt` leaves the tables as they
-- were, adds one rejected row for an item with too little stock, or adds one reserved row and takes
-- its quantity from stock that covers it; the key of a row added was free.
pub process_attempt-Move :
    (u : Uuids) (a : Attempt) (ttl : ℤ) (c : Calls) (db : Db)
    → Move db (process_attempt u a ttl c db).1
unfolding process_attempt
process_attempt-Move u a ttl c db = elim (Bool-cases (leb_ℤ a.quantity (pos 0))) [
  | inl bad ↦ rw bad stay
  | inr good ↦ rw good (
      conclude-Move database c.commit db (transaction u a ttl c db) (transaction-Move u a ttl c db))
]

-- The body of the transaction is the same, however its Commit will end.
transaction-commit :
    (u : Uuids) (a : Attempt) (ttl : ℤ) (c : Calls) (co : Commit) (db : Db)
    → transaction u a ttl (record c { commit = co }) db ≡ transaction u a ttl c db
unfolding transaction decide replay settle new_row
transaction-commit u a ttl c co db = refl

-- All or nothing: a call that returns an error has left the tables as they were, unless only the
-- answer to its Commit was lost; then they are as if the Commit had been answered.
process_attempt_atomic :
    (u : Uuids) (a : Attempt) (ttl : ℤ) (c : Calls) (db : Db) (e : Error)
    → (process_attempt u a ttl c db).0 ≡ err e
    → ((process_attempt u a ttl c db).1 ≡ db)
      ⊎ ((x : DbError) × (c.commit ≡ lost x)
          × (e ≡ database x)
          × ((process_attempt u a ttl c db).1
              ≡ (process_attempt u a ttl (record c { commit = done }) db).1))
unfolding process_attempt
process_attempt_atomic u a ttl c db e h = elim (Bool-cases (leb_ℤ a.quantity (pos 0))) [
  | inl bad ↦ inl (rw bad)
  | inr good ↦
      rw (good, transaction-commit u a ttl c done db)
        (conclude_atomic database c.commit db (transaction u a ttl c db) e (rw good at h))
]
