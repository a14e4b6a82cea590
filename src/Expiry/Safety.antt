-- ===== src/Expiry/Safety.antt =====
-- `ExpireReservation` as a move of the tables, whatever is interrupted.
use flashsale_reservation.Prelude.{ℕ, ◌≡◌, ◌⊎◌, refl, sym, subst, some, inl, inr}
use flashsale_reservation.Prelude.Int.{ℤ}
use flashsale_reservation.Prelude.Text.{Text}
use flashsale_reservation.Prelude.Result.{ok, err}
use flashsale_reservation.Store.{Db, DbError, Uuids, find_reservation}
use flashsale_reservation.Store.Sums.{find_reservation-id}
use flashsale_reservation.Store.Moves.{Move, stay, release}
use flashsale_reservation.Store.Invariant.{Sound}
use flashsale_reservation.Tx.{Commit, done, lost, conclude-Move, conclude_atomic}
use flashsale_reservation.Expiry.{
  Outcome, Error, database, Calls, release_row, transaction, expire_reservation,
}
use flashsale_reservation.Expiry.Effect.{Releases, transaction-cases, released_db}

Releases-Move :
    (u : Uuids) (key : Text) (now : ℤ) (k : ℕ) (db : Db) (res : Outcome × Db)
    → Releases u key now k db res
    → Move db res.1
Releases-Move u key now k db res v =
    let id : v.row.id ≡ k = find_reservation-id k v.row db.reservations v.found in
    let here : find_reservation v.row.id db.reservations ≡ some v.row =
      subst (λ (j : ℕ). find_reservation j db.reservations ≡ some v.row) (sym id) v.found in
    subst (Move db) (sym v.tables) (
      subst (λ (j : ℕ). Move db (released_db j v.row v.item db)) id
        (release v.row v.item here v.reserves v.of_item v.fits))

transaction-Move :
    (u : Uuids) (key : Text) (c : Calls) (db : Db) (res : Outcome × Db)
    → Sound db
    → transaction u key c db ≡ ok res
    → Move db res.1
transaction-Move u key c db res s h =
    let (k, _, cases) = transaction-cases u key c db res s h in
    elim cases [
      | inl (_, e) ↦ subst (λ (r : Outcome × Db). Move db r.1) (sym e) stay
      | inr v ↦ Releases-Move u key c.now k db res v
    ]

-- Whatever id is asked for and wherever the call is cut short, `ExpireReservation` on sound tables
-- leaves them as they were, or turns one reserved row to expired and returns exactly its quantity
-- to the stock of its item, within the item's total.
pub expire_reservation-Move :
    (u : Uuids) (key : Text) (c : Calls) (db : Db)
    → Sound db
    → Move db (expire_reservation u key c db).1
unfolding expire_reservation
expire_reservation-Move u key c db s =
    conclude-Move database c.commit db (transaction u key c db)
      (λ res h. transaction-Move u key c db res s h)

transaction-commit :
    (u : Uuids) (key : Text) (c : Calls) (co : Commit) (db : Db)
    → transaction u key (record c { commit = co }) db ≡ transaction u key c db
unfolding transaction release_row
transaction-commit u key c co db = refl

-- All or nothing: a call that returns an error has left the tables as they were, unless only the
-- answer to its Commit was lost; then they are as if the Commit had been answered.
pub expire_reservation_atomic :
    (u : Uuids) (key : Text) (c : Calls) (db : Db) (e : Error)
    → (expire_reservation u key c db).0 ≡ err e
    → ((expire_reservation u key c db).1 ≡ db)
      ⊎ ((x : DbError) × (c.commit ≡ lost x)
          × (e ≡ database x)
          × ((expire_reservation u key c db).1
              ≡ (expire_reservation u key (record c { commit = done }) db).1))
unfolding expire_reservation
expire_reservation_atomic u key c db e h =
    rw (transaction-commit u key c done db)
      (conclude_atomic database c.commit db (transaction u key c db) e h)
