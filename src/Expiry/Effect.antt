-- ===== src/Expiry/Effect.antt =====
-- What the transaction of `ExpireReservation` has done when it reaches its Commit.
use flashsale_reservation.Prelude.{
  ℕ, ◌+◌, ◌≤◌, ◌≡◌, ◌≢◌, ◌⊎◌, subst, true, none, some, List, [], ◌∷◌, arith, inl, inr, Option-cases,
  Bool-cases, ◌==◌,
}
use mathlib.Core.Option
use flashsale_reservation.Prelude.Int.{ℤ}
use flashsale_reservation.Prelude.Text.{Text}
use flashsale_reservation.Prelude.Result.{ok, or_fail, interrupt, >>=-eq-ok, or_fail-eq-ok}
use flashsale_reservation.Store.{
  Item, Reservation, reserved, expired, Db, Uuids, max_int4, find_item, find_reservation,
  set_available, set_status, increment_available,
}
use flashsale_reservation.Store.Sums.{held}
use flashsale_reservation.Store.Invariant.{Sound, Backed}
use flashsale_reservation.Expiry.{
  Outcome, database, Calls, expire_row, nothing_released, release_row, transaction, is_due,
}

find_item-Backed :
    (k : ℕ) (items : List Item) (rs : List Reservation) (r : Reservation)
    → Backed items rs
    → find_reservation k rs ≡ some r
    → find_item r.item_id items ≢ none
unfolding find_reservation
find_item-Backed k items [] r b h = cc
find_item-Backed k items (x ∷ rs) r b h = elim (Bool-cases (x.id == k)) [
  | inl hit ↦
      let e : x ≡ r = ground arith in
      subst (λ (y : Reservation). find_item y.item_id items ≢ none) e b.0
  | inr miss ↦ find_item-Backed k items rs r b.1 (ground arith)
]

quantity-le-held :
    (k : ℕ) (rs : List Reservation) (r : Reservation)
    → find_reservation k rs ≡ some r
    → r.status ≡ reserved
    → r.quantity ≤ held r.item_id rs
unfolding find_reservation
quantity-le-held k [] r h s = cc
quantity-le-held k (x ∷ rs) r h s = ground (arith, quantity-le-held k rs r)

-- The row of a reserved reservation has an item, and room in it for the quantity.
room :
    (db : Db) (k : ℕ) (r : Reservation)
    → Sound db
    → find_reservation k db.reservations ≡ some r
    → r.status ≡ reserved
    → (it : Item) × (find_item r.item_id db.items ≡ some it)
      × (it.available_inventory + r.quantity ≤ it.total_inventory)
      × (it.total_inventory ≤ max_int4)
room db k r s h st = elim (Option-cases (find_item r.item_id db.items)) [
  | inl missing ↦ absurd (find_item-Backed k db.items db.reservations r s.backed h missing)
  | inr (it, f) ↦ (
    it,
    f,
    omega (arith, s.funded r.item_id it f, quantity-le-held k db.reservations r h st),
    (s.funded r.item_id it f).ranged,
  )
]

pub expire_row-cases :
    (now : ℤ) (k : ℕ) (rs : List Reservation) {r : Reservation} {rows : List Reservation}
    → expire_row now k rs ≡ some (r, rows)
    → (find_reservation k rs ≡ some r)
      × (r.status ≡ reserved)
      × (is_due now r ≡ true)
      × (rows ≡ set_status k expired rs)
unfolding expire_row
expire_row-cases now k rs {r} h = elim (Option-cases (find_reservation k rs)) [
  | inl missing ↦ absurd (ground arith)
  | inr (x, e) ↦ ground arith
]

-- In a sound database the release of a due row meets no constraint.
pub increment-fits :
    (db : Db) (k : ℕ) (r : Reservation)
    → Sound db
    → find_reservation k db.reservations ≡ some r
    → r.status ≡ reserved
    → (it : Item) × (find_item r.item_id db.items ≡ some it)
      × (it.available_inventory + r.quantity ≤ it.total_inventory)
      × (increment_available r.quantity r.item_id db.items
          ≡ ok (set_available r.item_id (it.available_inventory + r.quantity) db.items))
unfolding increment_available
increment-fits db k r s h st =
    let (it, f, fits, range) = room db k r s h st in (it, f, fits, ground arith)

-- What the caller learns of a release, and the tables after it.
abbrev pub released_outcome : Uuids → Text → Reservation → Outcome
released_outcome u key r = record {
  reservation_id = key;
  item_id = u.show r.item_id;
  quantity = r.quantity;
  released = true;
}

abbrev pub released_db : ℕ → Reservation → Item → Db → Db
released_db k r it db = record {
  items = set_available r.item_id (it.available_inventory + r.quantity) db.items;
  reservations = set_status k expired db.reservations;
}

-- The transaction released the row of a due reservation, and put its quantity back.
pub record Releases (u : Uuids) (key : Text) (now : ℤ) (k : ℕ) (db : Db) (res : Outcome × Db)
    : Type 0 where
  pub row : Reservation
  pub item : Item
  pub found : find_reservation k db.reservations ≡ some row
  pub reserves : row.status ≡ reserved
  pub due : is_due now row ≡ true
  pub of_item : find_item row.item_id db.items ≡ some item
  pub fits : item.available_inventory + row.quantity ≤ item.total_inventory
  pub outcome : res.0 ≡ released_outcome u key row
  pub tables : res.1 ≡ released_db k row item db

release_row-Releases :
    (u : Uuids) (key : Text) (c : Calls) (k : ℕ) (db : Db) (r : Reservation)
    (rows : List Reservation) (res : Outcome × Db)
    → Sound db
    → expire_row c.now k db.reservations ≡ some (r, rows)
    → release_row u key c r (record db { reservations = rows }) ≡ ok res
    → Releases u key c.now k db res
unfolding release_row
release_row-Releases u key c k db r rows res s e h =
    let (found, st, due, same) = expire_row-cases c.now k db.reservations e in
    let (it, f, fits, inc) = increment-fits db k r s found st in
    record {
      row = r;
      item = it;
      found = found;
      reserves = st;
      due = due;
      of_item = f;
      fits = fits;
      outcome = ground arith;
      tables = ground arith;
    }

pub transaction-cases :
    (u : Uuids) (key : Text) (c : Calls) (db : Db) (res : Outcome × Db)
    → Sound db
    → transaction u key c db ≡ ok res
    → (k : ℕ) × (u.parse key ≡ some k)
      × (((expire_row c.now k db.reservations ≡ none) × (res ≡ (nothing_released key, db)))
          ⊎ Releases u key c.now k db res)
unfolding transaction
transaction-cases u key c db res s h =
    let (_, _, h1) = >>=-eq-ok (interrupt (Option.map database c.begin_tx)) _ h in
    let (_, _, h2) = >>=-eq-ok (interrupt (Option.map database c.update_reservation)) _ h1 in
    let (k, ek, h3) = >>=-eq-ok (or_fail (u.parse key) _) _ h2 in
    (
      k,
      or_fail-eq-ok (u.parse key) _ ek,
      elim (Option-cases (expire_row c.now k db.reservations)) [
        | inl idle ↦ inl (idle, ground arith)
        | inr ((r, rows), e) ↦ inr (release_row-Releases u key c k db r rows res s e (ground arith))
      ],
    )
