-- ===== src/Expiry/Release.antt =====
-- What `ExpireReservation` answers: releases happen once, and exactly when they are due.
use flashsale_reservation.Prelude.{
  ℕ, ◌+◌, ◌≡◌, sym, subst, true, none, some, List, arith, inl, inr, ◌∙◌,
}
use flashsale_reservation.Prelude.Int.{ℤ}
use flashsale_reservation.Prelude.Text.{Text}
use flashsale_reservation.Prelude.Result.{ok}
use flashsale_reservation.Store.{
  Item, Reservation, reserved, expired, Db, Uuids, find_item, find_reservation, set_available,
  set_status, increment_available,
}
use flashsale_reservation.Store.Sums.{
  held, find_item-set_available_self, find_reservation-set_status_self, held-set_status,
}
use flashsale_reservation.Store.Invariant.{Sound}
use flashsale_reservation.Tx.{done, conclude, conclude-ok, Answers, conclude-Answers}
use flashsale_reservation.Expiry.{
  Outcome, database, Calls, expire_row, nothing_released, release_row, transaction,
  expire_reservation, is_due,
}
use flashsale_reservation.Expiry.Effect.{
  transaction-cases, released_outcome, released_db, increment-fits,
}

-- A row that is not due is left alone: the call changes nothing, wherever it is cut short, and
-- answers that nothing was released, or an error.
pub expire_reservation-idle :
    (u : Uuids) (key : Text) (c : Calls) (db : Db) (k : ℕ)
    → u.parse key ≡ some k
    → expire_row c.now k db.reservations ≡ none
    → Answers (nothing_released key) db (expire_reservation u key c db)
unfolding expire_reservation
expire_reservation-idle u key c db k p idle =
    conclude-Answers database (nothing_released key) c.commit db (transaction u key c db)
      (λ res h. unfold transaction in ground arith)

-- Once a row is expired, no call finds it due.
expire_row-expired :
    (now : ℤ) (k : ℕ) (rs : List Reservation) (r : Reservation)
    → find_reservation k rs ≡ some r
    → expire_row now k (set_status k expired rs) ≡ none
unfolding expire_row
expire_row-expired now k rs r f = ground (arith, find_reservation-set_status_self k expired r rs f)

expire-ok :
    (u : Uuids) (key : Text) (c : Calls) (db : Db) (out : Outcome)
    → (expire_reservation u key c db).0 ≡ ok out
    → transaction u key c db ≡ ok (out, (expire_reservation u key c db).1)
unfolding expire_reservation
expire-ok u key c db out h = conclude-ok database c.commit db (transaction u key c db) out h

-- A reservation is released once: after a call on sound tables that reports a release, any call
-- for the same reservation, at any time and by any spelling of its id, changes nothing, and
-- answers that nothing was released, or an error.
pub expire_reservation_once :
    (u : Uuids) (key key' : Text) (c c' : Calls) (db : Db) (out : Outcome)
    → Sound db
    → (expire_reservation u key c db).0 ≡ ok out
    → out.released ≡ true
    → u.parse key' ≡ u.parse key
    → Answers
        (nothing_released key')
        (expire_reservation u key c db).1
        (expire_reservation u key' c' (expire_reservation u key c db).1)
expire_reservation_once u key key' c c' db out s h rel same =
    let db' = (expire_reservation u key c db).1 in
    let (k, p, cases) = transaction-cases u key c db (out, db') s (expire-ok u key c db out h) in
    expire_reservation-idle u key' c' db' k (same ∙ p) (elim cases [
      | inl (_, e) ↦ absurd (ground arith)
      | inr v ↦
          subst (λ (d : Db). expire_row c'.now k d.reservations ≡ none) (sym v.tables)
            (expire_row-expired c'.now k db.reservations v.row v.found)
    ])

-- No call of the transaction fails.
pub record Healthy (c : Calls) : Type 0 where
  pub begins : c.begin_tx ≡ none
  pub updates_row : c.update_reservation ≡ none
  pub updates_item : c.update_item ≡ none
  pub commits : c.commit ≡ done

module _ (u : Uuids) (key : Text) (c : Calls) (db : Db) (k : ℕ) (r : Reservation) (h : Healthy c)
    (s : Sound db) (p : u.parse key ≡ some k)
    (f : find_reservation k db.reservations ≡ some r) where
  release_exact :
      (it : Item)
      → is_due c.now r ≡ true
      → increment_available r.quantity r.item_id db.items
        ≡ ok (set_available r.item_id (it.available_inventory + r.quantity) db.items)
      → expire_reservation u key c db ≡ (ok (released_outcome u key r), released_db k r it db)
  unfolding expire_reservation transaction release_row expire_row conclude
  release_exact it due inc = ground arith

  -- On sound tables an uninterrupted call for a reservation that is reserved and past its deadline
  -- meets no constraint: it reports the release, the item has the row's quantity more on hand, the
  -- row is expired, and the quantity held of the item falls by it.
  pub expire_reservation_releases :
      is_due c.now r ≡ true
      → let db' = (expire_reservation u key c db).1 in
        (it : Item) × (find_item r.item_id db.items ≡ some it)
        × ((expire_reservation u key c db).0 ≡ ok (released_outcome u key r))
        × (find_item r.item_id db'.items
            ≡ some (record it { available_inventory = it.available_inventory + r.quantity }))
        × (find_reservation k db'.reservations ≡ some (record r { status = expired }))
        × (held r.item_id db'.reservations + r.quantity ≡ held r.item_id db.reservations)
  expire_reservation_releases due =
      let st : r.status ≡ reserved = ground arith in
      let (it, g, fits, inc) = increment-fits db k r s f st in
      let e = release_exact it due inc in
      (
        it,
        g,
        rw e,
        rw e (find_item-set_available_self r.item_id _ it db.items g),
        rw e (find_reservation-set_status_self k expired r db.reservations f),
        rw e (ground (arith, held-set_status r.item_id k expired r db.reservations f)),
      )
