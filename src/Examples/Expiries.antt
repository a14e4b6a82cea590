-- ===== src/Examples/Expiries.antt =====
-- Runs of internal/expiry.
use mathlib.Core.List.{Permᴰ}
use flashsale_reservation.Prelude.{
  ◌+◌, ◌++◌, ◌≡◌, ◌⊎◌, refl, true, none, some, List, [], map, length, arith,
}
use flashsale_reservation.Prelude.Int.{pos}
use flashsale_reservation.Prelude.Result.{ok}
use flashsale_reservation.Store.{
  Item, Reservation, expired, find_item, find_reservation, set_status, set_available,
  increment_available,
}
use flashsale_reservation.Store.Sums.{held}
use flashsale_reservation.Tx.{Answers, conclude}
use flashsale_reservation.Expiry.{
  Outcome, is_due, expire_row, release_row, nothing_released, expire_reservation,
  find_expired_reservations,
}
use flashsale_reservation.Expiry
use flashsale_reservation.Expiry.Effect.{released_outcome}
use flashsale_reservation.Expiry.Release.{
  Healthy, expire_reservation_once, expire_reservation_releases,
}
use flashsale_reservation.Expiry.Sweep.{IsOrdered, due_of, find_expired_reservations_exact}
use flashsale_reservation.Examples.Data.{uuids, part, part-Sound, row, row_id, late}

late-Healthy : Healthy late
late-Healthy = record { begins = refl; updates_row = refl; updates_item = refl; commits = refl }

expire_reservation_releases_example :
    let db' = (expire_reservation uuids row_id late part).1 in
    (it : Item) × (find_item 7 part.items ≡ some it)
    × ((expire_reservation uuids row_id late part).0 ≡ ok (released_outcome uuids row_id row))
    × (find_item 7 db'.items
        ≡ some (record it { available_inventory = it.available_inventory + 2 }))
    × (find_reservation 1 db'.reservations ≡ some (record row { status = expired }))
    × (held 7 db'.reservations + 2 ≡ held 7 part.reservations)
unfolding find_reservation
expire_reservation_releases_example =
    expire_reservation_releases uuids row_id late part 1 row late-Healthy part-Sound refl refl refl

released : (expire_reservation uuids row_id late part).0 ≡ ok (released_outcome uuids row_id row)
unfolding expire_reservation Expiry.transaction expire_row release_row conclude find_reservation
    find_item set_status set_available increment_available
released = refl

is_released : (released_outcome uuids row_id row).released ≡ true
is_released = refl

expire_reservation_once_example :
    Answers
      (nothing_released row_id)
      (expire_reservation uuids row_id late part).1
      (expire_reservation uuids row_id late (expire_reservation uuids row_id late part).1)
expire_reservation_once_example =
    expire_reservation_once uuids row_id row_id late late part (released_outcome uuids row_id row)
      part-Sound released is_released refl

-- A minute before the deadline.
abbrev early : Expiry.Calls
early = record late { now = pos 40 }

find_expired_reservations_exact_example :
    (rows others : List Reservation) × (find_expired_reservations uuids none (pos 101) (pos 10) part
      ≡ ok (map (λ r. uuids.show r.id) rows))
    × Permᴰ (rows ++ others) (due_of (pos 101) part.reservations)
    × IsOrdered (rows ++ others)
    × ((length rows ≡ 10) ⊎ (others ≡ []))
find_expired_reservations_exact_example =
    find_expired_reservations_exact uuids (pos 101) (pos 10) part (omega arith)
