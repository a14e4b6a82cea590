-- ===== src/Examples/Working.antt =====
-- A run of cmd/expiry-worker: a scan, a hand-over, the close, and the drain.
use flashsale_reservation.Prelude.{◌+◌, ◌≡◌, ◌⊎◌, refl, true, false, [], ◌∷◌, arith}
use flashsale_reservation.Prelude.Int.{pos}
use flashsale_reservation.Store.Sums.{stock}
use flashsale_reservation.Store.Invariant.{Sound}
use flashsale_reservation.Expiry.{find_expired_reservations, due_rows, place}
use flashsale_reservation.Worker.{
  Config, System, Step, scans, sends, closes, takes, Steps, here, then,
}
use flashsale_reservation.Worker.Pool.{
  IsBounded, Steps-Sound, left, pool_step, pool_steps, closed_pool_drains,
}
use flashsale_reservation.Examples.Data.{uuids, part, part-Sound, row_id}

abbrev config : Config
config = record { uuids = uuids; capacity = 2; batch_size = pos 2; pool_size = 1 }

abbrev started : System
started = record { db = part; unsent = []; jobs = []; busy = []; scanning = true }

abbrev closed : System
closed = record { db = part; unsent = []; jobs = row_id ∷ []; busy = []; scanning = false }

scan_and_close : Steps config started closed
unfolding find_expired_reservations due_rows place
scan_and_close = then _ _ _ (scans started (pos 101) (row_id ∷ []) refl refl refl) (
    then _ _ _ (sends (record started { unsent = row_id ∷ [] }) row_id [] refl refl (omega arith))
      (then _ _ _ (closes (record started { jobs = row_id ∷ [] }) refl) (here closed)))

Steps-Sound_example :
    Sound closed.db × (stock 7 closed.db ≡ stock 7 started.db) × IsBounded config closed
Steps-Sound_example =
    Steps-Sound config started closed 7 scan_and_close part-Sound (omega arith, omega arith)

abbrev taken : System
taken = record closed { jobs = []; busy = row_id ∷ [] }

abbrev drain : Steps config closed taken
drain = then _ _ _ (takes closed row_id [] refl (omega arith)) (here taken)

closed_pool_drains_example :
    (pool_steps drain + left taken ≡ left closed)
    × ((left taken ≡ 0) ⊎ ((w : System) × (x : Step config taken w) × (pool_step x ≡ 1)))
closed_pool_drains_example = closed_pool_drains config closed taken drain refl (omega arith)
