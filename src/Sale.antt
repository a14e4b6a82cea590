-- ===== src/Sale.antt =====
-- The authoritative path as a whole: decision-service and expiry-worker call `ProcessAttempt` and
-- `ExpireReservation` (internal/decision, internal/expiry) in any order, on one database.
pub mod Ledger
pub mod Redelivery
pub mod Restart
use flashsale_reservation.Prelude.{ℕ, ◌≤◌, ◌≡◌, refl, ◌∙◌, some, List, [], ◌∷◌, arith}
use flashsale_reservation.Prelude.Int.{ℤ}
use flashsale_reservation.Prelude.Text.{Text}
use flashsale_reservation.Store.{Item, Db, Uuids, find_item}
use flashsale_reservation.Store.Sums.{stock, held}
use flashsale_reservation.Store.Moves.{Move, Move-stock}
use flashsale_reservation.Store.Invariant.{Sound, Move-Sound}
use flashsale_reservation.Decision.{Attempt, process_attempt}
use flashsale_reservation.Decision
use flashsale_reservation.Decision.Safety.{process_attempt-Move}
use flashsale_reservation.Expiry.{expire_reservation}
use flashsale_reservation.Expiry
use flashsale_reservation.Expiry.Safety.{expire_reservation-Move}

-- One transaction, with what it meets outside. The row locks put transactions in an order.
pub data Call : Type 0 where
  attempts : Attempt → ℤ → Decision.Calls → Call
  expires : Text → Expiry.Calls → Call

unfoldable pub step : Uuids → Db → Call → Db
step u db (attempts a ttl c) = (process_attempt u a ttl c db).1
step u db (expires key c) = (expire_reservation u key c db).1

unfoldable pub run : Uuids → Db → List Call → Db
run u db [] = db
run u db (x ∷ xs) = run u (step u db x) xs

pub step-Move : (u : Uuids) (db : Db) (x : Call) → Sound db → Move db (step u db x)
unfolding step
step-Move u db (attempts a ttl c) s = process_attempt-Move u a ttl c db
step-Move u db (expires key c) s = expire_reservation-Move u key c db s

-- Any sequence of attempts and expiries, each cut short anywhere or answered or not, keeps the
-- invariant of the tables.
pub run-Sound : (u : Uuids) (db : Db) (xs : List Call) → Sound db → Sound (run u db xs)
unfolding run
run-Sound u db [] s = s
run-Sound u db (x ∷ xs) s = run-Sound u (step u db x) xs (Move-Sound (step-Move u db x s) s)

-- Conservation: whatever sequence of attempts and expiries runs on sound tables, redelivered
-- attempts and repeated expiries included, the units of an item on hand and the units held by
-- reservations stay the same in sum.
pub run-stock :
    (u : Uuids) (db : Db) (xs : List Call) (i : ℕ) → Sound db → stock i (run u db xs) ≡ stock i db
unfolding run
run-stock u db [] i s = refl
run-stock u db (x ∷ xs) i s =
    let m = step-Move u db x s in run-stock u (step u db x) xs i (Move-Sound m s) ∙ Move-stock i m

-- No overselling: whatever sequence of attempts and expiries runs on sound tables, redelivered
-- attempts, repeated expiries and lost answers included, the reservations that hold stock of an item
-- never add up to more than its total inventory. The units on hand and the units held keep their sum,
-- and the tables stay sound.
pub run_never_oversells :
    (u : Uuids) (db : Db) (xs : List Call) (i : ℕ) (it : Item)
    → Sound db
    → find_item i db.items ≡ some it
    → (held i (run u db xs).reservations ≤ it.total_inventory)
      × (stock i (run u db xs) ≡ stock i db)
      × Sound (run u db xs)
run_never_oversells u db xs i it s f = (
  ground (arith, run-stock u db xs i s, s.funded i it f),
  run-stock u db xs i s,
  run-Sound u db xs s,
)
