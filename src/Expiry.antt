-- ===== src/Expiry.antt =====
-- internal/expiry/processor.go: finding lapsed reservations and giving their stock back.
pub mod Effect
pub mod Safety
pub mod Release
pub mod Sweep
use mathlib.Core.Option
use flashsale_reservation.Prelude.{
  ℕ, ◌+◌, ◌≡◌, Bool, true, false, ◌&&◌, Option, none, some, List, [], ◌∷◌, map, take, if◌then◌else◌,
}
use flashsale_reservation.Prelude.Int.{ℤ, pos, pos_part, leb_ℤ, ltb_ℤ}
use flashsale_reservation.Prelude.Text.{Text}
use flashsale_reservation.Prelude.Result.{Result, ok, err, ◌>>=◌, ◌>>◌, or_fail, interrupt, map_err}
use flashsale_reservation.Store.{
  Item, Reservation, Status, reserved, expired, Db, DbError, driver, postgres, invalid_text, Uuids,
  find_reservation, increment_available, set_status,
}
use flashsale_reservation.Tx.{Commit, conclude}

pub data Error : Type 0 where
  bad_limit : Error
  database : DbError → Error

-- expires_at < now(): NULL compares as unknown, which WHERE takes for false.
abbrev pub has_lapsed : ℤ → Option ℤ → Bool
has_lapsed now none = false
has_lapsed now (some t) = ltb_ℤ t now

abbrev pub is_reserved : Status → Bool
is_reserved reserved = true
is_reserved _ = false

-- status = 'reserved' AND expires_at < now()
abbrev pub is_due : ℤ → Reservation → Bool
is_due now r = is_reserved r.status && has_lapsed now r.expires_at

abbrev pub deadline : Reservation → ℤ
deadline r = elim r.expires_at [ none ↦ pos 0 | some t ↦ t ]

-- ORDER BY expires_at, as an insertion sort.
unfoldable pub place : Reservation → List Reservation → List Reservation
place r [] = r ∷ []
place r (x ∷ xs) = if leb_ℤ (deadline r) (deadline x) then r ∷ x ∷ xs else x ∷ place r xs

-- The rows that WHERE keeps, in order.
unfoldable pub due_rows : ℤ → List Reservation → List Reservation
due_rows now [] = []
due_rows now (r ∷ rs) = let rest = due_rows now rs in if is_due now r then place r rest else rest

-- The query can fail, or the reading of its rows. `now` is the server's clock.
unfoldable pub find_expired_reservations :
    Uuids → Option DbError → ℤ → ℤ → Db → Result Error (List Text)
find_expired_reservations u scan now limit db = if leb_ℤ limit (pos 0) then err bad_limit else (do
  interrupt (Option.map database scan)
  ok (map (λ r. u.show r.id) (take (pos_part limit) (due_rows now db.reservations))))

pub record Outcome : Type 0 where
  pub reservation_id : Text
  pub item_id : Text
  pub quantity : ℕ
  pub released : Bool

pub record Calls : Type 0 where
  pub now : ℤ
  pub begin_tx : Option DbError
  pub update_reservation : Option DbError
  pub update_item : Option DbError
  pub commit : Commit

-- UPDATE reservations SET status = 'expired' WHERE id = $1 AND status = 'reserved' AND
-- expires_at < now() RETURNING item_id, quantity. `none` is a statement that matched no row.
unfoldable pub expire_row : ℤ → ℕ → List Reservation → Option (Reservation × List Reservation)
expire_row now k rs = elim (find_reservation k rs) [
  | none ↦ none
  | some r ↦ if is_due now r then some (r, set_status k expired rs) else none
]

abbrev pub nothing_released : Text → Outcome
nothing_released key = record { reservation_id = key; item_id = []; quantity = 0; released = false }

unfoldable pub release_row : Uuids → Text → Calls → Reservation → Db → Result Error (Outcome × Db)
release_row u key c r db = do
  interrupt (Option.map database c.update_item)
  items ← map_err database (increment_available r.quantity r.item_id db.items)
  ok (
    record {
      reservation_id = key;
      item_id = u.show r.item_id;
      quantity = r.quantity;
      released = true;
    },
    record db { items = items },
  )

unfoldable pub transaction : Uuids → Text → Calls → Db → Result Error (Outcome × Db)
transaction u key c db = do
  interrupt (Option.map database c.begin_tx)
  interrupt (Option.map database c.update_reservation)
  k ← or_fail (u.parse key) (database (postgres invalid_text))
  elim (expire_row c.now k db.reservations) [
    | none ↦ ok (nothing_released key, db)
    | some (r, rows) ↦ release_row u key c r (record db { reservations = rows })
  ]

unfoldable pub expire_reservation : Uuids → Text → Calls → Db → Result Error Outcome × Db
expire_reservation u key c db = conclude database c.commit db (transaction u key c db)
