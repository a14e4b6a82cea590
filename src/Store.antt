-- ===== src/Store.antt =====
-- The Postgres tables (migrations/000002 and 000003) and the SQL statements that the Go code runs
-- on them. A statement gives the new tables, or the error that Postgres answers.
pub mod Sums
pub mod Moves
pub mod Invariant
use flashsale_reservation.Prelude.{
  ℕ, ◌+◌, ◌-◌, ◌^◌, Bool, true, false, not, ◌&&◌, ◌||◌, Option, none, some, List, [], ◌∷◌, ltb, leb,
  ◌==◌, if◌then◌else◌,
}
use flashsale_reservation.Prelude.Int.{ℤ}
use flashsale_reservation.Prelude.Text.{Text, text_eq}
use flashsale_reservation.Prelude.Result.{Result, ok, err}

pub data ItemStatus : Type 0 where
  draft scheduled on_sale sold_out closed : ItemStatus

-- The columns that the Go code reads or writes; a UUID is its 128-bit number.
pub record Item : Type 0 where
  pub id : ℕ
  pub total_inventory : ℕ
  pub available_inventory : ℕ
  pub status : ItemStatus

pub data Status : Type 0 where
  pending reserved completed expired cancelled rejected : Status

pub record Reservation : Type 0 where
  pub id : ℕ
  pub item_id : ℕ
  pub user_id : Text
  pub quantity : ℕ
  pub status : Status
  pub idempotency_key : Text
  pub expires_at : Option ℤ

pub record Db : Type 0 where
  pub items : List Item
  pub reservations : List Reservation

-- What Postgres answers with a `*pq.Error`; `other_code` is any error that the tables do not show.
pub data PgCode : Type 0 where
  invalid_text numeric_out_of_range check_violation unique_violation foreign_key_violation : PgCode
  other_code : ℕ → PgCode

-- `driver` is an error with no answer of Postgres in it: a lost connection, a timeout, a cancelled
-- context, `sql.ErrNoRows`.
pub data DbError : Type 0 where
  driver : DbError
  postgres : PgCode → DbError

-- Postgres's input and output functions of the type UUID.
pub record Uuids : Type 0 where
  pub parse : Text → Option ℕ
  pub show : ℕ → Text

-- INTEGER is a signed 32-bit column.
abbrev pub max_int4 : ℕ
max_int4 = 2 ^ 31 - 1

-- WHERE id = $1: the primary key, so one row at most.
unfoldable pub find_item : ℕ → List Item → Option Item
find_item i [] = none
find_item i (it ∷ items) = if it.id == i then some it else find_item i items

unfoldable pub find_reservation : ℕ → List Reservation → Option Reservation
find_reservation k [] = none
find_reservation k (r ∷ rs) = if r.id == k then some r else find_reservation k rs

-- WHERE item_id = $1 AND idempotency_key = $2: the unique index, so one row at most.
unfoldable pub find_key : ℕ → Text → List Reservation → Option Reservation
find_key i key [] = none
find_key i key (r ∷ rs) =
    if (r.item_id == i) && text_eq r.idempotency_key key then some r else find_key i key rs

unfoldable pub set_available : ℕ → ℕ → List Item → List Item
set_available i v [] = []
set_available i v (it ∷ items) =
    if it.id == i
    then record it { available_inventory = v } ∷ items
    else it ∷ set_available i v items

-- UPDATE items SET available_inventory = available_inventory - $1 WHERE id = $2
unfoldable pub decrement_available : ℕ → ℕ → List Item → Result DbError (List Item)
decrement_available q i items = elim (find_item i items) [
  | none ↦ ok items
  | some it ↦
      if ltb it.available_inventory q
      then err (postgres check_violation)
      else ok (set_available i (it.available_inventory - q) items)
]

-- UPDATE items SET available_inventory = available_inventory + $1 WHERE id = $2
unfoldable pub increment_available : ℕ → ℕ → List Item → Result DbError (List Item)
increment_available q i items = elim (find_item i items) [
  | none ↦ ok items
  | some it ↦
      if ltb max_int4 (it.available_inventory + q)
      then err (postgres numeric_out_of_range)
      else if ltb it.total_inventory (it.available_inventory + q)
      then err (postgres check_violation)
      else ok (set_available i (it.available_inventory + q) items)
]

-- CHECK (status <> 'reserved' OR expires_at IS NOT NULL)
abbrev pub has_expiry : Status → Option ℤ → Bool
has_expiry reserved none = false
has_expiry _ _ = true

-- INSERT INTO reservations … ON CONFLICT (item_id, idempotency_key) DO NOTHING RETURNING id, status.
-- Parameters are converted first, then come the CHECK constraints, the index named in ON CONFLICT,
-- the primary key and the foreign key. `none` is an insert that did nothing and returned no row.
unfoldable pub insert_reservation :
    Reservation → Db → Result DbError (Option Reservation × List Reservation)
insert_reservation r db =
    if ltb max_int4 r.quantity
    then err (postgres numeric_out_of_range)
    else if (r.quantity == 0) || not (has_expiry r.status r.expires_at)
    then err (postgres check_violation)
    else elim (find_key r.item_id r.idempotency_key db.reservations) [
      | some old ↦ ok (none, db.reservations)
      | none ↦ elim (find_reservation r.id db.reservations) [
        | some old ↦ err (postgres unique_violation)
        | none ↦ elim (find_item r.item_id db.items) [
          | none ↦ err (postgres foreign_key_violation)
          | some it ↦ ok (some r, r ∷ db.reservations)
        ]
      ]
    ]

unfoldable pub set_status : ℕ → Status → List Reservation → List Reservation
set_status k s [] = []
set_status k s (r ∷ rs) = if r.id == k then record r { status = s } ∷ rs else r ∷ set_status k s rs
