-- ===== src/Decision.antt =====
-- internal/decision/processor.go: `ProcessAttempt`, one transaction that decides an attempt.
pub mod Effect
pub mod Safety
pub mod Replay
pub mod Verdict
pub mod Answers
use mathlib.Core.Option
use flashsale_reservation.Prelude.{
  ℕ, ◌+◌, ◌-◌, ◌≡◌, Bool, true, false, Option, none, some, List, [], ◌∷◌, ltb, leb, if◌then◌else◌,
}
use flashsale_reservation.Prelude.Int.{ℤ, pos, pos_part, ◌+ℤ◌, leb_ℤ}
use flashsale_reservation.Prelude.Text.{Text}
use flashsale_reservation.Prelude.Result.{Result, ok, err, ◌>>=◌, ◌>>◌, or_fail, interrupt, map_err}
use flashsale_reservation.Store.{
  Item, Reservation, Status, reserved, rejected, Db, DbError, driver, postgres, invalid_text, Uuids,
  find_item, find_key, insert_reservation, decrement_available,
}
use flashsale_reservation.Tx.{Commit, conclude}

-- What the message decodes into; `Quantity` is an int64.
pub record Attempt : Type 0 where
  pub item_id : Text
  pub user_id : Text
  pub quantity : ℤ
  pub idempotency_key : Text

pub record Outcome : Type 0 where
  pub reservation_id : Text
  pub status : Status
  pub replayed : Bool

-- The two sentinels, and an error of the database under its wrapping.
pub data Error : Type 0 where
  item_not_found invalid_quantity : Error
  database : DbError → Error

-- What a call meets outside: the service's clock, the UUID that the server draws, and for each
-- statement the error that cuts it short, if any.
pub record Calls : Type 0 where
  pub now : ℤ
  pub new_id : ℕ
  pub begin_tx : Option DbError
  pub lock_item : Option DbError
  pub insert : Option DbError
  pub look_up : Option DbError
  pub update_item : Option DbError
  pub commit : Commit

-- The row of the INSERT: reserved with a deadline if the locked item has enough, else rejected.
unfoldable pub new_row : Attempt → ℤ → Calls → ℕ → Item → Reservation
new_row a ttl c i it = record {
  id = c.new_id;
  item_id = i;
  user_id = a.user_id;
  quantity = pos_part a.quantity;
  status = if leb_ℤ a.quantity (pos it.available_inventory) then reserved else rejected;
  idempotency_key = a.idempotency_key;
  expires_at = if leb_ℤ a.quantity (pos it.available_inventory) then some (c.now +ℤ ttl) else none;
}

-- The key was recorded by an earlier delivery: read the outcome back.
unfoldable pub replay : Uuids → Attempt → Calls → ℕ → Db → Result Error (Outcome × Db)
replay u a c i db = do
  interrupt (Option.map database c.look_up)
  old ← or_fail (find_key i a.idempotency_key db.reservations) (database driver)
  ok (record { reservation_id = u.show old.id; status = old.status; replayed = true }, db)

-- A row was inserted: only a reserved one touches the inventory.
unfoldable pub settle : Uuids → Attempt → Calls → ℕ → Reservation → Db → Result Error (Outcome × Db)
settle u a c i r db = elim r.status [
  | reserved ↦ do
    interrupt (Option.map database c.update_item)
    items ← map_err database (decrement_available (pos_part a.quantity) i db.items)
    ok (
      record { reservation_id = u.show r.id; status = r.status; replayed = false },
      record db { items = items },
    )
  | other ↦ ok (record { reservation_id = u.show r.id; status = r.status; replayed = false }, db)
]

-- With the item's row locked: the INSERT, and what follows from whether it put a row in.
unfoldable pub decide : Uuids → Attempt → ℤ → Calls → ℕ → Item → Db → Result Error (Outcome × Db)
decide u a ttl c i it db = do
  interrupt (Option.map database c.insert)
  (inserted, rows) ← map_err database (insert_reservation (new_row a ttl c i it) db)
  elim inserted [
    | none ↦ replay u a c i db
    | some r ↦ settle u a c i r (record db { reservations = rows })
  ]

-- From BeginTx to before Commit. An error leaves the transaction to its deferred Rollback.
unfoldable pub transaction : Uuids → Attempt → ℤ → Calls → Db → Result Error (Outcome × Db)
transaction u a ttl c db = do
  interrupt (Option.map database c.begin_tx)
  interrupt (Option.map database c.lock_item)
  i ← or_fail (u.parse a.item_id) (database (postgres invalid_text))
  it ← or_fail (find_item i db.items) item_not_found
  decide u a ttl c i it db

unfoldable pub process_attempt : Uuids → Attempt → ℤ → Calls → Db → Result Error Outcome × Db
process_attempt u a ttl c db =
    if leb_ℤ a.quantity (pos 0)
    then (err invalid_quantity, db)
    else conclude database c.commit db (transaction u a ttl c db)
