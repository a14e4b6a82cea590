-- ===== src/Examples/Data.antt =====
-- The tables of an item with five units, before and after two of them are reserved.
use flashsale_reservation.Prelude.{
  ℕ, ◌≡◌, ◌==◌, if◌then◌else◌, inl, inr, refl, Option, none, some, [], ◌∷◌, arith, Bool-cases,
}
use flashsale_reservation.Prelude.Int.{pos}
use flashsale_reservation.Prelude.Text.{Text, codes, text_eq}
use flashsale_reservation.Store.{
  Item, on_sale, Reservation, reserved, Db, Uuids, find_item, find_reservation, find_key,
}
use flashsale_reservation.Store.Invariant.{Sound, Funded}
use flashsale_reservation.Tx.{done}
use flashsale_reservation.Decision.{Attempt}
use flashsale_reservation.Decision
use flashsale_reservation.Expiry
use flashsale_reservation.Redis.{Redis, integer, text, inventory_key, admission_key}

abbrev parse_one : Text → Option ℕ
parse_one [] = none
parse_one (n ∷ []) = some n
parse_one (n ∷ m ∷ t) = none

-- A UUID as a text of one sign.
abbrev pub uuids : Uuids
uuids = record { parse = parse_one; show = λ n. n ∷ [] }

abbrev pub phone : Item
phone = record { id = 7; total_inventory = 5; available_inventory = 5; status = on_sale }

abbrev pub phone_id : Text
phone_id = 7 ∷ []

abbrev pub full : Db
full = record { items = phone ∷ []; reservations = [] }

abbrev pub row : Reservation
row = record {
  id = 1;
  item_id = 7;
  user_id = codes "ann";
  quantity = 2;
  status = reserved;
  idempotency_key = codes "k1";
  expires_at = some (pos 100);
}

abbrev pub row_id : Text
row_id = 1 ∷ []

abbrev pub part : Db
part = record { items = record phone { available_inventory = 3 } ∷ []; reservations = row ∷ [] }

full-Funded : (i : ℕ) (it : Item) → find_item i full.items ≡ some it → Funded i full it
unfolding find_item
full-Funded i it h = elim (Bool-cases (phone.id == i)) [
  | inl same ↦ record { covered = ground arith; ranged = ground arith }
  | inr other ↦ absurd (ground arith)
]

pub full-Sound : Sound full
full-Sound = record { distinct = tt; backed = tt; funded = full-Funded }

part-Funded : (i : ℕ) (it : Item) → find_item i part.items ≡ some it → Funded i part it
unfolding find_item
part-Funded i it h = elim (Bool-cases (phone.id == i)) [
  | inl same ↦ record { covered = ground arith; ranged = ground arith }
  | inr other ↦ absurd (ground arith)
]

pub part-Sound : Sound part
unfolding find_item find_reservation find_key
part-Sound = record { distinct = (refl, refl, tt); backed = (λ e. cc, tt); funded = part-Funded }

abbrev pub order : Attempt
order = record {
  item_id = phone_id;
  user_id = codes "ann";
  quantity = pos 2;
  idempotency_key = codes "k1";
}

-- Every call of a transaction is answered.
abbrev pub calm : Decision.Calls
calm = record {
  now = pos 40;
  new_id = 1;
  begin_tx = none;
  lock_item = none;
  insert = none;
  look_up = none;
  update_item = none;
  commit = done;
}

abbrev pub late : Expiry.Calls
late = record {
  now = pos 101;
  begin_tx = none;
  update_reservation = none;
  update_item = none;
  commit = done;
}

abbrev pub ann : Text
ann = codes "ann"

-- Redis with the item's counter alone, and with ann's token beside it.
abbrev pub stocked : Redis
stocked key =
    if text_eq (inventory_key phone_id) key
    then some (record { value = integer (pos 5); expires_at = none })
    else none

abbrev pub admitted : Redis
admitted key =
    if text_eq (admission_key phone_id ann) key
    then some (record { value = text (codes "t"); expires_at = some (pos 60) })
    else stocked key
