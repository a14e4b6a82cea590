-- ===== src/Decision/Verdict.antt =====
-- What `ProcessAttempt` answers when nothing outside interrupts it.
use flashsale_reservation.Prelude.{
  ℕ, ◌+◌, ◌-◌, ◌≡◌, ◌≢◌, refl, ap, false, Option, none, some, ◌∷◌, ltb, if◌then◌else◌, arith, inl,
  inr, Option-cases, Bool-cases,
}
use flashsale_reservation.Prelude.Int.{ℤ, pos, pos_part, leb_ℤ, ◌≤ℤ◌}
use flashsale_reservation.Prelude.Result.{Result, ok, err}
use flashsale_reservation.Store.{
  Item, Reservation, reserved, rejected, Db, postgres, invalid_text, Uuids, max_int4, find_item,
  find_reservation, find_key, insert_reservation, decrement_available,
}
use flashsale_reservation.Store.Sums.{held, find_item-set_available_self}
use flashsale_reservation.Tx.{done, conclude}
use flashsale_reservation.Decision.{
  Attempt, Outcome, Error, item_not_found, invalid_quantity, database, Calls, new_row, replay,
  settle, decide, transaction, process_attempt,
}
use flashsale_reservation.Decision.Effect.{recorded}
use flashsale_reservation.Store.{numeric_out_of_range}
use flashsale_reservation.Store.Sums.{find_item-set_available_ne}
use flashsale_reservation.Decision.Replay.{recorded_outcome}

-- No call of the transaction fails.
pub record Healthy (c : Calls) : Type 0 where
  pub begins : c.begin_tx ≡ none
  pub locks : c.lock_item ≡ none
  pub inserts : c.insert ≡ none
  pub looks_up : c.look_up ≡ none
  pub updates : c.update_item ≡ none
  pub commits : c.commit ≡ done

-- The error that an attempt deserves by itself.
unfoldable pub refusal : Uuids → Attempt → Db → Option Error
refusal u a db =
    if leb_ℤ a.quantity (pos 0) then some invalid_quantity else elim (u.parse a.item_id) [
      | none ↦ some (database (postgres invalid_text))
      | some i ↦ elim (find_item i db.items) [
        | none ↦ some item_not_found
        | some it ↦
            if ltb max_int4 (pos_part a.quantity)
            then some (database (postgres numeric_out_of_range))
            else none
      ]
    ]

-- An uninterrupted call for an attempt that is to be refused answers with just that error and
-- changes nothing: for a quantity that is not positive, an item id that is no UUID, an item that
-- is not there, or a quantity that is no INTEGER.
pub process_attempt_refuses :
    (u : Uuids) (a : Attempt) (ttl : ℤ) (c : Calls) (db : Db) (e : Error)
    → Healthy c
    → refusal u a db ≡ some e
    → process_attempt u a ttl c db ≡ (err e, db)
unfolding process_attempt transaction decide conclude refusal insert_reservation new_row
process_attempt_refuses u a ttl c db e h r = elim (Option-cases (u.parse a.item_id)) [
  | inl bad ↦ ground arith
  | inr (i, p) ↦ elim (Option-cases (find_item i db.items)) [
    | inl missing ↦ ground arith
    | inr (it, f) ↦ ground arith
  ]
]

module _ (u : Uuids) (a : Attempt) (ttl : ℤ) (c : Calls) (db : Db) (i : ℕ) (it : Item)
    (h : Healthy c) (p : u.parse a.item_id ≡ some i) (f : find_item i db.items ≡ some it)
    (positive : pos 1 ≤ℤ a.quantity) (ranged : a.quantity ≤ℤ pos max_int4) where
  insert-new :
      find_key i a.idempotency_key db.reservations ≡ none
      → find_reservation c.new_id db.reservations ≡ none
      → insert_reservation (new_row a ttl c i it) db
        ≡ ok (some (new_row a ttl c i it), new_row a ttl c i it ∷ db.reservations)
  unfolding insert_reservation new_row
  insert-new k n = ground arith

  insert-old :
      (old : Reservation)
      → find_key i a.idempotency_key db.reservations ≡ some old
      → insert_reservation (new_row a ttl c i it) db ≡ ok (none, db.reservations)
  unfolding insert_reservation new_row
  insert-old old k = ground arith

  settle-ok :
      settle u a c i
        (new_row a ttl c i it)
        (record db { reservations = new_row a ttl c i it ∷ db.reservations })
      ≡ ok (
        record {
          reservation_id = u.show c.new_id;
          status = (new_row a ttl c i it).status;
          replayed = false;
        },
        recorded a ttl c i it db,
      )
  unfolding settle new_row recorded decrement_available
  settle-ok = elim (Bool-cases (leb_ℤ a.quantity (pos it.available_inventory))) [
    | inl enough ↦ ground arith
    | inr short ↦ ground arith
  ]

  -- A new attempt is decided.
  pub process_attempt-new :
      find_key i a.idempotency_key db.reservations ≡ none
      → find_reservation c.new_id db.reservations ≡ none
      → process_attempt u a ttl c db ≡ (
        ok (record {
          reservation_id = u.show c.new_id;
          status = (new_row a ttl c i it).status;
          replayed = false;
        }),
        recorded a ttl c i it db,
      )
  unfolding process_attempt transaction decide conclude
  process_attempt-new k n = ground (arith, insert-new k n, settle-ok)

  -- A recorded one is read back.
  pub process_attempt-old :
      (old : Reservation)
      → find_key i a.idempotency_key db.reservations ≡ some old
      → process_attempt u a ttl c db ≡ (ok (recorded_outcome u old), db)
  unfolding process_attempt transaction decide conclude replay recorded_outcome
  process_attempt-old old k = ground (arith, insert-old old k)

  recorded-verdict :
      (j : ℕ)
      → i ≢ j
      → let enough = leb_ℤ a.quantity (pos it.available_inventory) in
        let q = pos_part a.quantity in
        let db' = recorded a ttl c i it db in
        (◌≡◌ {A = Result Error Outcome}
          (ok (record {
            reservation_id = u.show c.new_id;
            status = (new_row a ttl c i it).status;
            replayed = false;
          }))
          (ok (record {
            reservation_id = u.show c.new_id;
            status = if enough then reserved else rejected;
            replayed = false;
          })))
        × (find_item i db'.items
            ≡ some (record it {
              available_inventory =
                  if enough then it.available_inventory - q else it.available_inventory;
            }))
        × (held i db'.reservations ≡ held i db.reservations + (if enough then q else 0))
        × (find_item j db'.items ≡ find_item j db.items)
  unfolding recorded new_row
  recorded-verdict j ne = elim (Bool-cases (leb_ℤ a.quantity (pos it.available_inventory))) [
    | inl enough ↦ rw enough (
      refl,
      find_item-set_available_self i _ it db.items f,
      ground arith,
      find_item-set_available_ne i j _ db.items ne,
    )
    | inr short ↦ rw short (refl, f, ground arith, refl)
  ]

  -- An uninterrupted call on a new key, for a positive quantity in the range of INTEGER of an item
  -- that exists, with a UUID drawn that is new, decides by the locked stock: reserved if it covers
  -- the quantity, which then moves from on hand to held, else rejected with no stock touched. The
  -- item is otherwise unchanged, and so is every other item `j`.
  pub process_attempt_verdict :
      (j : ℕ)
      → i ≢ j
      → find_key i a.idempotency_key db.reservations ≡ none
      → find_reservation c.new_id db.reservations ≡ none
      → let enough = leb_ℤ a.quantity (pos it.available_inventory) in
        let q = pos_part a.quantity in
        let db' = (process_attempt u a ttl c db).1 in
        ((process_attempt u a ttl c db).0
          ≡ ok (record {
            reservation_id = u.show c.new_id;
            status = if enough then reserved else rejected;
            replayed = false;
          }))
        × (find_item i db'.items
            ≡ some (record it {
              available_inventory =
                  if enough then it.available_inventory - q else it.available_inventory;
            }))
        × (held i db'.reservations ≡ held i db.reservations + (if enough then q else 0))
        × (find_item j db'.items ≡ find_item j db.items)
  process_attempt_verdict j ne k n = rw (process_attempt-new k n) (recorded-verdict j ne)

refusal-none :
    (u : Uuids) (a : Attempt) (db : Db)
    → refusal u a db ≡ none
    → (i : ℕ) × (it : Item) × (u.parse a.item_id ≡ some i)
      × (find_item i db.items ≡ some it)
      × (pos 1 ≤ℤ a.quantity)
      × (a.quantity ≤ℤ pos max_int4)
unfolding refusal
refusal-none u a db r = elim (Option-cases (u.parse a.item_id)) [
  | inl bad ↦ absurd (ground arith)
  | inr (i, p) ↦ elim (Option-cases (find_item i db.items)) [
    | inl missing ↦ absurd (ground arith)
    | inr (it, f) ↦ (i, it, p, f, ground arith, ground arith)
  ]
]

-- An uninterrupted call that is not refused returns an outcome, provided the UUID drawn is new.
pub process_attempt_total :
    (u : Uuids) (a : Attempt) (ttl : ℤ) (c : Calls) (db : Db)
    → Healthy c
    → refusal u a db ≡ none
    → find_reservation c.new_id db.reservations ≡ none
    → (out : Outcome) × ((process_attempt u a ttl c db).0 ≡ ok out)
process_attempt_total u a ttl c db h r n =
    let (i, it, p, f, positive, ranged) = refusal-none u a db r in
    elim (Option-cases (find_key i a.idempotency_key db.reservations)) [
      | inl free ↦ (
        _,
        ap (λ (r : Result Error Outcome × Db). r.0)
            (process_attempt-new u a ttl c db i it h p f positive ranged free n),
      )
      | inr (old, k) ↦ (
        _,
        ap (λ (r : Result Error Outcome × Db). r.0)
            (process_attempt-old u a ttl c db i it h p f positive ranged old k),
      )
    ]
