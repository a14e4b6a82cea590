-- ===== src/Order/Decided.antt =====
-- From an accepted checkout to the reservation that decision-service writes for it.
use flashsale_reservation.Prelude.{
  ℕ, suc, ◌≡◌, inl, inr, refl, sym, ap, ◌∙◌, subst, true, some, none, List, ◌∷◌, ◌++◌, arith,
  Bool-cases, if◌then◌else◌,
}
use flashsale_reservation.Prelude.Int.{ℤ, pos, leb_ℤ, ◌≤ℤ◌, ◌+ℤ◌, pos_part}
use flashsale_reservation.Prelude.Text.{Text, text_eq_self}
use flashsale_reservation.Store.{
  Item, Reservation, reserved, rejected, Db, find_item, find_key, find_reservation, max_int4,
}
use flashsale_reservation.Decision.{new_row}
use flashsale_reservation.Decision.Effect.{recorded}
use flashsale_reservation.Decision.Verdict.{Healthy, process_attempt-new}
use flashsale_reservation.Kafka.Copies.{one_of_copies}
use flashsale_reservation.Kafka.{PurchaseAttempted, Record, decode_attempt}
use flashsale_reservation.Checkout.{
  CheckoutRequest, CheckoutResponse, Site, accepted, handle_checkout,
}
use flashsale_reservation.Checkout
use flashsale_reservation.Consumer.{Round, handle, next_round}
use flashsale_reservation.Consumer.Loop.{
  Message, Turn, Service, Setup, to_attempt, take_turn, commit_or_log,
}
use flashsale_reservation.Order.{ReadsBack, fetch_record}
use flashsale_reservation.Checkout.Recorded.{event_of, handle_checkout-Recorded}

-- The row that decision-service writes for an accepted order: reserved with a deadline if the stock
-- covers the quantity, else rejected.
abbrev pub row_for : Setup → Round → CheckoutResponse → ℕ → Item → Reservation
row_for s x r i it =
    let enough = leb_ℤ r.quantity (pos it.available_inventory) in
    record {
      id = x.calls.new_id;
      item_id = i;
      user_id = r.user_id;
      quantity = pos_part r.quantity;
      status = if enough then reserved else rejected;
      idempotency_key = r.idempotency_key;
      expires_at = if enough then some (x.calls.now +ℤ s.reservation_ttl) else none;
    }

module _ (s : Setup) (t : Turn) (v : Service) (x : Round) (xs : List Round)
    (event : PurchaseAttempted) (i : ℕ) (it : Item)
    (reads : s.attempts.unmarshal t.message.value ≡ some event) (rounds : t.rounds ≡ x ∷ xs)
    (healthy : Healthy x.calls) (p : s.uuids.parse event.item_id ≡ some i)
    (f : find_item i v.db.items ≡ some it) (positive : pos 1 ≤ℤ event.quantity)
    (ranged : event.quantity ≤ℤ pos max_int4)
    (k : find_key i event.idempotency_key v.db.reservations ≡ none)
    (n : find_reservation x.calls.new_id v.db.reservations ≡ none) where
  take_turn-new :
      let a = to_attempt event in
      take_turn s t v ≡ (
        true,
        record v {
          db = recorded a s.reservation_ttl x.calls i it v.db;
          commits = commit_or_log t v.commits;
        },
      )
  unfolding take_turn decode_attempt handle next_round
  take_turn-new =
      let once =
        process_attempt-new s.uuids (to_attempt event) s.reservation_ttl x.calls v.db i it healthy p
          f positive ranged k n in
      ground (arith, once)

row_for-recorded :
    (s : Setup) (x : Round) (r : CheckoutResponse) (at : ℤ) (i : ℕ) (it : Item) (db : Db)
    → find_key i r.idempotency_key
        (recorded (to_attempt (event_of r at)) s.reservation_ttl x.calls i it db).reservations
      ≡ some (row_for s x r i it)
unfolding recorded new_row find_key
row_for-recorded s x r at i it db =
    elim (Bool-cases (leb_ℤ r.quantity (pos it.available_inventory))) [
      | inl enough ↦ ground (arith, text_eq_self r.idempotency_key)
      | inr short ↦ ground (arith, text_eq_self r.idempotency_key)
    ]

-- An accepted order is decided: when checkout-api answers with an accepted order `r`, a record that it
-- appended to the topic, the only one or one of the copies that the writer's retries left, is fetched (whatever its partition and offset), its event reads back as it
-- was written, and the first call of `ProcessAttempt` is uninterrupted, for an item that exists, a
-- quantity in the range of INTEGER, a key that no row of the item has yet and a UUID drawn that is
-- new, then the tables hold a row under the order's key with its user and quantity, reserved with a
-- deadline if the stock covers it and else rejected; the offset is committed where the commit goes
-- through, and nothing is dead-lettered.
pub accepted_order_is_decided :
    (s : Setup) (c : Checkout.Calls) (ttl : ℤ) (item : Text) (req : CheckoutRequest)
    (r : CheckoutResponse) (site : Site) (rec : Record) (before after : List Record)
    (partition offset : ℤ) (t : Turn) (v : Service) (x : Round) (xs : List Round) (i : ℕ)
    (it : Item)
    → (handle_checkout s.attempts c ttl item (some req) site).0.body ≡ accepted r
    → (handle_checkout s.attempts c ttl item (some req) site).1.topic
      ≡ site.topic ++ (before ++ (rec ∷ after))
    → ReadsBack s.attempts (event_of r c.attempted_at)
    → t.message ≡ fetch_record rec partition offset
    → t.rounds ≡ x ∷ xs
    → Healthy x.calls
    → s.uuids.parse item ≡ some i
    → find_item i v.db.items ≡ some it
    → req.quantity ≤ℤ pos max_int4
    → find_key i r.idempotency_key v.db.reservations ≡ none
    → find_reservation x.calls.new_id v.db.reservations ≡ none
    → let (goes_on, v') = take_turn s t v in
      (find_key i r.idempotency_key v'.db.reservations ≡ some (row_for s x r i it))
      × (r.user_id ≡ req.user_id)
      × (r.quantity ≡ req.quantity)
      × (goes_on ≡ true)
      × (v'.commits ≡ commit_or_log t v.commits)
      × (v'.dead_letters ≡ v.dead_letters)
accepted_order_is_decided s c ttl item req r site rec before after partition offset t v x xs i it
      answer appended back fetched rounds healthy p f ranged k n =
    let (positive, (ei, eu, eq, (w, marshaled, again, topic))) =
      handle_checkout-Recorded s.attempts c ttl item req r site answer in
    let same : rec.value ≡ w =
      ap (λ (m : Record). m.value)
        (one_of_copies (suc again) (record { key = item; value = w }) rec site.topic before after
          (sym appended ∙ topic)) in
    let reads : s.attempts.unmarshal t.message.value ≡ some (event_of r c.attempted_at) =
      ap (λ (m : Message). s.attempts.unmarshal m.value) fetched
      ∙ (ap s.attempts.unmarshal same ∙ back w marshaled) in
    let turn =
      take_turn-new s t v x xs (event_of r c.attempted_at) i it reads rounds healthy
        (ap s.uuids.parse ei ∙ p) f (subst (λ q. pos 1 ≤ℤ q) (sym eq) (omega (arith, positive)))
        (subst (λ q. q ≤ℤ pos max_int4) (sym eq) ranged) k n in
    rw turn (row_for-recorded s x r c.attempted_at i it v.db, eu, eq, refl, refl, refl)
