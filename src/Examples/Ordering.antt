-- ===== src/Examples/Ordering.antt =====
-- One order on its way from cmd/checkout-api to cmd/decision-service.
use flashsale_reservation.Prelude.{
  ◌≡◌, refl, subst, true, false, Option, none, some, [], ◌∷◌, ◌++◌, length, take, arith,
}
use flashsale_reservation.Prelude.Int.{ℤ, pos, pos_part, ◌+ℤ◌, ◌-ℤ◌}
use flashsale_reservation.Prelude.Text.{Text, codes, text_eq}
use flashsale_reservation.Store.{find_item, find_key, find_reservation}
use flashsale_reservation.Decision.Verdict.{Healthy}
use flashsale_reservation.Redis.Lua.{double, to_double}
use flashsale_reservation.Redis.{
  decr_by, up, read, write, inventory_key, admission_key, consume_admission,
  try_decrement_inventory, decrement_script, incr_by,
}
use flashsale_reservation.Kafka.{
  PurchaseAttempted, Codec, Record, acknowledged, publish_attempt, drop, new_idempotency_key, hex,
  format_key,
}
use flashsale_reservation.Checkout.{
  CheckoutRequest, CheckoutResponse, Site, accepted, handle_checkout, admit, reserve, submit,
}
use flashsale_reservation.Checkout
use flashsale_reservation.Checkout.Recorded.{event_of}
use flashsale_reservation.Consumer.{Round}
use flashsale_reservation.Consumer.Loop.{Turn, Service, Setup, take_turn, commit_or_log}
use flashsale_reservation.Order.{ReadsBack, fetch_record}
use flashsale_reservation.Order.Decided.{row_for, accepted_order_is_decided}
use flashsale_reservation.Examples.Data.{uuids, phone, phone_id, full, ann, admitted, calm}

-- A codec that writes each text after its length, and each number as it is.
abbrev field : Text → Text
field t = length t ∷ t

abbrev first_field : Text → Text × Text
first_field [] = ([], [])
first_field (n ∷ s) = (take n s, drop n s)

abbrev first_number : Text → ℤ × Text
first_number [] = (pos 0, [])
first_number (n ∷ s) = (pos n, s)

abbrev codec : Codec PurchaseAttempted
codec = record {
  marshal = λ e. some (
      field e.item_id
      ++ (field e.user_id
          ++ (pos_part e.quantity ∷ (field e.idempotency_key ++ (pos_part e.attempted_at ∷ [])))));
  unmarshal = λ s.
      let (item, s1) = first_field s in
      let (user, s2) = first_field s1 in
      let (quantity, s3) = first_number s2 in
      let (key, s4) = first_field s3 in
      let (at, s5) = first_number s4 in
      some (record {
        item_id = item;
        user_id = user;
        quantity = quantity;
        idempotency_key = key;
        attempted_at = at;
      });
}

abbrev calls : Checkout.Calls
calls = record {
  consume = up;
  consume_at = pos 5;
  decrement = up;
  decrement_at = pos 6;
  random = some (1 ∷ 2 ∷ 3 ∷ []);
  attempted_at = pos 7;
  delivery = acknowledged;
  release = up;
  release_at = pos 8;
  grant = up;
  grant_at = pos 9;
  stamp = codes "t2";
  client_gone = false;
}

abbrev request : CheckoutRequest
request = record { user_id = ann; quantity = pos 2 }

abbrev site : Site
site = record { redis = admitted; topic = [] }

abbrev told : CheckoutResponse
told = record {
  item_id = phone_id;
  user_id = ann;
  quantity = pos 2;
  remaining = pos 3;
  idempotency_key = codes "010203----";
}

abbrev written : Record
written = record {
  key = phone_id;
  value = 1 ∷ 7 ∷ 3 ∷ (ann ++ (2 ∷ 10 ∷ (codes "010203----" ++ (7 ∷ []))));
}

abbrev setup : Setup
setup = record {
  policy = record {
    max_attempts = pos 5;
    max_elapsed = pos 0;
    base_backoff = pos 1;
    max_backoff = pos 8;
  };
  uuids = uuids;
  reservation_ttl = pos 60;
  attempts = codec;
  letters = record { marshal = λ d. some d.original_value; unmarshal = λ t. none };
  text_of = λ c. [];
}

abbrev round : Round
round = record { calls = calm; elapsed = pos 0; slept = true }

abbrev fetch : Turn
fetch = record {
  message = fetch_record written (pos 0) (pos 12);
  rounds = round ∷ [];
  failed_at = pos 50;
  dead_letter_delivery = acknowledged;
  commit_works = true;
}

abbrev service : Service
service = record { db = full; commits = []; dead_letters = [] }

calm-Healthy : Healthy calm
calm-Healthy = record {
  begins = refl;
  locks = refl;
  inserts = refl;
  looks_up = refl;
  updates = refl;
  commits = refl;
}

site-accepted :
    (handle_checkout codec calls (pos 60) phone_id (some request) site).0.body ≡ accepted told
unfolding handle_checkout admit reserve submit consume_admission try_decrement_inventory
    decrement_script decr_by to_double double incr_by publish_attempt new_idempotency_key read write
    text_eq inventory_key admission_key ◌+ℤ◌ ◌-ℤ◌ hex format_key
site-accepted = refl

site-written :
    (handle_checkout codec calls (pos 60) phone_id (some request) site).1.topic
    ≡ site.topic ++ (written ∷ [])
unfolding handle_checkout admit reserve submit consume_admission try_decrement_inventory
    decrement_script decr_by to_double double incr_by publish_attempt new_idempotency_key read write
    text_eq inventory_key admission_key ◌+ℤ◌ ◌-ℤ◌ hex format_key
site-written = refl

value_of : (s t : Text) → ◌≡◌ {A = Option Text} (some s) (some t) → s ≡ t
value_of s t e = cc

told-ReadsBack : ReadsBack codec (event_of told (pos 7))
told-ReadsBack v e =
    subst (λ w. codec.unmarshal w ≡ some (event_of told (pos 7))) (value_of written.value v e) refl

accepted_order_is_decided_example :
    let (goes_on, v') = take_turn setup fetch service in
    (find_key 7 (codes "010203----") v'.db.reservations ≡ some (row_for setup round told 7 phone))
    × (ann ≡ ann)
    × (pos 2 ≡ pos 2)
    × (goes_on ≡ true)
    × (v'.commits ≡ commit_or_log fetch [])
    × (v'.dead_letters ≡ [])
unfolding find_item find_key find_reservation
accepted_order_is_decided_example =
    accepted_order_is_decided setup calls (pos 60) phone_id request told site written [] [] (pos 0)
      (pos 12) fetch service round [] 7 phone site-accepted site-written told-ReadsBack refl refl
      calm-Healthy refl refl (omega arith) refl refl
