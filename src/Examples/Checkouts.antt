-- ===== src/Examples/Checkouts.antt =====
-- Runs of cmd/checkout-api and internal/reconcile.
use flashsale_reservation.Prelude.{◌≡◌, ◌⊎◌, refl, true, false, none, some, List, [], ◌∷◌, arith}
use flashsale_reservation.Prelude.Int.{pos, ◌+ℤ◌, ◌-ℤ◌}
use flashsale_reservation.Prelude.Text.{codes, text_eq}
use flashsale_reservation.Prelude.Result.{ok}
use flashsale_reservation.Redis.Lua.{double, to_double}
use flashsale_reservation.Redis.{
  decr_by, Entry, text, up, read, admission_key, inventory_key, write, consume_admission,
  try_decrement_inventory, decrement_script, incr_by,
}
use flashsale_reservation.Redis.FastPath.{Counts}
use flashsale_reservation.Kafka.{
  PurchaseAttempted, Codec, acknowledged, failed, publish_attempt, new_idempotency_key,
}
use flashsale_reservation.Checkout.{
  CheckoutRequest, Site, Calls, submit, reserve, admit, handle_checkout,
}
use flashsale_reservation.Checkout.Admitted.{IsValid}
use flashsale_reservation.Checkout.Cancelled.{cancelled_checkout_strands}
use flashsale_reservation.Checkout.Gate.{accepted_checkout_had_token}
use flashsale_reservation.Reconcile.{Call}
use flashsale_reservation.Reconcile.{
  Outcome, reconcile_all, active_item_ids, active_rows, insert_by_id,
}
use flashsale_reservation.Reconcile.Pass.{Settled, reconcile_all_mirrors}
use flashsale_reservation.Prelude.{map, All}
use flashsale_reservation.Examples.Data.{uuids, phone_id, full, ann, admitted}

abbrev pub codec : Codec PurchaseAttempted
codec = record { marshal = λ e. some (1 ∷ e.user_id); unmarshal = λ t. none }

abbrev pub calls : Calls
calls = record {
  consume = up;
  consume_at = pos 5;
  decrement = up;
  decrement_at = pos 6;
  random = some (1 ∷ 2 ∷ 3 ∷ []);
  attempted_at = pos 7;
  delivery = acknowledged;
  release = up;
  release_at = pos 8;
  grant = up;
  grant_at = pos 9;
  stamp = codes "t2";
  client_gone = false;
}

-- The client leaves while the event is being written.
abbrev pub left : Calls
left = record calls { delivery = failed; client_gone = true }

abbrev pub request : CheckoutRequest
request = record { user_id = ann; quantity = pos 2 }

abbrev pub site : Site
site = record { redis = admitted; topic = [] }

request-IsValid : IsValid phone_id request 2
request-IsValid = (refl, refl, refl, omega arith)

cancelled_checkout_strands_example :
    let (response, s') = handle_checkout codec left (pos 60) phone_id (some request) site in
    ((response.status ≡ 500) ⊎ (response.status ≡ 503))
    × Counts phone_id 3 s'.redis
    × (s'.redis (admission_key phone_id ann) ≡ none)
    × (s'.topic ≡ [])
unfolding read text_eq inventory_key admission_key
cancelled_checkout_strands_example =
    cancelled_checkout_strands codec left (pos 60) phone_id request site 5 2
      (record { value = text (codes "t"); expires_at = some (pos 60) }) request-IsValid refl refl
      refl refl refl refl (omega arith) (omega arith)

answered : (handle_checkout codec calls (pos 60) phone_id (some request) site).0.status ≡ 200
unfolding handle_checkout admit reserve submit consume_admission try_decrement_inventory
    decrement_script decr_by to_double double incr_by publish_attempt new_idempotency_key read write
    text_eq inventory_key admission_key ◌+ℤ◌ ◌-ℤ◌
answered = refl

accepted_checkout_had_token_example :
    (e : Entry) × (read (pos 5) (admission_key phone_id ann) admitted ≡ some e)
accepted_checkout_had_token_example =
    accepted_checkout_had_token codec calls (pos 60) phone_id request site answered

abbrev warm : Call
warm = record { query = none; db = full; link = up }

reconcile_all_mirrors_example :
    let (res, r') = reconcile_all uuids none full (λ id. warm) admitted in
    (outcomes : List Outcome) × (res ≡ ok outcomes)
    × (map (λ (o : Outcome). o.item_id) outcomes ≡ phone_id ∷ [])
    × All (Settled uuids (λ id. warm) r') outcomes
unfolding active_item_ids active_rows insert_by_id
reconcile_all_mirrors_example =
    reconcile_all_mirrors uuids none full (λ id. warm) admitted (phone_id ∷ []) refl (tt, tt)
