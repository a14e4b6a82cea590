-- ===== src/Examples/Serving.antt =====
-- Runs of cmd/checkout-api and cmd/waiting-room-api as services, and of an order from one service to
-- the next.
use mathlib.Core.List.{Memᴰ}
use flashsale_reservation.Prelude.{
  ℕ, ◌+◌, ◌≤◌, ◌≡◌, ◌≢◌, refl, false, none, some, List, [], ◌∷◌, All, arith,
}
use flashsale_reservation.Prelude.Int.{pos}
use flashsale_reservation.Prelude.Text.{codes, text_eq}
use flashsale_reservation.Prelude.Result.{ok}
use flashsale_reservation.Store.{find_item}
use flashsale_reservation.Http.{get, post, route, match_path, found}
use flashsale_reservation.Redis.{up, inventory_key, admission_key}
use flashsale_reservation.Redis.FastPath.{Counts}
use flashsale_reservation.Kafka.{PurchaseAttempted, Codec, acknowledged}
use flashsale_reservation.Checkout.{
  CheckoutRequest, CheckoutResponse, Response, Site, accepted, handle_checkout, admit, reserve,
  submit,
}
use flashsale_reservation.Checkout
use flashsale_reservation.Reconcile.{Call, active_item_ids, active_rows, insert_by_id}
use flashsale_reservation.CheckoutApi.{
  Setup, Pass, Request, Event, requested, checkout, answered, routes, run_endpoint, serve_request,
  run_service, start_service,
}
use flashsale_reservation.CheckoutApi.Quiet.{IsQuiet, promised_in, quiet_traffic_never_oversells}
use flashsale_reservation.CheckoutApi.Seeded.{Answers, seeded_item_is_found}
use flashsale_reservation.Examples.Data.{uuids, phone, phone_id, full, ann, admitted}

abbrev codec : Codec PurchaseAttempted
codec = record { marshal = λ e. some (1 ∷ e.user_id); unmarshal = λ t. none }

abbrev calls : Checkout.Calls
calls = record {
  consume = up;
  consume_at = pos 5;
  decrement = up;
  decrement_at = pos 6;
  random = some (1 ∷ 2 ∷ 3 ∷ []);
  attempted_at = pos 7;
  delivery = acknowledged;
  release = up;
  release_at = pos 8;
  grant = up;
  grant_at = pos 9;
  stamp = codes "t2";
  client_gone = false;
}

abbrev warm : Call
warm = record { query = none; db = full; link = up }

abbrev setup : Setup
setup = record { uuids = uuids; codec = codec; admission_ttl = pos 60 }

abbrev buy : Request
buy = record {
  method = post;
  path = codes "items" ∷ phone_id ∷ codes "checkout" ∷ [];
  body = some (record { user_id = ann; quantity = pos 2 });
  calls = calls;
  call = warm;
  link = up;
  now = pos 5;
}

abbrev look : Request
look = record buy { method = get; path = codes "items" ∷ phone_id ∷ codes "inventory" ∷ [] }

abbrev traffic : List Event
traffic = requested buy ∷ requested look ∷ requested (record buy { path = codes "cart" ∷ [] }) ∷ []

abbrev site : Site
site = record { redis = admitted; topic = [] }

buy-routed : route routes buy.method buy.path ≡ found (checkout phone_id)
unfolding route routes match_path text_eq
buy-routed = refl

traffic-IsQuiet : All (IsQuiet phone_id) traffic
unfolding route routes match_path text_eq
traffic-IsQuiet = (((λ e. cc), tt), (((λ e. cc), tt), (((λ e. cc), tt), tt)))

quiet_traffic_never_oversells_example :
    let (answers, s') = run_service setup traffic site in
    (m : ℕ) × Counts phone_id m s'.redis × (promised_in phone_id answers + m ≤ 5)
unfolding text_eq inventory_key admission_key
quiet_traffic_never_oversells_example =
    quiet_traffic_never_oversells setup traffic site phone_id 5 traffic-IsQuiet refl (omega arith)

abbrev first_pass : Pass
first_pass = record { query = none; db = full; calls = λ id. warm }

full-active : active_item_ids uuids none full ≡ ok (phone_id ∷ [])
unfolding active_item_ids active_rows insert_by_id
full-active = refl

warm-Answers : Answers uuids (λ id. warm) phone_id 5
unfolding find_item
warm-Answers = (refl, refl, (7, phone, refl, refl, refl))

abbrev after : Site
after = (start_service setup first_pass traffic site).1

abbrev response : Response
response = (handle_checkout codec calls (pos 60) phone_id buy.body after).0

buy-answered : (serve_request setup buy after).0 ≡ answered response
unfolding serve_request run_endpoint route routes match_path text_eq
buy-answered = refl

seeded_item_is_found_example : response.status ≢ 404
seeded_item_is_found_example =
    seeded_item_is_found setup first_pass traffic site (phone_id ∷ []) phone_id 5 buy response
      full-active (Memᴰ.head refl) (tt, tt) warm-Answers (omega arith) traffic-IsQuiet buy-routed
      buy-answered
