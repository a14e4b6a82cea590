-- ===== src/Checkout.antt =====
-- cmd/checkout-api/main.go: the checkout, inventory and reconcile handlers over Redis and Kafka.
-- A handler's request is its path value and its body as `encoding/json` decodes it.
pub mod Effects
pub mod NoOversell
pub mod Admitted
pub mod Outcomes
pub mod Cancelled
pub mod Gate
pub mod Recorded
pub mod Others
pub mod Steps
pub mod Alone
pub mod Advance
pub mod Elsewhere
pub mod Interleaved
use flashsale_reservation.Prelude.{
  ℕ, Bool, true, false, Option, none, some, List, [], ◌∷◌, if◌then◌else◌,
}
use flashsale_reservation.Prelude.Int.{ℤ, pos, leb_ℤ}
use flashsale_reservation.Prelude.Text.{Text, codes, text_eq}
use flashsale_reservation.Prelude.Result.{Result, ok, err}
use flashsale_reservation.Redis.{
  Redis, Link, cut, inventory_not_found, insufficient_inventory, grant_admission, consume_admission,
  try_decrement_inventory, release_inventory, get_inventory,
}
use flashsale_reservation.Redis
use flashsale_reservation.Kafka.{
  PurchaseAttempted, Codec, Delivery, Record, publish_attempt, new_idempotency_key,
}

pub record CheckoutRequest : Type 0 where
  pub user_id : Text
  pub quantity : ℤ

pub record CheckoutResponse : Type 0 where
  pub item_id : Text
  pub user_id : Text
  pub quantity : ℤ
  pub remaining : ℤ
  pub idempotency_key : Text

-- `httpx.ErrorResponse`, the accepted checkout (its two constant texts left out), or a count.
pub data Body : Type 0 where
  failure : Text → Body
  accepted : CheckoutResponse → Body
  available : Text → ℤ → Body

pub record Response : Type 0 where
  pub status : ℕ
  pub body : Body

-- The stores that a checkout changes: Redis, and the topic of attempts.
pub record Site : Type 0 where
  pub redis : Redis
  pub topic : List Record

-- What one request meets: the state of each connection and the clock at each command, the random
-- bytes, how the write to Kafka ends, and whether r.Context() has ended by the time that a failed
-- submission is undone, since its client has gone.
pub record Calls : Type 0 where
  pub consume : Link
  pub consume_at : ℤ
  pub decrement : Link
  pub decrement_at : ℤ
  pub random : Option (List ℕ)
  pub attempted_at : ℤ
  pub delivery : Delivery
  pub release : Link
  pub release_at : ℤ
  pub grant : Link
  pub grant_at : ℤ
  pub stamp : Text
  pub client_gone : Bool

abbrev pub refuse : ℕ → Text → Response
refuse status message = record { status = status; body = failure message }

-- On a context that has ended, no command is sent.
abbrev pub on_context : Bool → Link → Link
on_context true link = cut
on_context false link = link

-- The first argument is whether the context that it is called with has ended. Errors of the two
-- commands are logged and dropped.
unfoldable pub release_and_regrant : Bool → Calls → ℤ → Text → CheckoutRequest → Redis → Redis
release_and_regrant ended c ttl item req r =
    (grant_admission (on_context ended c.grant) c.grant_at c.stamp item req.user_id ttl
      (release_inventory (on_context ended c.release) c.release_at item req.quantity r).1).1

-- With the inventory taken: the key, the event, and the write that makes it durable.
unfoldable pub submit :
    Codec PurchaseAttempted → Calls → ℤ → Text → CheckoutRequest → ℤ → Site → Response × Site
submit codec c ttl item req remaining s = elim (new_idempotency_key c.random) [
  | err e ↦ (
    refuse 500 (codes "failed to submit purchase attempt -- try again"),
    record s { redis = release_and_regrant c.client_gone c ttl item req s.redis },
  )
  | ok key ↦
      let event : PurchaseAttempted = record {
        item_id = item;
        user_id = req.user_id;
        quantity = req.quantity;
        idempotency_key = key;
        attempted_at = c.attempted_at;
      } in
      let (published, topic) = publish_attempt codec c.delivery event s.topic in
      elim published [
        | err e ↦ (
          refuse 503 (codes "failed to submit purchase attempt -- try again"),
          record {
            redis = release_and_regrant c.client_gone c ttl item req s.redis;
            topic = topic;
          },
        )
        | ok _ ↦ (
          record {
            status = 200;
            body = accepted (record {
              item_id = item;
              user_id = req.user_id;
              quantity = req.quantity;
              remaining = remaining;
              idempotency_key = key;
            });
          },
          record s { topic = topic },
        )
      ]
]

-- With the token spent: the fast-path inventory.
unfoldable pub reserve :
    Codec PurchaseAttempted → Calls → ℤ → Text → CheckoutRequest → Site → Response × Site
reserve codec c ttl item req s =
    let (res, r) = try_decrement_inventory c.decrement c.decrement_at item req.quantity s.redis in
    let s' : Site = record s { redis = r } in
    elim res [
      | ok remaining ↦ submit codec c ttl item req remaining s'
      | err inventory_not_found ↦ (refuse 404 (codes "item not found or not on sale"), s')
      | err insufficient_inventory ↦ (refuse 409 (codes "sold out"), s')
      | err other ↦ (refuse 500 (codes "failed to check inventory"), s')
    ]

abbrev pub is_empty : Text → Bool
is_empty [] = true
is_empty (b ∷ t) = false

-- With the request validated: the admission token.
unfoldable pub admit :
    Codec PurchaseAttempted → Calls → ℤ → Text → CheckoutRequest → Site → Response × Site
admit codec c ttl item req s =
    let (res, r) = consume_admission c.consume c.consume_at item req.user_id s.redis in
    let s' : Site = record s { redis = r } in
    elim res [
      | err e ↦ (refuse 500 (codes "failed to verify admission"), s')
      | ok false ↦
          (refuse 403 (codes "not admitted -- join the waiting room for this item first"), s')
      | ok true ↦ reserve codec c ttl item req s'
    ]

unfoldable pub handle_checkout :
    Codec PurchaseAttempted → Calls → ℤ → Text → Option CheckoutRequest → Site → Response × Site
handle_checkout codec c ttl item body s =
    if is_empty item then (refuse 400 (codes "item id is required"), s) else elim body [
      | none ↦ (refuse 400 (codes "invalid JSON body"), s)
      | some req ↦
          if is_empty req.user_id
          then (refuse 400 (codes "user_id is required"), s)
          else if leb_ℤ req.quantity (pos 0)
          then (refuse 400 (codes "quantity must be positive"), s)
          else admit codec c ttl item req s
    ]

unfoldable pub handle_get_inventory : Link → ℤ → Text → Redis → Response
handle_get_inventory link now item r =
    if is_empty item
    then refuse 400 (codes "item id is required")
    else elim (get_inventory link now item r) [
      | ok n ↦ record { status = 200; body = available item n }
      | err inventory_not_found ↦ refuse 404 (codes "item not found or not on sale")
      | err other ↦ refuse 500 (codes "failed to read inventory")
    ]
