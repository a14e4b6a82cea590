-- ===== src/Checkout/Steps.antt =====
-- cmd/checkout-api/main.go, handleCheckout command by command: net/http runs handlers at the same time,
-- and only a single command to Redis or Kafka is atomic. What the client sends again follows at once.
use flashsale_reservation.Prelude.{
  ℕ, zero, suc, true, false, Option, none, some, List, [], ◌∷◌, if◌then◌else◌,
}
use flashsale_reservation.Prelude.Int.{ℤ, pos, leb_ℤ}
use flashsale_reservation.Prelude.Text.{Text, codes}
use flashsale_reservation.Prelude.Result.{ok, err}
use flashsale_reservation.Redis.{
  inventory_not_found, insufficient_inventory, grant_admission, consume_admission,
  try_decrement_inventory, release_inventory,
}
use flashsale_reservation.Kafka.{PurchaseAttempted, Codec, publish_attempt, new_idempotency_key}
use flashsale_reservation.Checkout.{
  CheckoutRequest, accepted, Response, Site, Calls, refuse, on_context, is_empty,
}

-- What a handler has done so far: nothing, taken the token, taken the inventory (with what remains),
-- failed to submit (with the status to answer), released the inventory again, or answered.
pub data Stage : Type 0 where
  arrived : Stage
  token_spent : CheckoutRequest → Stage
  inventory_taken : CheckoutRequest → ℤ → Stage
  submit_failed released : CheckoutRequest → ℕ → Stage
  answered : Response → Stage

abbrev pub not_submitted : ℕ → Response
not_submitted status = refuse status (codes "failed to submit purchase attempt -- try again")

-- The handler's next command.
unfoldable pub advance :
    Codec PurchaseAttempted
    → Calls
    → ℤ
    → Text
    → Option CheckoutRequest
    → Stage
    → Site
    → Stage × Site
advance codec c ttl item none arrived s =
    if is_empty item
    then (answered (refuse 400 (codes "item id is required")), s)
    else (answered (refuse 400 (codes "invalid JSON body")), s)
advance codec c ttl item (some req) arrived s =
    if is_empty item
    then (answered (refuse 400 (codes "item id is required")), s)
    else if is_empty req.user_id
    then (answered (refuse 400 (codes "user_id is required")), s)
    else if leb_ℤ req.quantity (pos 0)
    then (answered (refuse 400 (codes "quantity must be positive")), s)
    else let (res, r) = consume_admission c.consume c.consume_at item req.user_id s.redis in
      elim res [
        | err e ↦
            (answered (refuse 500 (codes "failed to verify admission")), record s { redis = r })
        | ok false ↦ (
          answered (refuse 403 (codes "not admitted -- join the waiting room for this item first")),
          record s { redis = r },
        )
        | ok true ↦ (token_spent req, record s { redis = r })
      ]
advance codec c ttl item body (token_spent req) s =
    let (res, r) = try_decrement_inventory c.decrement c.decrement_at item req.quantity s.redis in
    elim res [
      | ok remaining ↦ (inventory_taken req remaining, record s { redis = r })
      | err inventory_not_found ↦
          (answered (refuse 404 (codes "item not found or not on sale")), record s { redis = r })
      | err insufficient_inventory ↦
          (answered (refuse 409 (codes "sold out")), record s { redis = r })
      | err other ↦
          (answered (refuse 500 (codes "failed to check inventory")), record s { redis = r })
    ]
advance codec c ttl item body (inventory_taken req remaining) s =
    elim (new_idempotency_key c.random) [
      | err e ↦ (submit_failed req 500, s)
      | ok key ↦
          let event : PurchaseAttempted = record {
            item_id = item;
            user_id = req.user_id;
            quantity = req.quantity;
            idempotency_key = key;
            attempted_at = c.attempted_at;
          } in
          let (published, topic) = publish_attempt codec c.delivery event s.topic in
          elim published [
            | err e ↦ (submit_failed req 503, record s { topic = topic })
            | ok _ ↦ (
              answered (record {
                status = 200;
                body = accepted (record {
                  item_id = item;
                  user_id = req.user_id;
                  quantity = req.quantity;
                  remaining = remaining;
                  idempotency_key = key;
                });
              }),
              record s { topic = topic },
            )
          ]
    ]
advance codec c ttl item body (submit_failed req status) s = (
  released req status,
  record s {
    redis =
        (release_inventory (on_context c.client_gone c.release) c.release_at item req.quantity
          s.redis).1;
  },
)
advance codec c ttl item body (released req status) s = (
  answered (not_submitted status),
  record s {
    redis =
        (grant_admission (on_context c.client_gone c.grant) c.grant_at c.stamp item req.user_id ttl
          s.redis).1;
  },
)
advance codec c ttl item body (answered response) s = (answered response, s)

-- A handler that runs alone.
unfoldable pub run_alone :
    ℕ
    → Codec PurchaseAttempted
    → Calls
    → ℤ
    → Text
    → Option CheckoutRequest
    → Stage
    → Site
    → Stage × Site
run_alone zero codec c ttl item body t s = (t, s)
run_alone (suc k) codec c ttl item body t s =
    let (t', s') = advance codec c ttl item body t s in run_alone k codec c ttl item body t' s'

-- A request at work.
pub record Handler : Type 0 where
  pub item : Text
  pub body : Option CheckoutRequest
  pub calls : Calls
  pub stage : Stage

-- The handler at a place in the list runs its next command.
unfoldable pub advance_at :
    Codec PurchaseAttempted → ℤ → ℕ → List Handler → Site → List Handler × Site
advance_at codec ttl i [] s = ([], s)
advance_at codec ttl zero (h ∷ hs) s =
    let (t, s') = advance codec h.calls ttl h.item h.body h.stage s in
    (record h { stage = t } ∷ hs, s')
advance_at codec ttl (suc i) (h ∷ hs) s =
    let (hs', s') = advance_at codec ttl i hs s in (h ∷ hs', s')

-- Handlers at work, in the order that the schedule gives to their commands.
unfoldable pub interleave :
    Codec PurchaseAttempted → ℤ → List ℕ → List Handler → Site → List Handler × Site
interleave codec ttl [] hs s = (hs, s)
interleave codec ttl (i ∷ schedule) hs s =
    let (hs', s') = advance_at codec ttl i hs s in interleave codec ttl schedule hs' s'
