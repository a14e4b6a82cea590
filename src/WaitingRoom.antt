-- ===== src/WaitingRoom.antt =====
-- cmd/waiting-room-api/main.go: the join and queue handlers.
pub mod Answers
use flashsale_reservation.Prelude.{
  ℕ, suc, ◌/◌, Bool, true, false, Option, none, some, List, [], ◌∷◌, if◌then◌else◌,
}
use flashsale_reservation.Prelude.Int.{ℤ, pos, negsuc, ◌-ℤ◌}
use flashsale_reservation.Prelude.Text.{Text, codes}
use flashsale_reservation.Prelude.Result.{Result, ok, err}
use flashsale_reservation.Retry.{second}
use flashsale_reservation.Redis.{Redis, Link, grant_admission, set_queue_depth}
use flashsale_reservation.Kafka.{BuyerJoined, Codec, Delivery, Record, publish_buyer_joined}
use flashsale_reservation.Admission.{
  Event, joined, asked_depth, Reply, placed, admitted, idle, counted, Registry, serve, for_item,
}
use flashsale_reservation.Checkout.{Site, is_empty}

-- How `Join` ends: its context ends in one of its three selects, which send the request to the loop,
-- receive the position, and wait for the admission; or it is admitted.
pub data Wait : Type 0 where
  not_sent not_placed not_admitted let_through : Wait

-- What the admitter's loop has received from the call, whichever way it ended.
unfoldable pub received : ℕ → Wait → List Event
received j not_sent = []
received j _ = joined j ∷ []

-- The position, if the joiner stays for it and for the admission.
abbrev position_if : Wait → Reply → Option ℕ
position_if let_through (placed j p) = some p
position_if _ _ = none

-- `registry.For(itemID).Join(ctx)`: the item's admitter is started if it is not there, and its loop
-- puts the joiner in the line unless the context ends first.
unfoldable pub join : ℕ → Wait → Text → Registry → Option ℕ × Registry
join j not_sent item reg = (none, (for_item item reg).1)
join j w item reg = let (reply, reg') = serve item (joined j) reg in (position_if w reply, reg')

pub record JoinRequest : Type 0 where
  pub user_id : Text

pub record JoinResponse : Type 0 where
  pub item_id : Text
  pub user_id : Text
  pub position : ℕ
  pub admission_ttl_seconds : ℤ

-- `int(d.Seconds())`, which drops the part of a second; durations are in nanoseconds.
abbrev pub whole_seconds : ℤ → ℤ
whole_seconds (pos n) = pos (n / second)
whole_seconds (negsuc n) = pos 0 -ℤ pos (suc n / second)

pub record QueueDepthResponse : Type 0 where
  pub item_id : Text
  pub waiting : ℕ

-- What is written to the client: nothing when it is gone.
pub data Answer : Type 0 where
  no_answer : Answer
  refused_with : ℕ → Text → Answer
  joined_line : JoinResponse → Answer
  queue_depth : QueueDepthResponse → Answer

-- `joiner` stands for the channels of the call of Join.
pub record Calls : Type 0 where
  pub joiner : ℕ
  pub wait : Wait
  pub grant : Link
  pub grant_at : ℤ
  pub stamp : Text
  pub remote_addr : Text
  pub joined_at : ℤ
  pub delivery : Delivery

-- With the buyer at the front: the token, and the event in the background, whose errors are logged.
-- The site's topic here is the waiting room's.
unfoldable pub let_in : Codec BuyerJoined → Calls → ℤ → Text → Text → ℕ → Site → Answer × Site
let_in codec c ttl item user position s =
    let (granted, r) = grant_admission c.grant c.grant_at c.stamp item user ttl s.redis in
    elim granted [
      | err e ↦ (
        refused_with 500 (codes "admitted, but failed to issue a checkout token -- try again"),
        record s { redis = r },
      )
      | ok _ ↦
          let event : BuyerJoined = record {
            item_id = item;
            user_id = user;
            remote_addr = c.remote_addr;
            joined_at = c.joined_at;
          } in
          (
            joined_line (record {
              item_id = item;
              user_id = user;
              position = position;
              admission_ttl_seconds = whole_seconds ttl;
            }),
            record { redis = r; topic = (publish_buyer_joined codec c.delivery event s.topic).1 },
          )
    ]

unfoldable pub handle_join :
    Codec BuyerJoined
    → Calls
    → ℤ
    → Text
    → Option JoinRequest
    → Registry
    → Site
    → Answer × Registry × Site
handle_join codec c ttl item body reg s =
    if is_empty item then (refused_with 400 (codes "item id is required"), reg, s) else elim body [
      | none ↦ (refused_with 400 (codes "invalid JSON body"), reg, s)
      | some req ↦
          if is_empty req.user_id
          then (refused_with 400 (codes "user_id is required"), reg, s)
          else let (placed_at, reg') = join c.joiner c.wait item reg in
            elim placed_at [
              | none ↦ (no_answer, reg', s)
              | some position ↦
                  let (answer, s') = let_in codec c ttl item req.user_id position s in
                  (answer, reg', s')
            ]
    ]

-- The loop answers `Depth`, unless the context of the request or of the service ends first.
unfoldable pub depth : Bool → Text → Registry → Option ℕ × Registry
depth answers item reg =
    if answers
    then (let (reply, reg') = serve item asked_depth reg in
        elim reply [
          | counted n ↦ (some n, reg')
          | placed j p ↦ (none, reg')
          | admitted j ↦ (none, reg')
          | idle ↦ (none, reg')
        ])
    else (none, (for_item item reg).1)

-- The depth is cached in Redis, and an error of that is logged.
unfoldable pub handle_queue_depth :
    Bool → Link → Text → Registry → Redis → Answer × Registry × Redis
handle_queue_depth answers link item reg r =
    if is_empty item
    then (refused_with 400 (codes "item id is required"), reg, r)
    else let (known, reg') = depth answers item reg in
      elim known [
        | none ↦ (refused_with 500 (codes "failed to read queue depth"), reg', r)
        | some n ↦ (
          queue_depth (record { item_id = item; waiting = n }),
          reg',
          (set_queue_depth link item (pos n) r).1,
        )
      ]
