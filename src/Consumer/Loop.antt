-- ===== src/Consumer/Loop.antt =====
-- cmd/decision-service/main.go: `runConsumeLoop`, `sendToDeadLetter` and `commitOrLog`.
use flashsale_reservation.Prelude.{ℕ, Bool, true, false, List, [], ◌∷◌, ◌++◌, if◌then◌else◌}
use flashsale_reservation.Prelude.Int.{ℤ}
use flashsale_reservation.Prelude.Text.{Text}
use flashsale_reservation.Prelude.Result.{ok, err}
use flashsale_reservation.Store.{Db, Uuids}
use flashsale_reservation.Decision.{Attempt, Error}
use flashsale_reservation.Retry.{Policy}
use flashsale_reservation.Kafka.{
  PurchaseAttempted, DeadLetter, Codec, Delivery, Record, decode_attempt, publish_dead_letter,
}
use flashsale_reservation.Consumer.{
  Round, Verdict, committed, dead_lettered, shut_down, waiting, handle,
}

pub record Message : Type 0 where
  pub topic : Text
  pub partition : ℤ
  pub offset : ℤ
  pub key : Text
  pub value : Text

-- Why a message is given up, and the text of that error.
pub data Cause : Type 0 where
  undecodable : Cause
  processing : Error → Cause

-- One turn of the outer loop meets: a message with all that its handling meets, an error of
-- `FetchMessage`, or the cancelled context.
pub record Turn : Type 0 where
  pub message : Message
  pub rounds : List Round
  pub failed_at : ℤ
  pub dead_letter_delivery : Delivery
  pub commit_works : Bool

pub data Fetch : Type 0 where
  fetched : Turn → Fetch
  fetch_failed cancelled : Fetch

pub record Service : Type 0 where
  pub db : Db
  pub commits : List Message
  pub dead_letters : List Record

pub record Setup : Type 0 where
  pub policy : Policy
  pub uuids : Uuids
  pub reservation_ttl : ℤ
  pub attempts : Codec PurchaseAttempted
  pub letters : Codec DeadLetter
  pub text_of : Cause → Text

unfoldable pub send_to_dead_letter : Setup → Turn → Cause → ℕ → List Record → List Record
send_to_dead_letter s t cause count log =
    (publish_dead_letter s.letters t.dead_letter_delivery
      (record {
        original_topic = t.message.topic;
        original_partition = t.message.partition;
        original_offset = t.message.offset;
        original_key = t.message.key;
        original_value = t.message.value;
        reason = s.text_of cause;
        attempt_count = count;
        failed_at = t.failed_at;
      })
      log).1

abbrev pub commit_or_log : Turn → List Message → List Message
commit_or_log t commits = if t.commit_works then commits ++ (t.message ∷ []) else commits

abbrev pub to_attempt : PurchaseAttempted → Attempt
to_attempt e = record {
  item_id = e.item_id;
  user_id = e.user_id;
  quantity = e.quantity;
  idempotency_key = e.idempotency_key;
}

abbrev pub give_up : Setup → Turn → Cause → ℕ → Db → Service → Service
give_up s t cause count db v = record {
  db = db;
  commits = commit_or_log t v.commits;
  dead_letters = send_to_dead_letter s t cause count v.dead_letters;
}

-- How the inner loop's end is carried out, and whether the outer loop goes on. `waiting` is a loop
-- that is still in its rounds: nothing follows it.
abbrev pub finish : Setup → Turn → Verdict → Db → Service → Bool × Service
finish s t (committed out) db v = (true, record v { db = db; commits = commit_or_log t v.commits })
finish s t (dead_lettered e n) db v = (true, give_up s t (processing e) n db v)
finish s t shut_down db v = (false, record v { db = db })
finish s t waiting db v = (false, record v { db = db })

unfoldable pub take_turn : Setup → Turn → Service → Bool × Service
take_turn s t v = elim (decode_attempt s.attempts t.message.value) [
  | err e ↦ (true, give_up s t undecodable 0 v.db v)
  | ok event ↦
      let h = handle s.policy s.uuids s.reservation_ttl (to_attempt event) t.rounds 0 0 v.db in
      finish s t h.verdict h.db v
]

unfoldable pub run_consume_loop : Setup → List Fetch → Service → Service
run_consume_loop s [] v = v
run_consume_loop s (cancelled ∷ fs) v = v
run_consume_loop s (fetch_failed ∷ fs) v = run_consume_loop s fs v
run_consume_loop s (fetched t ∷ fs) v =
    let (goes_on, v') = take_turn s t v in
    let rest = run_consume_loop s fs v' in if goes_on then rest else v'
