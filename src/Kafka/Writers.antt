-- ===== src/Kafka/Writers.antt =====
-- internal/kafkax: the topics, the writers and the reader that the services make, and the partition
-- that a record goes to. How kafka-go hashes a key, and where a writer without a balancer puts a
-- record, are parameters.
use flashsale_reservation.Prelude.{
  ℕ, suc, ◌*◌, ◌%◌, Bool, false, Option, none, some, List, [], ◌∷◌, ◌==◌, if◌then◌else◌,
}
use flashsale_reservation.Prelude.Text.{Text, codes}
use flashsale_reservation.Prelude.Result.{Result, ok, err}
use flashsale_reservation.Kafka.{
  PurchaseAttempted, BuyerJoined, Codec, Delivery, Record, Error, not_decoded, publish_attempt,
}

abbrev pub checkout_attempts_topic : Text
checkout_attempts_topic = codes "checkout-attempts"

abbrev pub waiting_room_joins_topic : Text
waiting_room_joins_topic = codes "waiting-room-joins"

abbrev pub dead_letter_topic : Text
dead_letter_topic = codes "checkout-attempts-dlq"

pub data Balancer : Type 0 where
  by_hash by_default : Balancer

-- Fields that a constructor leaves out are `none`: the library's default. Times are milliseconds.
-- `required_acks` is a number of replicas: RequireOne.
pub record Writer : Type 0 where
  pub addr : List Text
  pub topic : Text
  pub balancer : Balancer
  pub required_acks : ℕ
  pub async : Bool
  pub max_attempts : Option ℕ
  pub write_backoff_min : Option ℕ
  pub write_backoff_max : Option ℕ

unfoldable pub new_writer : List Text → Writer
new_writer brokers = record {
  addr = brokers;
  topic = checkout_attempts_topic;
  balancer = by_hash;
  required_acks = 1;
  async = false;
  max_attempts = some 5;
  write_backoff_min = some 100;
  write_backoff_max = some (2 * 1000);
}

unfoldable pub new_waiting_room_writer : List Text → Writer
new_waiting_room_writer brokers = record {
  addr = brokers;
  topic = waiting_room_joins_topic;
  balancer = by_hash;
  required_acks = 1;
  async = false;
  max_attempts = some 5;
  write_backoff_min = some 100;
  write_backoff_max = some (2 * 1000);
}

unfoldable pub new_dlq_writer : List Text → Writer
new_dlq_writer brokers = record {
  addr = brokers;
  topic = dead_letter_topic;
  balancer = by_default;
  required_acks = 1;
  async = false;
  max_attempts = none;
  write_backoff_min = none;
  write_backoff_max = none;
}

pub record Reader : Type 0 where
  pub brokers : List Text
  pub topic : Text
  pub group_id : Text
  pub min_bytes : ℕ
  pub max_bytes : ℕ

unfoldable pub new_reader : List Text → Text → Reader
new_reader brokers group_id = record {
  brokers = brokers;
  topic = checkout_attempts_topic;
  group_id = group_id;
  min_bytes = 1;
  max_bytes = 10_000_000;
}

unfoldable pub decode_buyer_joined : Codec BuyerJoined → Text → Result Error BuyerJoined
decode_buyer_joined codec value = elim (codec.unmarshal value) [
  | none ↦ err not_decoded
  | some event ↦ ok event
]

-- The partitions of a topic, how a key is hashed, and where the library's default balancer puts the
-- n-th record.
pub record Topic : Type 0 where
  pub partitions : ℕ
  pub hash : Text → ℕ
  pub default_place : ℕ → ℕ

abbrev pub partition_of : Topic → Balancer → ℕ → Text → ℕ
partition_of f by_hash n key = f.hash key % f.partitions
partition_of f by_default n key = f.default_place n

-- The records of one partition, in order, of those that a writer has sent, counted from the n-th.
unfoldable pub partition_log : Topic → Writer → ℕ → ℕ → List Record → List Record
partition_log f w p n [] = []
partition_log f w p n (m ∷ log) =
    let rest = partition_log f w p (suc n) log in
    if partition_of f w.balancer n m.key == p then m ∷ rest else rest

-- Many calls of `PublishAttempt`, one after the other, each with the end of its write.
unfoldable pub publish_all :
    Codec PurchaseAttempted → List (Delivery × PurchaseAttempted) → List Record → List Record
publish_all codec [] log = log
publish_all codec ((d, event) ∷ events) log =
    publish_all codec events (publish_attempt codec d event log).1
