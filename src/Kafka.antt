-- ===== src/Kafka.antt =====
-- internal/kafkax: events, messages and the producers. `encoding/json` is a parameter, a codec.
pub mod Key
pub mod Copies
pub mod Writers
pub mod Partitions
use flashsale_reservation.Prelude.{
  ℕ, zero, suc, ◌+◌, ◌-◌, ◌/◌, ◌%◌, Option, none, some, List, [], ◌∷◌, ◌++◌, take, ltb,
  if◌then◌else◌,
}
use flashsale_reservation.Prelude.Int.{ℤ}
use flashsale_reservation.Prelude.Text.{Text}
use flashsale_reservation.Prelude.Result.{Result, ok, err}

-- event.go
pub record PurchaseAttempted : Type 0 where
  pub item_id : Text
  pub user_id : Text
  pub quantity : ℤ
  pub idempotency_key : Text
  pub attempted_at : ℤ

-- waitingroom_event.go
pub record BuyerJoined : Type 0 where
  pub item_id : Text
  pub user_id : Text
  pub remote_addr : Text
  pub joined_at : ℤ

-- dlq.go
pub record DeadLetter : Type 0 where
  pub original_topic : Text
  pub original_partition : ℤ
  pub original_offset : ℤ
  pub original_key : Text
  pub original_value : Text
  pub reason : Text
  pub attempt_count : ℕ
  pub failed_at : ℤ

pub record Codec {ℓ} (A : Type ℓ) : Type ℓ where
  pub marshal : A → Option Text
  pub unmarshal : Text → Option A

-- What a producer hands to `WriteMessages`.
pub record Record : Type 0 where
  pub key : Text
  pub value : Text

-- How a synchronous write ends: acknowledged, failed with nothing written, or written with the
-- acknowledgement lost; or the acknowledgement of a try is lost and the writer, which has MaxAttempts
-- tries, writes the record again.
pub data Delivery : Type 0 where
  acknowledged failed unacknowledged : Delivery
  rewritten : Delivery → Delivery

pub data Error : Type 0 where
  not_marshaled not_published not_decoded no_random_bytes : Error

abbrev pub write_message : Delivery → Record → List Record → Result Error (Unit {0}) × List Record
write_message acknowledged m log = (ok tt, log ++ (m ∷ []))
write_message failed m log = (err not_published, log)
write_message unacknowledged m log = (err not_published, log ++ (m ∷ []))
write_message (rewritten d) m log = write_message d m (log ++ (m ∷ []))

-- The three producers: marshal, then write under the key that picks the partition.
abbrev pub publish {ℓ} :
    {A : Type ℓ}
    → Codec A
    → (A → Text)
    → Delivery
    → A
    → List Record
    → Result Error (Unit {0}) × List Record
publish codec key_of d event log = elim (codec.marshal event) [
  | none ↦ (err not_marshaled, log)
  | some v ↦ write_message d (record { key = key_of event; value = v }) log
]

unfoldable pub publish_attempt :
    Codec PurchaseAttempted
    → Delivery
    → PurchaseAttempted
    → List Record
    → Result Error (Unit {0}) × List Record
publish_attempt codec d event log = publish codec (λ e. e.item_id) d event log

unfoldable pub publish_buyer_joined :
    Codec BuyerJoined → Delivery → BuyerJoined → List Record → Result Error (Unit {0}) × List Record
publish_buyer_joined codec d event log = publish codec (λ e. e.user_id) d event log

unfoldable pub publish_dead_letter :
    Codec DeadLetter → Delivery → DeadLetter → List Record → Result Error (Unit {0}) × List Record
publish_dead_letter codec d dl log = publish codec (λ e. e.original_key) d dl log

unfoldable pub decode_attempt : Codec PurchaseAttempted → Text → Result Error PurchaseAttempted
decode_attempt codec value = elim (codec.unmarshal value) [
  | none ↦ err not_decoded
  | some attempt ↦ ok attempt
]

-- One lower-case hexadecimal digit, and `%x` of a slice of bytes.
abbrev pub hex_digit : ℕ → ℕ
hex_digit d = if ltb d 10 then b'0' + d else b'a' + (d - 10)

unfoldable pub hex : List ℕ → Text
hex [] = []
hex (b ∷ bs) = hex_digit (b / 16) ∷ hex_digit (b % 16) ∷ hex bs

abbrev pub drop : ℕ → List ℕ → List ℕ
drop zero xs = xs
drop (suc n) [] = []
drop (suc n) (x ∷ xs) = drop n xs

abbrev pub dash : ℕ
dash = b'-'

-- "%x-%x-%x-%x-%x" of b[0:4], b[4:6], b[6:8], b[8:10] and b[10:16].
unfoldable pub format_key : List ℕ → Text
format_key b =
    hex (take 4 b)
    ++ (dash
        ∷ (hex (take 2 (drop 4 b))
            ++ (dash
                ∷ (hex (take 2 (drop 6 b))
                    ++ (dash ∷ (hex (take 2 (drop 8 b)) ++ (dash ∷ hex (take 6 (drop 10 b)))))))))

-- `rand.Read` fills the 16 bytes or fails.
unfoldable pub new_idempotency_key : Option (List ℕ) → Result Error Text
new_idempotency_key none = err no_random_bytes
new_idempotency_key (some b) = ok (format_key b)
