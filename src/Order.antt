-- ===== src/Order.antt =====
-- An order on its way through cmd/checkout-api, the topic of attempts and cmd/decision-service.
pub mod Decided
use flashsale_reservation.Prelude.{◌≡◌, Option, some, List, [], ◌∷◌, ◌++◌}
use flashsale_reservation.Prelude.Int.{ℤ}
use flashsale_reservation.Prelude.Text.{Text, codes}
use flashsale_reservation.Kafka.{PurchaseAttempted, Codec, Record}
use flashsale_reservation.Checkout.{CheckoutResponse}
use flashsale_reservation.Consumer.Loop.{Message}

-- `encoding/json` reads the event back from what it wrote, as it does for strings of valid UTF-8.
abbrev pub ReadsBack : Codec PurchaseAttempted → PurchaseAttempted → Type 0
ReadsBack codec event = (v : Text) → codec.marshal event ≡ some v → codec.unmarshal v ≡ some event

-- A record of the topic as the reader fetches it.
abbrev pub fetch_record : Record → ℤ → ℤ → Message
fetch_record r partition offset = record {
  topic = codes "checkout-attempts";
  partition = partition;
  offset = offset;
  key = r.key;
  value = r.value;
}
