-- ===== src/Examples/Waiting.antt =====
-- Runs of internal/admission and cmd/waiting-room-api.
use flashsale_reservation.Prelude.{
  ℕ, ◌+◌, ◌++◌, ◌≡◌, false, none, some, List, [], ◌∷◌, length, arith,
}
use flashsale_reservation.Prelude.Int.{pos}
use flashsale_reservation.Prelude.Text.{Text, codes}
use flashsale_reservation.Redis.{up}
use flashsale_reservation.Kafka.{BuyerJoined, PurchaseAttempted, Codec, acknowledged}
use flashsale_reservation.Checkout.{CheckoutRequest, Site}
use flashsale_reservation.Checkout
use flashsale_reservation.Admission.{
  Admitter, Event, joined, ticked, asked_depth, counted, turn, run, Registry, serve_events,
}
use flashsale_reservation.Admission.Fifo.{
  joiners, admissions, placements, run_admits_in_order, run_counts_line,
}
use flashsale_reservation.Admission.Service.{joiner_is_admitted}
use flashsale_reservation.Admission.Items.{line, only, serve_events_separates}
use flashsale_reservation.WaitingRoom.{let_through, Calls}
use flashsale_reservation.Examples.Data.{phone_id, stocked}

-- Buyers 4 and 5 are in line already.
abbrev busy : Admitter
busy = record { queue = 4 ∷ 5 ∷ []; next_position = 9 }

abbrev evening : List Event
evening = ticked ∷ joined 7 ∷ ticked ∷ asked_depth ∷ ticked ∷ []

run_admits_in_order_example :
    busy.queue ++ joiners evening ≡ admissions (run evening busy).0 ++ (run evening busy).1.queue
run_admits_in_order_example = run_admits_in_order evening busy

run_counts_line_example :
    let (replies, a') = run evening busy in
    (placements replies ≡ (7, 9) ∷ [])
    × (a'.next_position ≡ 10)
    × ((n : ℕ) × (turn asked_depth a' ≡ (counted n, a')) × (n + length (admissions replies) ≡ 3))
run_counts_line_example = run_counts_line evening busy

joiner_is_admitted_example :
    (later : List ℕ) × (admissions (run (joined 6 ∷ evening) busy).0 ≡ 4 ∷ 5 ∷ 6 ∷ later)
joiner_is_admitted_example = joiner_is_admitted evening busy 6 (omega arith)

abbrev items_events : List (Text × Event)
items_events = (phone_id, joined 1) ∷ (codes "b", joined 2) ∷ (phone_id, ticked) ∷ []

serve_events_separates_example :
    let (replies, reg) = serve_events items_events [] in
    (only phone_id replies, line phone_id reg) ≡ run (only phone_id items_events) (line phone_id [])
serve_events_separates_example = serve_events_separates items_events [] phone_id

abbrev joins : Codec BuyerJoined
joins = record { marshal = λ e. some e.user_id; unmarshal = λ t. none }

abbrev attempts : Codec PurchaseAttempted
attempts = record { marshal = λ e. some (1 ∷ e.user_id); unmarshal = λ t. none }

abbrev calls : Calls
calls = record {
  joiner = 6;
  wait = let_through;
  grant = up;
  grant_at = pos 1;
  stamp = codes "t";
  remote_addr = codes "10.0.0.1:80";
  joined_at = pos 2;
  delivery = acknowledged;
}

abbrev checkout : Checkout.Calls
checkout = record {
  consume = up;
  consume_at = pos 50;
  decrement = up;
  decrement_at = pos 51;
  random = none;
  attempted_at = pos 52;
  delivery = acknowledged;
  release = up;
  release_at = pos 53;
  grant = up;
  grant_at = pos 54;
  stamp = codes "t2";
  client_gone = false;
}

abbrev lines : Registry
lines = (phone_id, busy) ∷ []

abbrev site : Site
site = record { redis = stocked; topic = [] }
