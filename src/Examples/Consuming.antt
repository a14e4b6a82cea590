-- ===== src/Examples/Consuming.antt =====
-- Runs of cmd/decision-service and internal/retry.
use flashsale_reservation.Prelude.{
  ◌*◌, ◌++◌, ◌≡◌, refl, true, Option, none, some, List, [], ◌∷◌, length, arith,
}
use flashsale_reservation.Prelude.Int.{pos}
use flashsale_reservation.Prelude.Text.{Text, codes}
use flashsale_reservation.Store.{driver, postgres, other_code}
use flashsale_reservation.Decision.{database}
use flashsale_reservation.Retry.{Policy, second, next_backoff}
use flashsale_reservation.Retry.Backoff.{next_backoff-eq}
use flashsale_reservation.Kafka.Copies.{copies}
use flashsale_reservation.Kafka.{Record, PurchaseAttempted, acknowledged}
use flashsale_reservation.Consumer.{Round, dead_lettered, handle}
use flashsale_reservation.Consumer.Safety.{IsFair}
use flashsale_reservation.Consumer.Retries.{handle_gives_up, outage_spends_budget}
use flashsale_reservation.Consumer.Loop.{
  Message, Turn, Fetch, fetched, fetch_failed, Service, Setup, take_turn, run_consume_loop,
}
use flashsale_reservation.Consumer.Order.{
  run_consume_loop_in_order, undecodable_to_dead_letters, messages, settled,
}
use flashsale_reservation.Prelude.{ℕ, ◌<◌, if◌then◌else◌}
use flashsale_reservation.Prelude.Text.{text_eq}
use flashsale_reservation.Env.{Env}
use flashsale_reservation.Settings.{decision_settings}
use flashsale_reservation.Mains.Fair.{decision_settings-IsFair}
use flashsale_reservation.Examples.Data.{uuids, full, order, calm}

-- A policy of two attempts.
abbrev twice : Policy
twice = record {
  max_attempts = pos 2;
  max_elapsed = pos (600 * second);
  base_backoff = pos second;
  max_backoff = pos (30 * second);
}

-- Postgres answers BEGIN with an error, or cannot be reached, a second after the first try.
abbrev failing : Round
failing = record {
  calls = record calm { begin_tx = some (postgres (other_code 1)) };
  elapsed = pos second;
  slept = true;
}

abbrev down : Round
down = record { calls = record calm { begin_tx = some driver }; elapsed = pos second; slept = true }

-- Eleven minutes after the first try.
abbrev overdue : Round
overdue = record failing { elapsed = pos (660 * second) }

handle_gives_up_example :
    let h = handle twice uuids (pos 60) order (failing ∷ failing ∷ failing ∷ []) 0 0 full in
    (h.verdict ≡ dead_lettered (database (postgres (other_code 1))) 2) × (length h.backoffs ≡ 2)
handle_gives_up_example =
    handle_gives_up twice uuids (pos 60) order (failing ∷ failing ∷ []) failing 2 full
      (other_code 1) (omega arith) refl (omega arith) (omega arith)
      ((refl, refl, omega arith), ((refl, refl, omega arith), tt)) (refl, refl, omega arith) refl

outage_spends_budget_example :
    (handle twice uuids (pos 60) order (down ∷ overdue ∷ []) 0 0 full).verdict
    ≡ dead_lettered (database (postgres (other_code 1))) 0
outage_spends_budget_example =
    outage_spends_budget twice uuids (pos 60) order (down ∷ []) [] overdue 0 full (other_code 1)
      (omega arith) (omega arith) ((refl, refl), tt) refl (omega arith)

-- Only the number of retries is set.
abbrev env : Env
env key = if text_eq key (codes "DECISION_MAX_RETRIES") then codes "2" else []

decision_settings-IsFair_example :
    let f = decision_settings env in
    (m : ℕ) × (f.policy.max_attempts ≡ pos m)
    × (0 < m)
    × IsFair m
        (handle f.policy uuids f.reservation_ttl order
          (failing ∷ down ∷ failing ∷ [])
          0
          0
          full).verdict
decision_settings-IsFair_example =
    decision_settings-IsFair env uuids order (failing ∷ down ∷ failing ∷ []) full

-- A message is the buyer's id behind a first byte of the format's version; an empty one is bad.
abbrev read_attempt : Text → Option PurchaseAttempted
read_attempt [] = none
read_attempt (b ∷ t) = some (record {
  item_id = 7 ∷ [];
  user_id = t;
  quantity = pos 2;
  idempotency_key = codes "k1";
  attempted_at = pos 0;
})

abbrev setup : Setup
setup = record {
  policy = twice;
  uuids = uuids;
  reservation_ttl = pos 60;
  attempts = record { marshal = λ e. some (1 ∷ e.user_id); unmarshal = read_attempt };
  letters = record {
    marshal = λ l. some (l.attempt_count ∷ l.original_key);
    unmarshal = λ t. none;
  };
  text_of = λ cause. codes "failed";
}

-- A turn for a message, all of whose calls are answered.
abbrev turn_for : Text → Turn
turn_for value = record {
  message = record {
    topic = codes "purchase-attempts";
    partition = pos 0;
    offset = pos 12;
    key = 7 ∷ [];
    value = value;
  };
  rounds = record { calls = calm; elapsed = pos second; slept = true } ∷ [];
  failed_at = pos 9;
  dead_letter_delivery = acknowledged;
  commit_works = true;
}

abbrev started : Service
started = record { db = full; commits = []; dead_letters = [] }

abbrev fetches : List Fetch
fetches =
    fetched (turn_for (codes "1ann"))
    ∷ fetch_failed
    ∷ fetched (turn_for [])
    ∷ fetched (record (turn_for (codes "1bob")) { rounds = [] })
    ∷ []

run_consume_loop_in_order_example :
    ((run_consume_loop setup fetches started).commits ≡ settled setup fetches full)
    × ((rest : List Message) × (messages fetches ≡ settled setup fetches full ++ rest))
run_consume_loop_in_order_example =
    run_consume_loop_in_order setup fetches started (refl, (tt, (refl, (refl, tt))))

undecodable_to_dead_letters_example :
    let v = (take_turn setup (turn_for []) started).1 in
    ((take_turn setup (turn_for []) started).0 ≡ true)
    × (v.db ≡ full)
    × (v.commits ≡ (turn_for []).message ∷ [])
    × ((k : ℕ) × (let letter : Record = record { key = 7 ∷ []; value = 0 ∷ 7 ∷ [] } in
          v.dead_letters ≡ letter ∷ copies k letter))
undecodable_to_dead_letters_example =
    undecodable_to_dead_letters setup (turn_for []) started (0 ∷ 7 ∷ []) refl (λ e. cc) refl refl

next_backoff-eq_example : next_backoff twice (pos 4) ≡ pos (8 * second)
next_backoff-eq_example =
    next_backoff-eq twice 4 second (30 * second) refl refl (omega arith) (omega arith)
