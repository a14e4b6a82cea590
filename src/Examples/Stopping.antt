-- ===== src/Examples/Stopping.antt =====
-- A shutdown of cmd/waiting-room-api, and its requests against a line.
use flashsale_reservation.Prelude.{◌≡◌, refl, true, none, some, List, [], ◌∷◌, arith}
use flashsale_reservation.Prelude.Int.{pos}
use flashsale_reservation.Prelude.Text.{codes}
use flashsale_reservation.Http.{get, post}
use flashsale_reservation.Redis.{up}
use flashsale_reservation.Kafka.{BuyerJoined, Codec, acknowledged}
use flashsale_reservation.Admission.{joined, ticked, run}
use flashsale_reservation.Admission.Items.{line}
use flashsale_reservation.WaitingRoom.{Calls, let_through}
use flashsale_reservation.WaitingRoomApi.{Request, Room, Happening, requested, turned, run_service}
use flashsale_reservation.WaitingRoomApi.Service.{events_of, lines_move_by_turns}
use flashsale_reservation.WaitingRoomApi.Shutdown.{
  Process, Steps, here, then, request_arrives, admitter_starts, publish_starts, publish_ends,
  handler_returns, context_ends, admitter_exits, http_stopped, admitters_stopped, publishes_done,
  started, stopping_http, stopping_admitters, awaiting_publishes, returned, writer_closes_last,
}
use flashsale_reservation.Examples.Data.{phone_id, ann, stocked}

abbrev codec : Codec BuyerJoined
codec = record { marshal = λ e. some e.user_id; unmarshal = λ t. none }

abbrev calls : Calls
calls = record {
  joiner = 5;
  wait = let_through;
  grant = up;
  grant_at = pos 1;
  stamp = codes "t";
  remote_addr = codes "::1";
  joined_at = pos 1;
  delivery = acknowledged;
}

abbrev enter : Request
enter = record {
  method = post;
  path = codes "items" ∷ phone_id ∷ codes "join" ∷ [];
  body = some (record { user_id = ann });
  calls = calls;
  loop_answers = true;
  link = up;
}

abbrev ask : Request
ask = record enter { method = get; path = codes "items" ∷ phone_id ∷ codes "queue" ∷ [] }

abbrev evening : List Happening
evening =
    turned phone_id (joined 1)
    ∷ requested ask
    ∷ turned phone_id ticked
    ∷ requested enter
    ∷ turned (codes "b") (joined 2)
    ∷ []

abbrev room : Room
room = record { registry = []; site = record { redis = stocked; topic = [] } }

lines_move_by_turns_example :
    line phone_id (run_service codec (pos 60) evening room).1.registry
    ≡ (run (events_of phone_id evening) (line phone_id [])).1
lines_move_by_turns_example = lines_move_by_turns codec (pos 60) evening room phone_id

-- One request, whose publish outlives the handler and the admitter.
abbrev stopped : Process
stopped = record started { phase = returned }

abbrev at_work : Process
at_work = record started { handlers = 1; publishes = 1; admitters = 1 }

abbrev draining : Process
draining = record at_work { phase = stopping_http; handlers = 0 }

shutdown : Steps started stopped
shutdown = then _ _ _ (request_arrives started refl) (
    then _ _ _ (admitter_starts (record started { handlers = 1 }) (omega arith)) (
      then _ _ _ (publish_starts (record started { handlers = 1; admitters = 1 }) (omega arith)) (
        then _ _ _ (context_ends at_work refl) (
          then _ _ _ (handler_returns (record at_work { phase = stopping_http }) 0 refl)
            (then _ _ _ (http_stopped draining refl refl) (drained))))))
  where
    drained : Steps (record draining { phase = stopping_admitters }) stopped
    drained =
        then _ _ _
          (admitter_exits (record draining { phase = stopping_admitters }) 0 (λ e. cc) refl)
          (then _ _ _
            (admitters_stopped (record draining { phase = stopping_admitters; admitters = 0 }) refl
              refl)
            (then _ _ _
              (publish_ends (record draining { phase = awaiting_publishes; admitters = 0 }) 0 refl)
              (then _ _ _ (publishes_done (record started { phase = awaiting_publishes }) refl refl)
                (here stopped))))

writer_closes_last_example : (stopped.handlers ≡ 0) × (stopped.publishes ≡ 0)
writer_closes_last_example = writer_closes_last stopped shutdown refl refl
