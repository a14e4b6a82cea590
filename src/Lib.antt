-- ===== src/Lib.antt =====
-- Flash-sale reservation backend: the logic of its Go services, and what makes it correct.
--
-- The program sells a limited stock to a crowd. A buyer joins the waiting room of an item
-- (cmd/waiting-room-api), whose admitter (internal/admission) lets buyers in at a fixed rate and
-- hands each a token in Redis (internal/redisx). A checkout (cmd/checkout-api) spends the token,
-- takes units from a fast counter in Redis and publishes an attempt to Kafka (internal/kafkax). The
-- decision service (cmd/decision-service) consumes the attempts and decides each in a Postgres
-- transaction (internal/decision), under a retry policy (internal/retry) and with a dead-letter
-- topic. Reservations that lapse are released (internal/expiry), and the counters in Redis are
-- rewritten from Postgres (internal/reconcile).
--
-- Files and code:
--   Env        internal/config/env.go: String and Int, with strconv.Atoi; Settings the settings that the
--              main of each service reads.
--   Connect    internal/pgdb/pgdb.go and internal/redisx/client.go: the defaults, New and NewClient.
--   Store      migrations/000002, 000003 and the SQL text of internal/decision and internal/expiry.
--              Store/Moves is the abstract specification of how the tables may change, Store/Invariant
--              the invariant of the tables, Store/Sums the units held and on hand.
--   Tx         the end of a database/sql transaction: Commit done, failed, or with its answer lost.
--   Decision   internal/decision/processor.go: ProcessAttempt is process_attempt.
--   Expiry     internal/expiry/processor.go: FindExpiredReservations, ExpireReservation.
--   Worker     cmd/expiry-worker/main.go: runScanner, worker and their channel, as a step relation;
--              Worker/Startup what main makes of its settings.
--   Sale       the two processors in any order on one database; Sale/Ledger the ledger of units that
--              they keep, without the rows; Sale/Redelivery and Sale/Restart later deliveries of an attempt,
--              and a second reading of the topic.
--   Retry      internal/retry/policy.go: ShouldRetry, NextBackoff, DefaultPolicy.
--   Http       internal/httpx/json.go: WriteJSON, WriteError; the matching of routes by net/http, and
--              the health servers.
--   Redis      internal/redisx/keys.go, inventory.go, tokens.go, queue.go, risk.go (Redis/Risk): a
--              function of the same name for each helper, and decrement_script for the Lua script.
--   Kafka      internal/kafkax: the events, the publishers, DecodeAttempt, NewIdempotencyKey;
--              Kafka/Writers the topics, the writers and the reader, and the partition of a record.
--   Consumer   cmd/decision-service/main.go: classifyOutcome, the rounds of one message (handle), and
--              runConsumeLoop (Consumer/Loop).
--   Checkout   cmd/checkout-api/main.go: handleCheckout, split into admit, reserve and submit,
--              releaseAndRegrant, handleGetInventory; Checkout/Steps handleCheckout command by command.
--   Reconcile  internal/reconcile/reconcile.go: Item, ActiveItemIDs, All; and handleReconcileItem.
--   CheckoutApi cmd/checkout-api/main.go: newServer, runReconciler, reconcileOnce, and the start of main.
--   Admission  internal/admission: NewAdmitter, one turn of run's select, run over a list of events, For;
--              Admission/Calls Join, Depth and run as goroutines, a step relation over their channels, and
--              Admission/Sequential what it has to do with run over a list of events.
--   WaitingRoom cmd/waiting-room-api/main.go: handleJoin, handleQueueDepth; Join and Depth.
--   WaitingRoomApi cmd/waiting-room-api/main.go: newServer, the requests between the admitters' turns, and
--              main's shutdown as a step relation (WaitingRoomApi/Shutdown).
--   Order      an order from the answer of checkout-api to the row of decision-service.
--   Mains      main of checkout-api, decision-service and expiry-worker: settings, connections, work.
--   Prelude    shared names, ℤ and its order, texts as lists of bytes, results.
--   Examples   runs at concrete inputs.
--
-- The services meet in three places, which the composed modules are about: the token that the waiting
-- room grants and checkout spends, the topic of attempts between checkout and decision, and the
-- tables that decision, expiry and the reconciler share.
--
-- State is passed explicitly: a Db for Postgres, a Redis for Redis (a function from keys to
-- entries), lists of records for topics. Whatever a call meets outside is an argument: the errors of
-- each database call, the clock, the random bytes; for Redis a Link that is up, cut off before the
-- command, loses its answer after it, or has the client send the command again, any number of times;
-- for Kafka a Delivery with the writer's own retries; and whether a request's client has gone. So each
-- property is about every way in which the calls can fail, less the ways that it names. A row lock makes
-- transactions on an item run one after the other, so an interleaving of them is a sequence of calls.
-- The two HTTP services are taken request after request, with each handler whole. The commands of
-- checkouts at work at the same time are interleaved as well, by Checkout/Steps: a handler there is a
-- stage, its next command is one step, and a list says whose turn it is; Checkout/Advance,
-- Checkout/Elsewhere and Checkout/Interleaved are about every such order, and Checkout/Alone about a
-- handler that nothing comes between. Loops run over the list of what they meet (rounds, fetches,
-- events) and need no fuel; how long such a list must be for the loop to end is part of the properties.
--
-- Numbers: int64 values are ℤ, and the places where Go, Redis or Postgres can leave their range say
-- so: a setting's seconds times time.Second and the doubling of a backoff wrap at 2^63, INCRBY
-- refuses past it, INTEGER columns refuse above 2^31 - 1. Lua computes on doubles (Redis/Lua), exact
-- below 2^53, which an INTEGER stock never reaches. Times are numbers of one clock's units.
--
-- Parameters: what go-redis and kafka-go do on a retry, as Link and Delivery have it; Uuids for
-- Postgres's reading and printing of a UUID; Codec for encoding/json on one
-- type; Floats for strconv on float64; the text of an error; a Topic's number of partitions, its hash
-- of keys and its default balancer for kafka-go; the answers of sql.Open and of the pings. Two
-- hypotheses are made on them: that a score's text reads back, in the round trip of the score, and that
-- encoding/json reads back an event that it wrote, in the path of an order.
--
-- Not modelled: the interleaving of the commands of HTTP requests other than checkouts, and of a
-- command with its own resends; signals, listening on a socket and logging (logOutcome among it);
-- the instants at which
-- tickers fire, which are the order of the events here, the time-outs of the HTTP servers, and the
-- Python risk service.
pub mod Prelude
pub mod Retry
pub mod Env
pub mod Connect
pub mod Store
pub mod Tx
pub mod Decision
pub mod Expiry
pub mod Sale
pub mod Http
pub mod Redis
pub mod Kafka
pub mod Consumer
pub mod Settings
pub mod Checkout
pub mod Admission
pub mod WaitingRoom
pub mod WaitingRoomApi
pub mod Reconcile
pub mod CheckoutApi
pub mod Order
pub mod Worker
pub mod Mains
pub mod Examples
