-- ===== src/Mains.antt =====
-- main of cmd/checkout-api, cmd/decision-service and cmd/expiry-worker: settings, connections, work.
pub mod Fair
use flashsale_reservation.Prelude.{ℕ, Option, List, if◌then◌else◌}
use flashsale_reservation.Prelude.Int.{ℤ, pos, ltb_ℤ}
use flashsale_reservation.Prelude.Text.{Text}
use flashsale_reservation.Prelude.Result.{Result, ok, err}
use flashsale_reservation.Env.{Env}
use flashsale_reservation.Settings.{
  checkout_settings, DecisionSettings, decision_settings, expiry_settings,
}
use flashsale_reservation.Connect.{PoolConfig, ClientConfig, Error, new_pool, new_client}
use flashsale_reservation.Store.{Uuids}
use flashsale_reservation.Kafka.{PurchaseAttempted, DeadLetter, Codec}
use flashsale_reservation.Checkout.{Site}
use flashsale_reservation.CheckoutApi.{Pass, Event, Answer, start_service}
use flashsale_reservation.Consumer.Loop.{Cause, Fetch, Service, Setup, run_consume_loop}
use flashsale_reservation.Worker.Startup.{Start, start_worker}

-- What the servers answer when they are connected to: an error for each call, if any.
pub record Dials {ℓ} (E : Type ℓ) : Type ℓ where
  pub redis : Option E
  pub open_db : Option E
  pub ping_db : Option E

-- How main ends: log.Fatalf on a connection, the panic of a ticker, or the end of its work.
pub data Ended {ℓ α} (E : Type ℓ) (A : Type α) : Type (ℓ ⊔ α) where
  fatal : Error E → Ended E A
  panicked : Ended E A
  finished : A → Ended E A

-- The configurations that the mains give: an address and nothing else.
abbrev pub client_at : Text → ClientConfig
client_at addr = record {
  addr = addr;
  dial_timeout = pos 0;
  read_timeout = pos 0;
  write_timeout = pos 0;
}

abbrev pub pool_at : Text → PoolConfig
pool_at dsn = record {
  dsn = dsn;
  max_open_conns = pos 0;
  max_idle_conns = pos 0;
  conn_max_lifetime = pos 0;
}

-- The reconciler's ticker is made in a goroutine of its own: what is served before it panics is the
-- list of events.
unfoldable pub checkout_main {ℓ} :
    {E : Type ℓ}
    → Env
    → Dials E
    → Uuids
    → Codec PurchaseAttempted
    → Pass
    → List Event
    → Site
    → Ended E (List Answer) × Site
checkout_main env d u codec p es s =
    let f = checkout_settings env in
    elim (new_client (client_at f.redis_addr) d.redis).0 [
      | err e ↦ (fatal e, s)
      | ok client ↦ elim (new_pool (pool_at f.dsn) d.open_db d.ping_db).0 [
        | err e ↦ (fatal e, s)
        | ok pool ↦
            let (answers, s') =
              start_service (record { uuids = u; codec = codec; admission_ttl = f.admission_ttl }) p
                es s in
            (if ltb_ℤ (pos 0) f.reconcile_interval then finished answers else panicked, s')
      ]
    ]

-- What the consume loop is given besides the settings.
pub record Reading : Type 0 where
  pub uuids : Uuids
  pub attempts : Codec PurchaseAttempted
  pub letters : Codec DeadLetter
  pub text_of : Cause → Text

abbrev pub loop_setup : DecisionSettings → Reading → Setup
loop_setup f r = record {
  policy = f.policy;
  uuids = r.uuids;
  reservation_ttl = f.reservation_ttl;
  attempts = r.attempts;
  letters = r.letters;
  text_of = r.text_of;
}

-- The health server that runs beside the loop is decision_health_server (Http).
unfoldable pub decision_main {ℓ} :
    {E : Type ℓ} → Env → Dials E → Reading → List Fetch → Service → Ended E (Unit {0}) × Service
decision_main env d r fs v =
    let f = decision_settings env in
    elim (new_pool (pool_at f.dsn) d.open_db d.ping_db).0 [
      | err e ↦ (fatal e, v)
      | ok pool ↦ (finished tt, run_consume_loop (loop_setup f r) fs v)
    ]

unfoldable pub expiry_main {ℓ} : {E : Type ℓ} → Env → Dials E → Uuids → ℕ → Ended E Start
expiry_main env d u limit =
    let f = expiry_settings env in
    elim (new_pool (pool_at f.dsn) d.open_db d.ping_db).0 [
      | err e ↦ fatal e
      | ok pool ↦ finished (start_worker u limit f)
    ]
