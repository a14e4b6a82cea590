-- ===== src/Worker/Startup.antt =====
-- cmd/expiry-worker/main.go: what the settings make of the channel, the ticker and the pool.
use flashsale_reservation.Prelude.{
  ℕ, ◌≤◌, ◌≡◌, ◌⊎◌, inl, inr, refl, ◌&&◌, arith, Bool-cases, if◌then◌else◌,
}
use flashsale_reservation.Prelude.Int.{ℤ, pos, pos_part, neg_part, ◌≤ℤ◌, ◌<ℤ◌, ltb_ℤ, leb_ℤ}
use flashsale_reservation.Prelude.Text.{Text, codes}
use flashsale_reservation.Store.{Uuids}
use flashsale_reservation.Env.{Env, int, in_seconds}
use flashsale_reservation.Settings.{ExpirySettings, expiry_settings}
use flashsale_reservation.Settings.Ranges.{max_seconds, in_seconds_exact}
use flashsale_reservation.Worker.{Config}

-- How main fares once the database is connected: `make` panics on the size of the channel, the
-- scanner's `NewTicker` panics on its interval, or the scanner and the pool are at work.
pub data Start : Type 0 where
  no_channel no_ticker : Start
  working : Config → Start

-- `limit` is the largest channel of strings that Go allocates. The loop from 1 to the pool size
-- starts no worker when that is not positive.
unfoldable pub start_worker : Uuids → ℕ → ExpirySettings → Start
start_worker u limit s =
    if leb_ℤ (pos 0) s.batch_size && leb_ℤ s.batch_size (pos limit)
    then (if ltb_ℤ (pos 0) s.scan_interval
        then working (record {
          uuids = u;
          capacity = pos_part s.batch_size;
          batch_size = s.batch_size;
          pool_size = pos_part s.pool_size;
        })
        else no_ticker)
    else no_channel

module _ (u : Uuids) (limit : ℕ) (addr dsn : Text) (seconds batch size : ℤ)
    (low : pos_part seconds ≤ max_seconds) (high : neg_part seconds ≤ max_seconds) where
  abbrev settings : ExpirySettings
  settings = record {
    addr = addr;
    dsn = dsn;
    scan_interval = in_seconds seconds;
    batch_size = batch;
    pool_size = size;
  }

  abbrev config : Config
  config = record {
    uuids = u;
    capacity = pos_part batch;
    batch_size = batch;
    pool_size = pos_part size;
  }

  start_worker-cases :
      ((start_worker u limit settings ≡ working config)
        × (batch ≡ pos (pos_part batch))
        × (pos 0 <ℤ seconds)
        × (pos_part batch ≤ limit))
      ⊎ ((start_worker u limit settings ≡ no_ticker) × (seconds ≤ℤ pos 0))
      ⊎ ((start_worker u limit settings ≡ no_channel) × ((batch <ℤ pos 0) ⊎ (pos limit <ℤ batch)))
  unfolding start_worker
  start_worker-cases =
      let (up, down) = in_seconds_exact seconds low high in
      elim (Bool-cases (leb_ℤ (pos 0) batch && leb_ℤ batch (pos limit))) [
        | inr unfit ↦ inr (inr (ground arith, ground arith))
        | inl fits ↦ elim (Bool-cases (ltb_ℤ (pos 0) (in_seconds seconds))) [
          | inl ticks ↦ inl (ground arith, ground arith, ground arith, ground arith)
          | inr stuck ↦ inr (inl (ground arith, ground arith))
        ]
      ]

-- Whatever the environment holds, with EXPIRY_SCAN_INTERVAL_SECONDS within the range of a duration,
-- the worker starts just when that interval is positive and the batch size is neither negative nor
-- above the largest channel. A scan's limit is then the channel's capacity, and there are as many
-- workers as EXPIRY_WORKER_POOL_SIZE says, none if it is not positive.
pub start_worker_exact :
    (u : Uuids) (limit : ℕ) (env : Env)
    → let seconds = int env (codes "EXPIRY_SCAN_INTERVAL_SECONDS") (pos 5) in
      let batch = int env (codes "EXPIRY_SCAN_BATCH_SIZE") (pos 100) in
      pos_part seconds ≤ max_seconds
      → neg_part seconds ≤ max_seconds
      → ((f : Config) × (start_worker u limit (expiry_settings env) ≡ working f)
          × (f.batch_size ≡ pos f.capacity)
          × (batch ≡ pos f.capacity)
          × (f.pool_size ≡ pos_part (int env (codes "EXPIRY_WORKER_POOL_SIZE") (pos 4)))
          × (pos 0 <ℤ seconds)
          × (f.capacity ≤ limit))
        ⊎ ((start_worker u limit (expiry_settings env) ≡ no_ticker) × (seconds ≤ℤ pos 0))
        ⊎ ((start_worker u limit (expiry_settings env) ≡ no_channel)
            × ((batch <ℤ pos 0) ⊎ (pos limit <ℤ batch)))
unfolding expiry_settings
start_worker_exact u limit env low high =
    let s = expiry_settings env in
    elim (start_worker-cases u limit s.addr s.dsn
      (int env (codes "EXPIRY_SCAN_INTERVAL_SECONDS") (pos 5))
      (int env (codes "EXPIRY_SCAN_BATCH_SIZE") (pos 100))
      (int env (codes "EXPIRY_WORKER_POOL_SIZE") (pos 4)) low high) [
        | inl (starts, exact, ticks, fits) ↦ inl (_, starts, exact, exact, refl, ticks, fits)
        | inr refused ↦ inr refused
      ]
