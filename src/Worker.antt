-- ===== src/Worker.antt =====
-- cmd/expiry-worker/main.go: one scanner, a channel of ids, and a pool of workers, as the steps that
-- the goroutines can take in any order.
pub mod Pool
pub mod Startup
use flashsale_reservation.Prelude.{
  ℕ, ◌+◌, ◌<◌, ◌≡◌, Bool, true, false, Option, none, some, List, [], ◌∷◌, ◌++◌, length,
}
use flashsale_reservation.Prelude.Int.{ℤ}
use flashsale_reservation.Prelude.Text.{Text}
use flashsale_reservation.Prelude.Result.{ok}
use flashsale_reservation.Store.{Db, Uuids}
use flashsale_reservation.Decision.{Attempt, process_attempt}
use flashsale_reservation.Decision
use flashsale_reservation.Expiry.{find_expired_reservations, expire_reservation}
use flashsale_reservation.Expiry

-- The capacity of the channel, the limit of a scan, and the size of the pool. `main` gives the first
-- two the same number.
pub record Config : Type 0 where
  pub uuids : Uuids
  pub capacity : ℕ
  pub batch_size : ℤ
  pub pool_size : ℕ

-- The tables, the ids of a scan that the scanner still has to send, the channel, the ids that workers
-- are at, and whether the scanner is still there to send.
pub record System : Type 0 where
  pub db : Db
  pub unsent : List Text
  pub jobs : List Text
  pub busy : List Text
  pub scanning : Bool

-- The decision service works on the same tables (`decides`). A failed scan changes nothing. A
-- channel without a buffer is not modelled: `batchSize` is positive where the scan succeeds.
pub data Step (f : Config) : System → System → Type 0 where
  decides :
      (s : System) (a : Attempt) (ttl : ℤ) (c : Decision.Calls)
      → Step f s (record s { db = (process_attempt f.uuids a ttl c s.db).1 })
  scans :
      (s : System) (now : ℤ) (ids : List Text)
      → s.scanning ≡ true
      → s.unsent ≡ []
      → find_expired_reservations f.uuids none now f.batch_size s.db ≡ ok ids
      → Step f s (record s { unsent = ids })
  sends :
      (s : System) (id : Text) (ids : List Text)
      → s.scanning ≡ true
      → s.unsent ≡ id ∷ ids
      → length s.jobs < f.capacity
      → Step f s (record s { unsent = ids; jobs = s.jobs ++ (id ∷ []) })
  closes : (s : System) → s.scanning ≡ true → Step f s (record s { unsent = []; scanning = false })
  takes :
      (s : System) (id : Text) (ids : List Text)
      → s.jobs ≡ id ∷ ids
      → length s.busy < f.pool_size
      → Step f s (record s { jobs = ids; busy = id ∷ s.busy })
  expires :
      (s : System) (id : Text) (before after : List Text) (c : Expiry.Calls)
      → s.busy ≡ before ++ (id ∷ after)
      → Step f s
          (record s { db = (expire_reservation f.uuids id c s.db).1; busy = before ++ after })

-- Any number of steps.
pub data Steps (f : Config) : System → System → Type 0 where
  here : (s : System) → Steps f s s
  then : (s t w : System) → Step f s t → Steps f t w → Steps f s w
