-- ===== src/Connect/Leaks.antt =====
-- internal/pgdb/pgdb.go and internal/redisx/client.go: a failed connection is closed again, and no
-- setting stays zero.
use flashsale_reservation.Prelude.{
  ℕ, zero, suc, ◌-◌, ◌≡◌, ◌≢◌, refl, Option, none, some, List, [], ◌∷◌, arith,
}
use flashsale_reservation.Prelude.Int.{ℤ, pos, negsuc}
use flashsale_reservation.Prelude.Result.{Result, ok, err}
use flashsale_reservation.Connect.{
  or_default, PoolConfig, pool_defaults, Command, opened, limited, dialled, pinged, closed, Error,
  new_pool, ClientConfig, client_defaults, new_client,
}

-- The handles that are open after the commands.
abbrev pub open_after : List Command → ℕ → ℕ
open_after [] n = n
open_after (opened dsn ∷ cs) n = open_after cs (suc n)
open_after (dialled a d r w ∷ cs) n = open_after cs (suc n)
open_after (closed ∷ cs) n = open_after cs (n - 1)
open_after (limited o i l ∷ cs) n = open_after cs n
open_after (pinged t ∷ cs) n = open_after cs n

or_default_nonzero : (z : ℤ) (n : ℕ) → or_default z (pos (suc n)) ≢ pos 0
or_default_nonzero (pos zero) n e = ground arith
or_default_nonzero (pos (suc k)) n e = ground arith
or_default_nonzero (negsuc k) n e = cc

-- No limit and no timeout that the commands set is zero.
abbrev pub HasLimits : List Command → Type 0
HasLimits [] = Unit {0}
HasLimits (opened dsn ∷ cs) = HasLimits cs
HasLimits (closed ∷ cs) = HasLimits cs
HasLimits (pinged t ∷ cs) = (t ≢ pos 0) × HasLimits cs
HasLimits (limited o i l ∷ cs) = (o ≢ pos 0) × (i ≢ pos 0) × (l ≢ pos 0) × HasLimits cs
HasLimits (dialled a d r w ∷ cs) = (d ≢ pos 0) × (r ≢ pos 0) × (w ≢ pos 0) × HasLimits cs

abbrev pub PoolHasLimits : PoolConfig → Type 0
PoolHasLimits c =
    (c.max_open_conns ≢ pos 0) × (c.max_idle_conns ≢ pos 0) × (c.conn_max_lifetime ≢ pos 0)

abbrev pub ClientHasLimits : ClientConfig → Type 0
ClientHasLimits c = (c.dial_timeout ≢ pos 0) × (c.read_timeout ≢ pos 0) × (c.write_timeout ≢ pos 0)

-- What a constructor leaves open: the one handle that it returns, with its settings, or nothing.
abbrev pub IsTidy {ℓ α} :
    {E : Type ℓ} {A : Type α} → (A → Type 0) → Result (Error E) A × List Command → Type 0
IsTidy P (ok a, cs) = (open_after cs 0 ≡ 1) × P a × HasLimits cs
IsTidy P (err e, cs) = (open_after cs 0 ≡ 0) × HasLimits cs

pool_defaults-PoolHasLimits : (c : PoolConfig) → PoolHasLimits (pool_defaults c)
unfolding pool_defaults
pool_defaults-PoolHasLimits c = (
  or_default_nonzero c.max_open_conns _,
  or_default_nonzero c.max_idle_conns _,
  or_default_nonzero c.conn_max_lifetime _,
)

client_defaults-ClientHasLimits : (c : ClientConfig) → ClientHasLimits (client_defaults c)
unfolding client_defaults
client_defaults-ClientHasLimits c = (
  or_default_nonzero c.dial_timeout _,
  or_default_nonzero c.read_timeout _,
  or_default_nonzero c.write_timeout _,
)

new_pool-IsTidy {ℓ} :
    {E : Type ℓ} (p : PoolConfig) (open_error ping_error : Option E)
    → IsTidy PoolHasLimits (new_pool p open_error ping_error)
unfolding new_pool
new_pool-IsTidy p (some e) q = (refl, tt)
new_pool-IsTidy p none (some e) =
    let (o, i, l) = pool_defaults-PoolHasLimits p in (refl, (o, i, l, ((λ e. cc), tt)))
new_pool-IsTidy p none none =
    let (o, i, l) = pool_defaults-PoolHasLimits p in (refl, (o, i, l), (o, i, l, ((λ e. cc), tt)))

new_client-IsTidy {ℓ} :
    {E : Type ℓ} (c : ClientConfig) (dial_error : Option E)
    → IsTidy ClientHasLimits (new_client c dial_error)
unfolding new_client
new_client-IsTidy c (some e) =
    let (d, r, w) = client_defaults-ClientHasLimits c in (refl, (d, r, w, (d, tt)))
new_client-IsTidy c none =
    let (d, r, w) = client_defaults-ClientHasLimits c in (refl, (d, r, w), (d, r, w, (d, tt)))

-- Connecting leaks nothing: whatever the drivers answer, `New` and `NewClient` return the one handle
-- they opened or an error with none left open; no limit or timeout of the configuration that they
-- return, and none that they set at the driver, is zero.
pub connecting-IsTidy {ℓ} :
    {E : Type ℓ} (p : PoolConfig) (c : ClientConfig) (open_error ping_error dial_error : Option E)
    → IsTidy PoolHasLimits (new_pool p open_error ping_error)
      × IsTidy ClientHasLimits (new_client c dial_error)
connecting-IsTidy p c open_error ping_error dial_error =
    (new_pool-IsTidy p open_error ping_error, new_client-IsTidy c dial_error)
