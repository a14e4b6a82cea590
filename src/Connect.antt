-- ===== src/Connect.antt =====
-- internal/pgdb/pgdb.go and internal/redisx/client.go: opening a connection. What the drivers answer
-- is an argument; what is asked of them is a list of commands.
pub mod Leaks
use flashsale_reservation.Prelude.{
  ℕ, zero, suc, ◌*◌, Bool, true, false, Option, none, some, List, [], ◌∷◌, ◌++◌, if◌then◌else◌,
}
use flashsale_reservation.Prelude.Int.{ℤ, pos, negsuc}
use flashsale_reservation.Prelude.Text.{Text}
use flashsale_reservation.Prelude.Result.{Result, ok, err}
use flashsale_reservation.Retry.{second}

-- A field that is zero takes its default; durations are nanoseconds.
abbrev pub or_default : ℤ → ℤ → ℤ
or_default (pos zero) fallback = fallback
or_default z fallback = z

-- pgdb.go
pub record PoolConfig : Type 0 where
  pub dsn : Text
  pub max_open_conns : ℤ
  pub max_idle_conns : ℤ
  pub conn_max_lifetime : ℤ

unfoldable pub pool_defaults : PoolConfig → PoolConfig
pool_defaults c = record c {
  max_open_conns = or_default c.max_open_conns (pos 10);
  max_idle_conns = or_default c.max_idle_conns (pos 5);
  conn_max_lifetime = or_default c.conn_max_lifetime (pos (30 * 60 * second));
}

pub data Command : Type 0 where
  opened : Text → Command
  limited : ℤ → ℤ → ℤ → Command
  dialled : Text → ℤ → ℤ → ℤ → Command
  pinged : ℤ → Command
  closed : Command

pub data Error {ℓ} (E : Type ℓ) : Type ℓ where
  opening connecting : E → Error E

-- The settings of the pool, and then its ping, which has five seconds.
abbrev configure : PoolConfig → List Command
configure c =
    opened c.dsn
    ∷ limited c.max_open_conns c.max_idle_conns c.conn_max_lifetime
    ∷ pinged (pos (5 * second))
    ∷ []

-- `New`: what sql.Open and the ping answer, and what was asked of the driver.
unfoldable pub new_pool {ℓ} :
    {E : Type ℓ} → PoolConfig → Option E → Option E → Result (Error E) PoolConfig × List Command
new_pool c open_error ping_error =
    let c' = pool_defaults c in
    elim open_error [
      | some e ↦ (err (opening e), [])
      | none ↦ elim ping_error [
        | some e ↦ (err (connecting e), configure c' ++ (closed ∷ []))
        | none ↦ (ok c', configure c')
      ]
    ]

-- client.go
pub record ClientConfig : Type 0 where
  pub addr : Text
  pub dial_timeout : ℤ
  pub read_timeout : ℤ
  pub write_timeout : ℤ

unfoldable pub client_defaults : ClientConfig → ClientConfig
client_defaults c = record c {
  dial_timeout = or_default c.dial_timeout (pos (2 * second));
  read_timeout = or_default c.read_timeout (pos second);
  write_timeout = or_default c.write_timeout (pos second);
}

-- The client dials when it is first used; the ping has the time of a dial.
abbrev dial : ClientConfig → List Command
dial c = dialled c.addr c.dial_timeout c.read_timeout c.write_timeout ∷ pinged c.dial_timeout ∷ []

-- `NewClient`
unfoldable pub new_client {ℓ} :
    {E : Type ℓ} → ClientConfig → Option E → Result (Error E) ClientConfig × List Command
new_client c ping_error =
    let c' = client_defaults c in
    elim ping_error [
      | some e ↦ (err (connecting e), dial c' ++ (closed ∷ []))
      | none ↦ (ok c', dial c')
    ]
