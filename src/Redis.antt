-- ===== src/Redis.antt =====
-- internal/redisx: the keys, and the Redis commands that the helpers send.
pub mod Lua
pub mod Keys
pub mod FastPath
pub mod Frame
pub mod Tokens
pub mod Risk
use flashsale_reservation.Prelude.{
  ℕ, zero, suc, ◌^◌, ltb, Bool, true, false, Option, none, some, List, [], ◌∷◌, ◌++◌, if◌then◌else◌,
}
use flashsale_reservation.Prelude.Int.{ℤ, pos, negsuc, ◌+ℤ◌, ◌-ℤ◌, ltb_ℤ, leb_ℤ}
use flashsale_reservation.Redis.Lua.{to_double}
use flashsale_reservation.Prelude.Text.{Text, codes, text_eq}
use flashsale_reservation.Prelude.Result.{Result, ok, err}

-- A value that reads as a 64-bit integer; a text that is a number to Lua and no such integer, with its
-- floor; or any other text.
pub data Value : Type 0 where
  integer : ℤ → Value
  decimal : ℤ → Text → Value
  text : Text → Value

pub record Entry : Type 0 where
  pub value : Value
  pub expires_at : Option ℤ

abbrev pub Redis : Type 0
Redis = Text → Option Entry

-- `unreachable`: no answer arrived (the network, a timeout, a cancelled context). `refused`: the
-- server answered with an error.
pub data RedisError : Type 0 where
  unreachable refused : RedisError

-- What happens to a command: it goes through, it is cut off before the server runs it, the server
-- runs it and the answer is lost, or the answer is lost and the client sends it again: go-redis does,
-- since client.go leaves its MaxRetries as it is.
pub data Link : Type 0 where
  up cut lost : Link
  again : Link → Link

abbrev pub via {ℓ} :
    {A : Type ℓ}
    → Link
    → (Redis → Result RedisError A × Redis)
    → Redis
    → Result RedisError A × Redis
via up command r = command r
via cut command r = (err unreachable, r)
via lost command r = (err unreachable, (command r).1)
via (again link) command r = via link command (command r).1

-- A key is there until the time at which it expires.
abbrev pub is_alive : ℤ → Option ℤ → Bool
is_alive now none = true
is_alive now (some t) = ltb_ℤ now t

abbrev pub visible : ℤ → Option Entry → Option Entry
visible now none = none
visible now (some e) = if is_alive now e.expires_at then some e else none

unfoldable pub read : ℤ → Text → Redis → Option Entry
read now key r = visible now (r key)

unfoldable pub write : Text → Option Entry → Redis → Redis
write key e r k = if text_eq key k then e else r k

abbrev pub fits_int64 : ℤ → Bool
fits_int64 (pos n) = ltb n (2 ^ 63)
fits_int64 (negsuc n) = ltb n (2 ^ 63)

-- INCRBY: a missing key counts from 0, the expiry of an old one stays, and neither a value that is
-- no integer nor an overflow is accepted.
unfoldable pub incr_by : ℤ → Text → ℤ → Redis → Result RedisError ℤ × Redis
incr_by now key d r = elim (read now key r) [
  | none ↦ (ok d, write key (some (record { value = integer d; expires_at = none })) r)
  | some e ↦ elim e.value [
    | text t ↦ (err refused, r)
    | decimal z t ↦ (err refused, r)
    | integer n ↦
        if fits_int64 (n +ℤ d)
        then (ok (n +ℤ d), write key (some (record e { value = integer (n +ℤ d) })) r)
        else (err refused, r)
  ]
]

-- The number that a command answers is a double to the script that returns it.
abbrev pub in_lua : Result RedisError ℤ × Redis → Result RedisError ℤ × Redis
in_lua (ok n, r) = (ok (to_double n), r)
in_lua (err e, r) = (err e, r)

-- redis.call('DECRBY', KEYS[1], qty): Redis prints the number with %.17g, which is no integer from
-- 10 ^ 17 on.
unfoldable pub decr_by : ℤ → Text → ℤ → Redis → Result RedisError ℤ × Redis
decr_by now key qty r =
    if ltb_ℤ qty (pos (10 ^ 17))
    then in_lua (incr_by now key (pos 0 -ℤ qty) r)
    else (err refused, r)

-- The Lua script of inventory.go, which the server runs as one step. `tonumber` of a missing key or
-- of a text that is no number is nil.
unfoldable pub decrement_script : ℤ → Text → ℤ → Redis → Result RedisError ℤ × Redis
decrement_script now key qty r = elim (read now key r) [
  | none ↦ (ok (negsuc 0), r)
  | some e ↦ elim e.value [
    | text t ↦ (ok (negsuc 0), r)
    | decimal z t ↦ if ltb_ℤ z (to_double qty) then (ok (negsuc 1), r) else (err refused, r)
    | integer n ↦
        if ltb_ℤ (to_double n) (to_double qty)
        then (ok (negsuc 1), r)
        else decr_by now key (to_double qty) r
  ]
]

-- keys.go: the formats "admission:%s:%s", "inventory:%s", "queue_depth:%s" and "risk:%s:%s".
abbrev pub colon : ℕ
colon = b':'

unfoldable pub admission_key : Text → Text → Text
admission_key item user = codes "admission:" ++ (item ++ (colon ∷ user))

unfoldable pub inventory_key : Text → Text
inventory_key item = codes "inventory:" ++ item

unfoldable pub queue_depth_key : Text → Text
queue_depth_key item = codes "queue_depth:" ++ item

unfoldable pub risk_score_key : Text → Text → Text
risk_score_key item user = codes "risk:" ++ (item ++ (colon ∷ user))

pub data Error : Type 0 where
  negative_seed bad_quantity bad_ttl bad_depth inventory_not_found insufficient_inventory : Error
  redis : RedisError → Error

abbrev pub wrap {ℓ} : {A : Type ℓ} → Result RedisError A × Redis → Result Error A × Redis
wrap (ok a, r) = (ok a, r)
wrap (err e, r) = (err (redis e), r)

-- SET with no expiry.
abbrev pub set_count : Text → ℤ → Redis → Result RedisError (Unit {0}) × Redis
set_count key n r = (ok tt, write key (some (record { value = integer n; expires_at = none })) r)

-- inventory.go
unfoldable pub seed_inventory : Link → Text → ℤ → Redis → Result Error (Unit {0}) × Redis
seed_inventory link item available r =
    if ltb_ℤ available (pos 0)
    then (err negative_seed, r)
    else wrap (via link (set_count (inventory_key item) available) r)

-- `Int64()` fails on a value that is no integer, without the server.
abbrev pub to_int64 : Error → Option Entry → Result Error ℤ
to_int64 missing none = err missing
to_int64 missing (some e) = elim e.value [
  | integer n ↦ ok n
  | text t ↦ err (redis refused)
  | decimal z t ↦ err (redis refused)
]

-- A GET changes nothing, so losing its answer is the same as losing the command.
unfoldable pub get_inventory : Link → ℤ → Text → Redis → Result Error ℤ
get_inventory up now item r = to_int64 inventory_not_found (read now (inventory_key item) r)
get_inventory cut now item r = err (redis unreachable)
get_inventory lost now item r = err (redis unreachable)
get_inventory (again link) now item r = get_inventory link now item r

-- The switch on the script's answer.
abbrev pub script_result : Result Error ℤ × Redis → Result Error ℤ × Redis
script_result (err e, r) = (err e, r)
script_result (ok (negsuc zero), r) = (err inventory_not_found, r)
script_result (ok (negsuc (suc zero)), r) = (err insufficient_inventory, r)
script_result (ok n, r) = (ok n, r)

unfoldable pub try_decrement_inventory : Link → ℤ → Text → ℤ → Redis → Result Error ℤ × Redis
try_decrement_inventory link now item quantity r =
    if leb_ℤ quantity (pos 0)
    then (err bad_quantity, r)
    else script_result (wrap (via link (decrement_script now (inventory_key item) quantity) r))

abbrev pub forget {ℓ} : {A : Type ℓ} → Result Error A × Redis → Result Error (Unit {0}) × Redis
forget (ok a, r) = (ok tt, r)
forget (err e, r) = (err e, r)

unfoldable pub release_inventory : Link → ℤ → Text → ℤ → Redis → Result Error (Unit {0}) × Redis
release_inventory link now item quantity r =
    if leb_ℤ quantity (pos 0)
    then (err bad_quantity, r)
    else forget (wrap (via link (incr_by now (inventory_key item) quantity) r))

-- tokens.go. The token's value is the time as RFC 3339 text, given as `stamp`.
abbrev pub set_token : ℤ → Text → Text → ℤ → Redis → Result RedisError (Unit {0}) × Redis
set_token now key stamp ttl r =
    (ok tt, write key (some (record { value = text stamp; expires_at = some (now +ℤ ttl) })) r)

unfoldable pub grant_admission :
    Link → ℤ → Text → Text → Text → ℤ → Redis → Result Error (Unit {0}) × Redis
grant_admission link now stamp item user ttl r =
    if leb_ℤ ttl (pos 0)
    then (err bad_ttl, r)
    else wrap (via link (set_token now (admission_key item user) stamp ttl) r)

-- GETDEL, and whether it found a key.
abbrev pub get_del : ℤ → Text → Redis → Result RedisError Bool × Redis
get_del now key r = elim (read now key r) [
  | none ↦ (ok false, r)
  | some e ↦ (ok true, write key none r)
]

unfoldable pub consume_admission : Link → ℤ → Text → Text → Redis → Result Error Bool × Redis
consume_admission link now item user r = wrap (via link (get_del now (admission_key item user)) r)

-- queue.go
unfoldable pub set_queue_depth : Link → Text → ℤ → Redis → Result Error (Unit {0}) × Redis
set_queue_depth link item depth r =
    if ltb_ℤ depth (pos 0)
    then (err bad_depth, r)
    else wrap (via link (set_count (queue_depth_key item) depth) r)

abbrev pub depth_or_zero : Option Entry → Result Error ℤ
depth_or_zero none = ok (pos 0)
depth_or_zero (some e) = elim e.value [
  | integer n ↦ ok n
  | text t ↦ err (redis refused)
  | decimal z t ↦ err (redis refused)
]

unfoldable pub get_queue_depth : Link → ℤ → Text → Redis → Result Error ℤ
get_queue_depth up now item r = depth_or_zero (read now (queue_depth_key item) r)
get_queue_depth cut now item r = err (redis unreachable)
get_queue_depth lost now item r = err (redis unreachable)
get_queue_depth (again link) now item r = get_queue_depth link now item r
