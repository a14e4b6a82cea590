-- ===== src/Redis/FastPath.antt =====
-- internal/redisx/inventory.go under load: many buyers, one counter, commands that get lost.
use flashsale_reservation.Prelude.{
  ℕ, zero, suc, ◌+◌, ◌-◌, ◌^◌, ◌≤◌, ◌<◌, ◌≡◌, ◌⊎◌, inl, inr, refl, true, false, none, some, List,
  [], ◌∷◌, arith, Bool-cases, ltb,
}
use flashsale_reservation.Prelude.Int.{ℤ, pos, negsuc, pos_part, ◌+ℤ◌, ◌-ℤ◌, leb_ℤ}
use flashsale_reservation.Prelude.Text.{Text, text_eq_self}
use flashsale_reservation.Prelude.Result.{Result, ok, err}
use flashsale_reservation.Redis.Lua.{double, to_double, double_exact, double_large}
use flashsale_reservation.Redis.{
  integer, Entry, Redis, unreachable, Link, up, cut, lost, again, read, write, incr_by, decr_by,
  via, decrement_script, inventory_key, Error, bad_quantity, insufficient_inventory, redis,
  seed_inventory, get_inventory, try_decrement_inventory, wrap, script_result,
}

abbrev pub counter : ℕ → Entry
counter n = record { value = integer (pos n); expires_at = none }

-- The item's counter stands at `n`, with no expiry.
abbrev pub Counts : Text → ℕ → Redis → Type 0
Counts item n r = r (inventory_key item) ≡ some (counter n)

-- Seeding sets the counter, whatever was there.
pub seed_inventory-Counts :
    (item : Text) (n : ℕ) (r : Redis) → Counts item n (seed_inventory up item (pos n) r).1
unfolding seed_inventory write
seed_inventory-Counts item n r = ground (arith, text_eq_self (inventory_key item))

pub Counts-get :
    (now : ℤ) (item : Text) (n : ℕ) (r : Redis)
    → Counts item n r
    → get_inventory up now item r ≡ ok (pos n)
unfolding get_inventory read
Counts-get now item n r h = ground arith

difference : (n q : ℕ) → q ≤ n → pos n +ℤ (pos 0 -ℤ pos q) ≡ pos (n - q)
unfolding ◌+ℤ◌ ◌-ℤ◌
difference n q h = ground arith

-- A counter below 2 ^ 53 and its quantity are compared as they are.
compared : (n q : ℕ) → n < 2 ^ 53 → (ltb (double n) (double q) ≡ ltb n q) × (q ≤ n → double q ≡ q)
compared n q range = elim (Bool-cases (ltb q (2 ^ 53))) [
  | inl small ↦ (
    rw (double_exact n range, double_exact q (ground arith)) refl,
    λ le. double_exact q (omega (arith, le)),
  )
  | inr large ↦ (
    ground (arith, double_exact n range, double_large q),
    λ le. double_exact q (omega (arith, le)),
  )
]

-- DECRBY on a counter that has the units.
decr-Counts :
    (now : ℤ) (item : Text) (n q : ℕ) (r : Redis)
    → Counts item n r
    → n < 2 ^ 53
    → q ≤ n
    → let (res, r') = decr_by now (inventory_key item) (pos q) r in
      (res ≡ ok (pos (n - q))) × Counts item (n - q) r'
unfolding decr_by incr_by read write to_double
decr-Counts now item n q r h range le = (
  ground (arith, difference n q, double_exact (n - q)),
  ground (arith, difference n q, text_eq_self (inventory_key item)),
)

-- The script on a counter: all of the quantity, or nothing.
pub script-Counts :
    (now : ℤ) (item : Text) (n q : ℕ) (r : Redis)
    → Counts item n r
    → n < 2 ^ 53
    → let (res, r') = decrement_script now (inventory_key item) (pos q) r in
      ((n < q) × (res ≡ ok (negsuc 1)) × (r' ≡ r))
      ⊎ ((q ≤ n) × (res ≡ ok (pos (n - q))) × Counts item (n - q) r')
unfolding decrement_script read to_double
script-Counts now item n q r h range =
    let (test, exact) = compared n q range in
    elim (Bool-cases (ltb n q)) [
      | inl short ↦ inl (ground arith, ground arith, ground arith)
      | inr enough ↦
          let le : q ≤ n = ground arith in
          let (answer, count) = decr-Counts now item n q r h range le in
          inr (le, ground (arith, answer, exact le), ground (arith, count, exact le))
    ]

-- What one call does to the counter: the answer is the new count, with the quantity taken, or an
-- error, with the count no higher than it was.
abbrev pub Takes : Text → ℕ → ℤ → Result Error ℤ × Redis → Type 0
Takes item n z (res, r') =
    (m : ℕ) × Counts item m r'
    × ((((e : Error) × (res ≡ err e)) × (m ≤ n))
        ⊎ ((q : ℕ) × (z ≡ pos q) × (res ≡ ok (pos m)) × (q + m ≤ n)))

guard_negative : (z : ℤ) → pos_part z ≡ 0 → leb_ℤ z (pos 0) ≡ true
guard_negative z h = ground arith

guard_positive : (q : ℕ) → leb_ℤ (pos (suc q)) (pos 0) ≡ false
guard_positive q = ground arith

-- The counter after one run of the script, whatever the answer was.
pub script-below :
    (now : ℤ) (item : Text) (n q : ℕ) (r : Redis)
    → Counts item n r
    → n < 2 ^ 53
    → (m : ℕ) × Counts item m (decrement_script now (inventory_key item) (pos q) r).1 × (m ≤ n)
script-below now item n q r h range = elim (script-Counts now item n q r h range) [
  | inl (short, e, same) ↦ (n, rw same h, omega arith)
  | inr (enough, e, count) ↦ (n - q, count, omega arith)
]

weaken-Takes :
    (item : Text) (k n : ℕ) (z : ℤ) (out : Result Error ℤ × Redis)
    → k ≤ n
    → Takes item k z out
    → Takes item n z out
weaken-Takes item k n z (res, r') le (m, count, inl (failed, below)) =
    (m, count, inl (failed, omega (arith, le, below)))
weaken-Takes item k n z (res, r') le (m, count, inr (q, ez, sold, below)) =
    (m, count, inr (q, ez, sold, omega (arith, le, below)))

link-Takes :
    (link : Link) (now : ℤ) (item : Text) (n q : ℕ) (r : Redis)
    → Counts item n r
    → n < 2 ^ 53
    → Takes item n
        (pos q)
        (script_result (wrap (via link (decrement_script now (inventory_key item) (pos q)) r)))
link-Takes up now item n q r h range = elim (script-Counts now item n q r h range) [
  | inl (short, e, same) ↦
      (n, ground arith, inl ((insufficient_inventory, ground arith), omega arith))
  | inr (enough, e, count) ↦ (n - q, ground arith, inr (q, refl, ground arith, omega arith))
]
link-Takes cut now item n q r h range = (n, h, inl ((redis unreachable, refl), omega arith))
link-Takes lost now item n q r h range =
    let (m, count, le) = script-below now item n q r h range in
    (m, count, inl ((redis unreachable, refl), le))
link-Takes (again link) now item n q r h range =
    let (m, count, le) = script-below now item n q r h range in
    let r' = (decrement_script now (inventory_key item) (pos q) r).1 in
    weaken-Takes item m n (pos q)
      (script_result (wrap (via link (decrement_script now (inventory_key item) (pos q)) r'))) le
      (link-Takes link now item m q r' count (omega (arith, le)))

pub try_decrement_inventory-Takes :
    (link : Link) (now : ℤ) (item : Text) (n : ℕ) (z : ℤ) (r : Redis)
    → Counts item n r
    → n < 2 ^ 53
    → Takes item n z (try_decrement_inventory link now item z r)
unfolding try_decrement_inventory
try_decrement_inventory-Takes link now item n (negsuc m) r h range =
    rw (guard_negative (negsuc m) refl) (n, h, inl ((bad_quantity, refl), omega arith))
try_decrement_inventory-Takes link now item n (pos zero) r h range =
    (n, h, inl ((bad_quantity, refl), omega arith))
try_decrement_inventory-Takes link now item n (pos (suc q)) r h range =
    rw (guard_positive q) (link-Takes link now item n (suc q) r h range)

-- One call among many: its connection, the server's clock, its quantity.
pub record Sale : Type 0 where
  pub link : Link
  pub now : ℤ
  pub quantity : ℤ

-- What a buyer was told they got.
abbrev pub sold : ℤ → Result Error ℤ → ℕ
sold z (ok n) = pos_part z
sold z (err e) = 0

-- The units sold by a series of calls, and the store after it.
unfoldable pub sell_all : Text → List Sale → Redis → ℕ × Redis
sell_all item [] r = (0, r)
sell_all item (s ∷ ss) r =
    let (res, r') = try_decrement_inventory s.link s.now item s.quantity r in
    let (total, r'') = sell_all item ss r' in (sold s.quantity res + total, r'')

sold-Takes :
    (item : Text) (n : ℕ) (z : ℤ) (out : Result Error ℤ × Redis)
    → Takes item n z out
    → (m : ℕ) × Counts item m out.1 × (sold z out.0 + m ≤ n)
sold-Takes item n z (res, r') (m, count, inl ((e, failed), le)) =
    (m, count, rw failed (omega (arith, le)))
sold-Takes item n z (res, r') (m, count, inr (q, ez, answered, le)) =
    (m, count, rw (answered, ez) (omega (arith, le)))

-- The fast path never oversells: however many checkouts hit a counter of `n` units, with whatever
-- quantities, and whichever commands are cut off, lose their answers or are sent again, what buyers are told they
-- got and what the counter still shows add up to at most `n`.
pub sell_all_never_oversells :
    (item : Text) (ss : List Sale) (n : ℕ) (r : Redis)
    → Counts item n r
    → n < 2 ^ 53
    → (m : ℕ) × Counts item m (sell_all item ss r).1 × ((sell_all item ss r).0 + m ≤ n)
unfolding sell_all
sell_all_never_oversells item [] n r h range = (n, h, omega arith)
sell_all_never_oversells item (s ∷ ss) n r h range =
    let out = try_decrement_inventory s.link s.now item s.quantity r in
    let (k, count, one) =
      sold-Takes item n s.quantity out
        (try_decrement_inventory-Takes s.link s.now item n s.quantity r h range) in
    let (m, last, rest) = sell_all_never_oversells item ss k out.1 count (omega arith) in
    (m, last, omega arith)
