-- ===== src/Redis/Frame.antt =====
-- internal/redisx/inventory.go: the commands on a counter leave every other key alone.
use flashsale_reservation.Prelude.{
  ◌≡◌, ◌^◌, ◌⊎◌, inl, inr, refl, ap, ◌∙◌, false, arith, Bool-cases, Option-cases,
}
use flashsale_reservation.Prelude.Int.{ℤ, pos, ltb_ℤ, ◌+ℤ◌, ◌-ℤ◌}
use flashsale_reservation.Prelude.Text.{Text, text_eq}
use flashsale_reservation.Prelude.Result.{Result, ok, err}
use flashsale_reservation.Redis.Lua.{to_double}
use flashsale_reservation.Redis.{
  Value, integer, decimal, text, Redis, RedisError, Link, up, cut, lost, again, via, read, write,
  fits_int64, incr_by, in_lua, decr_by, decrement_script,
}

Value-cases :
    (v : Value)
    → ((z : ℤ) × (v ≡ integer z))
      ⊎ (((z : ℤ) × (t : Text) × (v ≡ decimal z t)) ⊎ ((t : Text) × (v ≡ text t)))
Value-cases (integer z) = inl (z, refl)
Value-cases (decimal z t) = inr (inl (z, t, refl))
Value-cases (text t) = inr (inr (t, refl))

in_lua-store : (out : Result RedisError ℤ × Redis) → (in_lua out).1 ≡ out.1
in_lua-store (ok n, r) = refl
in_lua-store (err e, r) = refl

module _ (key k : Text) (apart : text_eq key k ≡ false) where
  pub incr_by-frame : (now d : ℤ) (r : Redis) → (incr_by now key d r).1 k ≡ r k
  unfolding incr_by write
  incr_by-frame now d r = elim (Option-cases (read now key r)) [
    | inl missing ↦ ground arith
    | inr (e, f) ↦ elim (Value-cases e.value) [
      | inl (z, g) ↦ elim (Bool-cases (fits_int64 (z +ℤ d))) [
        | inl fits ↦ ground arith
        | inr overflows ↦ ground arith
      ]
      | inr (inl (z, t, g)) ↦ ground arith
      | inr (inr (t, g)) ↦ ground arith
    ]
  ]

  decr_by-frame : (now q : ℤ) (r : Redis) → (decr_by now key q r).1 k ≡ r k
  unfolding decr_by
  decr_by-frame now q r = elim (Bool-cases (ltb_ℤ q (pos (10 ^ 17)))) [
    | inl printed ↦ rw printed (
        ap (λ (x : Redis). x k) (in_lua-store (incr_by now key (pos 0 -ℤ q) r))
        ∙ incr_by-frame now (pos 0 -ℤ q) r)
    | inr wide ↦ rw wide refl
  ]

  pub script-frame : (now q : ℤ) (r : Redis) → (decrement_script now key q r).1 k ≡ r k
  unfolding decrement_script
  script-frame now q r = elim (Option-cases (read now key r)) [
    | inl missing ↦ ground arith
    | inr (e, f) ↦ elim (Value-cases e.value) [
      | inl (z, g) ↦ elim (Bool-cases (ltb_ℤ (to_double z) (to_double q))) [
        | inl short ↦ ground arith
        | inr enough ↦ ground (arith, decr_by-frame now (to_double q) r)
      ]
      | inr (inl (z, t, g)) ↦ elim (Bool-cases (ltb_ℤ z (to_double q))) [
        | inl short ↦ ground arith
        | inr enough ↦ ground arith
      ]
      | inr (inr (t, g)) ↦ ground arith
    ]
  ]

  -- So does a command that is lost or sent again.
  pub via-frame :
      (link : Link) (command : Redis → Result RedisError ℤ × Redis) (r : Redis)
      → ((x : Redis) → (command x).1 k ≡ x k)
      → (via link command r).1 k ≡ r k
  via-frame up command r h = h r
  via-frame cut command r h = refl
  via-frame lost command r h = h r
  via-frame (again link) command r h = via-frame link command (command r).1 h ∙ h r
