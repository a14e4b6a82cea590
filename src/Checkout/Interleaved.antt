-- ===== src/Checkout/Interleaved.antt =====
-- cmd/checkout-api/main.go: checkouts at work at the same time, in any order of their commands.
use flashsale_reservation.Prelude.{
  ℕ, zero, suc, ◌+◌, ◌^◌, ◌≤◌, ◌<◌, ◌≡◌, inl, inr, refl, sym, subst, true, List, [], ◌∷◌, All,
  arith, Bool-cases, if◌then◌else◌,
}
use flashsale_reservation.Prelude.Int.{ℤ}
use flashsale_reservation.Prelude.Text.{Text, text_eq, text_eq-false, text_eq_iff}
use flashsale_reservation.Redis.FastPath.{Counts}
use flashsale_reservation.Kafka.{PurchaseAttempted, Codec}
use flashsale_reservation.Checkout.{Site}
use flashsale_reservation.Checkout.Effects.{IsSentOnce}
use flashsale_reservation.Checkout.Steps.{arrived, advance, Handler, advance_at, interleave}
use flashsale_reservation.Checkout.Advance.{held, advance-Keeps}
use flashsale_reservation.Checkout.Elsewhere.{advance-others}

-- The units of the item that a handler holds or has promised.
abbrev pub held_of : Text → Handler → ℕ
held_of item h = if text_eq h.item item then held h.stage else 0

abbrev pub held_in : Text → List Handler → ℕ
held_in item [] = 0
held_in item (h ∷ hs) = held_of item h + held_in item hs

abbrev IsReleasedOnce : Handler → Type 0
IsReleasedOnce h = IsSentOnce h.calls.release

abbrev pub HasArrived : Handler → Type 0
HasArrived h = (h.stage ≡ arrived) × IsReleasedOnce h

unfoldable Covered : Text → ℕ → List Handler × Site → Type 0
Covered item n (hs, s) =
    (m : ℕ) × Counts item m s.redis × (held_in item hs + m ≤ n) × All IsReleasedOnce hs

held_of-own :
    (item : Text) (h : Handler) → text_eq h.item item ≡ true → held_of item h ≡ held h.stage
held_of-own item h same = rw same refl

module _ (codec : Codec PurchaseAttempted) (ttl : ℤ) (item : Text) where
  handler-Keeps :
      (h : Handler) (s : Site) (n : ℕ)
      → Counts item n s.redis
      → held_of item h + n < 2 ^ 53
      → IsReleasedOnce h
      → let (t, s') = advance codec h.calls ttl h.item h.body h.stage s in
        (m : ℕ) × Counts item m s'.redis
        × (held_of item (record h { stage = t }) + m ≤ held_of item h + n)
  handler-Keeps h s n count range once = elim (Bool-cases (text_eq h.item item)) [
    | inr other ↦ (
      n,
      advance-others item h.item (text_eq-false h.item item other) codec h.calls ttl n h.body
          h.stage s count,
      rw other (omega arith),
    )
    | inl same ↦
        let own = held_of-own item h same in
        let next = advance codec h.calls ttl h.item h.body h.stage s in
        let own' = held_of-own item (record h { stage = next.0 }) same in
        let e : item ≡ h.item = sym ((text_eq_iff h.item item).0 same) in
        let (m, last, le) =
          advance-Keeps codec h.calls ttl h.item s n (subst (λ k. Counts k n s.redis) e count)
            h.body h.stage (omega (arith, own, range)) once in
        (m, subst (λ k. Counts k m next.1.redis) (sym e) last, omega (arith, le, own, own'))
  ]

  advance_at-Covered :
      (i : ℕ) (hs : List Handler) (s : Site) (n : ℕ)
      → Counts item n s.redis
      → held_in item hs + n < 2 ^ 53
      → All IsReleasedOnce hs
      → Covered item (held_in item hs + n) (advance_at codec ttl i hs s)
  unfolding advance_at Covered
  advance_at-Covered i [] s n count range once = (n, count, omega arith, once)
  advance_at-Covered zero (h ∷ hs) s n count range (one, once) =
      let (m, last, le) = handler-Keeps h s n count (omega (arith, range)) one in
      (m, last, omega (arith, le), (one, once))
  advance_at-Covered (suc i) (h ∷ hs) s n count range (one, once) =
      let (m, last, le, all) = advance_at-Covered i hs s n count (omega (arith, range)) once in
      (m, last, omega (arith, le), (one, all))

  interleave-Covered :
      (schedule : List ℕ) (hs : List Handler) (s : Site) (n : ℕ)
      → Counts item n s.redis
      → held_in item hs + n < 2 ^ 53
      → All IsReleasedOnce hs
      → Covered item (held_in item hs + n) (interleave codec ttl schedule hs s)
  unfolding interleave Covered
  interleave-Covered [] hs s n count range once = (n, count, omega arith, once)
  interleave-Covered (i ∷ schedule) hs s n count range once =
      let out = advance_at codec ttl i hs s in
      let (k, count_then, le, all) = advance_at-Covered i hs s n count range once in
      let (m, last, fits, rest) =
        interleave-Covered schedule out.0 out.1 k count_then (omega (arith, le, range)) all in
      (m, last, omega (arith, le, fits), rest)

  arrived-held :
      (hs : List Handler) → All HasArrived hs → (held_in item hs ≡ 0) × All IsReleasedOnce hs
  arrived-held [] all = (refl, all)
  arrived-held (h ∷ hs) ((new, one), all) =
      let (e, once) = arrived-held hs all in (ground (arith, new, e), (one, once))

-- Checkouts at work at the same time never oversell. Handlers that have all just arrived, of any items,
-- run their commands in any order, to any point: from a counter of `n` units (below 2^53), whichever
-- commands and writes fail, lose their answers or are sent again, except that no INCRBY of a release
-- is sent again, the units of the item that answers promise, those that handlers at work have taken
-- and not yet released, and those that the counter shows are together at most `n`.
pub interleaved_checkouts_never_oversell :
    (codec : Codec PurchaseAttempted) (ttl : ℤ) (schedule : List ℕ) (hs : List Handler) (s : Site)
    (item : Text) (n : ℕ)
    → All HasArrived hs
    → Counts item n s.redis
    → n < 2 ^ 53
    → let (hs', s') = interleave codec ttl schedule hs s in
      (m : ℕ) × Counts item m s'.redis × (held_in item hs' + m ≤ n)
unfolding Covered
interleaved_checkouts_never_oversell codec ttl schedule hs s item n all count range =
    let (e, once) = arrived-held codec ttl item hs all in
    let (m, last, le, _) =
      interleave-Covered codec ttl item schedule hs s n count (omega (arith, e, range)) once in
    (m, last, omega (arith, e, le))
