-- ===== src/Prelude/Result.antt =====
-- Go's `(value, error)` results: one of the two, with `do` for the early return on an error.
use mathlib.Core.Path.{◌≡◌, refl}
use mathlib.Core.Logic.{◌⊎◌, inl, inr}
use mathlib.Core.Option.{Option, none, some}

pub data Result {ε α} (E : Type ε) (A : Type α) : Type (ε ⊔ α) where
  ok : A → Result E A
  err : E → Result E A

abbrev pub or_fail {ε α} : {E : Type ε} {A : Type α} → Option A → E → Result E A
or_fail none e = err e
or_fail (some a) e = ok a

-- A call that may be cut short by an error from outside.
abbrev pub interrupt {ε} : {E : Type ε} → Option E → Result E (Unit {0})
interrupt none = ok tt
interrupt (some e) = err e

abbrev pub map_err {ε φ α} :
    {E : Type ε} {F : Type φ} {A : Type α} → (E → F) → Result E A → Result F A
map_err f (ok a) = ok a
map_err f (err e) = err (f e)

-- The early return: what follows is skipped on an error.
infixl 5 ◌>>=◌ ◌>>◌
abbrev pub ◌>>=◌ {ε α β} :
    {E : Type ε} {A : Type α} {B : Type β} → Result E A → (A → Result E B) → Result E B
err stop >>= next = err stop
ok value >>= next = next value

abbrev pub ◌>>◌ {ε β} : {E : Type ε} {B : Type β} → Result E (Unit {0}) → Result E B → Result E B
first >> second = first >>= λ done. second

-- What a success of a chain says of its first step.
pub >>=-eq-ok {ε α β} :
    {E : Type ε} {A : Type α} {B : Type β} (first : Result E A) (next : A → Result E B) {result : B}
    → (first >>= next) ≡ ok result
    → (value : A) × (first ≡ ok value) × (next value ≡ ok result)
>>=-eq-ok (err stop) next h = cc
>>=-eq-ok (ok value) next h = (value, refl, h)

pub or_fail-eq-ok {ε α} :
    {E : Type ε} {A : Type α} (o : Option A) (e : E) {a : A} → or_fail o e ≡ ok a → o ≡ some a
or_fail-eq-ok none e h = cc
or_fail-eq-ok (some x) e h = cc

pub map_err-eq-ok {ε φ α} :
    {E : Type ε} {F : Type φ} {A : Type α} (f : E → F) (m : Result E A) {a : A}
    → map_err f m ≡ ok a
    → m ≡ ok a
map_err-eq-ok f (ok x) h = cc
map_err-eq-ok f (err e) h = cc

pub Result-cases {ε α} :
    {E : Type ε} {A : Type α} (m : Result E A) → ((a : A) × (m ≡ ok a)) ⊎ ((e : E) × (m ≡ err e))
Result-cases (ok a) = inl (a, refl)
Result-cases (err e) = inr (e, refl)
