-- ===== src/Common/Results.antt =====
-- Fallible code: Rust's Result, with `do` for the `?` operator.
use mathlib.Core.Path.{◌≡◌, refl}
use mathlib.Core.Bool.{Bool, true, false}
use mathlib.Core.Option.{Option, none, some}
use mathlib.Core.Logic.{◌⊎◌, inl, inr}
use native.Mathlib.Omega.{arith}
use mathlib.Core.List.{List, [], ◌∷◌}

pub data Result {ℓ} (E A : Type ℓ) : Type ℓ where
  ok : A → Result E A
  err : E → Result E A

-- `and_then`
abbrev pub and_then {ℓ} : {E A B : Type ℓ} → Result E A → (A → Result E B) → Result E B
and_then (err e) next = err e
and_then (ok a) next = next a

-- The `?` operator.
infixl 5 ◌>>=◌ ◌>>◌
abbrev pub ◌>>=◌ {ℓ} : {E A B : Type ℓ} → Result E A → (A → Result E B) → Result E B
m >>= next = and_then m next

-- `ensure!`: the error unless the test passes.
abbrev pub ensure {ℓ} : {E : Type ℓ} → Bool → E → Result E (Unit {ℓ})
ensure true e = ok tt
ensure false e = err e

-- A step whose value is not used.
abbrev pub ◌>>◌ {ℓ} : {E B : Type ℓ} → Result E (Unit {ℓ}) → Result E B → Result E B
first >> second = first >>= λ _. second

-- `ok_or_else` of Rust's Option.
abbrev pub ok_or {ℓ} : {E A : Type ℓ} → Option A → E → Result E A
ok_or none e = err e
ok_or (some a) e = ok a

-- `collect` of an iterator of results: the values, or the first error.
abbrev pub traverse {ℓ} : {E A B : Type ℓ} → (A → Result E B) → List A → Result E (List B)
traverse f [] = ok []
traverse f (x ∷ xs) = do y ← f x; ys ← traverse f xs; ok (y ∷ ys)

-- Inversion of a successful chain.
pub >>=-eq-ok {ℓ} :
    {E A B : Type ℓ} (first : Result E A) (next : A → Result E B) {value : B}
    → (first >>= next) ≡ ok value
    → (found : A) × (first ≡ ok found) × (next found ≡ ok value)
>>=-eq-ok (err e) next runs = absurd (ground (arith, runs))
>>=-eq-ok (ok found) next runs = (found, refl, runs)

pub Result-cases {ℓ} :
    {E A : Type ℓ} (r : Result E A) → ((a : A) × (r ≡ ok a)) ⊎ ((e : E) × (r ≡ err e))
Result-cases (ok a) = inl (a, refl)
Result-cases (err e) = inr (e, refl)

pub ensure-eq-ok {ℓ} :
    {E : Type ℓ} (test : Bool) (e : E) (u : Unit {ℓ}) → ensure test e ≡ ok u → test ≡ true
ensure-eq-ok true e u h = refl
ensure-eq-ok false e u h = absurd (ground (arith, h))

pub ok_or-eq-ok {ℓ} :
    {E A : Type ℓ} (found : Option A) (e : E) {a : A} → ok_or found e ≡ ok a → found ≡ some a
ok_or-eq-ok none e h = absurd (ground (arith, h))
ok_or-eq-ok (some b) e h = ground (arith, h)

pub ok_inj {ℓ} : {E A : Type ℓ} {a b : A} → ◌≡◌ {A = Result E A} (ok a) (ok b) → a ≡ b
ok_inj h = cc
