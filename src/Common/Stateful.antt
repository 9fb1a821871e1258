-- ===== src/Common/Stateful.antt =====
-- Code that may fail and changes a state: Rust's methods on `&self` with interior state, in explicit passing.
use mathlib.Core.Path.{◌≡◌, refl}
use native.Mathlib.Omega.{arith}
use parseon.Common.Results.{Result, ok, err}

-- Fallible code over a state, which an error leaves as it is.
abbrev pub Stateful : Type 0 → Type 0 → Type 0 → Type 0
Stateful S E A = S → Result E A × S

module _ {S E : Type 0} where
  abbrev pub pure : {A : Type 0} → A → Stateful S E A
  pure a w = (ok a, w)

  abbrev pub continue : {A B : Type 0} → (A → Stateful S E B) → Result E A × S → Result E B × S
  continue f (ok a, w) = f a w
  continue f (err e, w) = (err e, w)

  infixl 5 ◌>>=◌ ◌>>◌
  abbrev pub ◌>>=◌ : {A B : Type 0} → Stateful S E A → (A → Stateful S E B) → Stateful S E B
  (m >>= f) w = continue f (m w)

  abbrev pub lift : {A : Type 0} → Result E A → Stateful S E A
  lift r w = (r, w)

  -- A step whose value is not used.
  abbrev pub ◌>>◌ : {B : Type 0} → Stateful S E (Unit {0}) → Stateful S E B → Stateful S E B
  first >> second = first >>= λ _. second

  continue-ok :
      {A B : Type 0} (f : A → Stateful S E B) (out : Result E A × S) (s' : S) {b : B}
      → continue f out ≡ (ok b, s')
      → (a : A) × (t : S) × (out ≡ (ok a, t)) × (f a t ≡ (ok b, s'))
  continue-ok f (ok a, t) s' h = (a, t, refl, h)
  continue-ok f (err e, t) s' h = absurd (ground (arith, h))

  -- Inversion of a successful chain.
  pub >>=-ok :
      {A B : Type 0} (m : Stateful S E A) (f : A → Stateful S E B) (s s' : S) {b : B}
      → (m >>= f) s ≡ (ok b, s')
      → (a : A) × (t : S) × (m s ≡ (ok a, t)) × (f a t ≡ (ok b, s'))
  >>=-ok m f s s' h = continue-ok f (m s) s' h

  -- Inversion of a chain whose first step leaves the state as it is.
  pub lift->>=-ok :
      {A B : Type 0} (r : Result E A) (f : A → Stateful S E B) (s s' : S) {b : B}
      → (lift r >>= f) s ≡ (ok b, s')
      → (a : A) × (r ≡ ok a) × (f a s ≡ (ok b, s'))
  lift->>=-ok (ok a) f s s' h = (a, refl, h)
  lift->>=-ok (err e) f s s' h = absurd (ground (arith, h))

  -- What holds of a value and the state after a success, and of the state after an error.
  abbrev pub Ends : {A : Type 0} → (A → S → Type 0) → (S → Type 0) → Result E A × S → Type 0
  Ends P R (ok a, t) = P a t
  Ends P R (err e, t) = R t

  pub Ends-bind :
      {A B : Type 0} (Q : A → S → Type 0) (P : B → S → Type 0) (R : S → Type 0) (m : Stateful S E A)
      (f : A → Stateful S E B) (s : S)
      → Ends Q R (m s)
      → ((a : A) (t : S) → Q a t → Ends P R (f a t))
      → Ends P R ((m >>= f) s)
  Ends-bind {A} Q P R m f s first next = after (m s) first
    where
      after : (out : Result E A × S) → Ends Q R out → Ends P R (continue f out)
      after (ok a, t) q = next a t q
      after (err e, t) r = r

  pub Ends-lift :
      {A : Type 0} (P : A → S → Type 0) (R : S → Type 0) (r : Result E A) (s : S)
      → ((a : A) → r ≡ ok a → P a s)
      → R s
      → Ends P R (lift r s)
  Ends-lift P R (ok a) s good bad = good a refl
  Ends-lift P R (err e) s good bad = bad
