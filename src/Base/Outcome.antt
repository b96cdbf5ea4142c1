-- ===== src/Base/Outcome.antt =====
-- Code that may hit a failing `assert`: `none` is the abort, `some` a normal return.
use mathlib.Core.Path.{◌≡◌, refl, sym, subst}
use mathlib.Core.Bool.{Bool, true, false}
use mathlib.Core.Option.{Option, none, some}
use slack.Base.Tests.{if◌then◌else◌}

infixl 5 ◌>>=◌ ◌>>◌
abbrev pub ◌>>=◌ {ℓ κ} : {A : Type ℓ} {B : Type κ} → Option A → (A → Option B) → Option B
none >>= f = none
some a >>= f = f a

abbrev pub ◌>>◌ {ℓ} : {B : Type ℓ} → Option (Unit {0}) → Option B → Option B
m >> k = m >>= λ _. k

-- `assert(b)` of a debug build.
abbrev pub assert : Bool → Option (Unit {0})
assert true = some tt
assert false = none

-- The run returns normally, and what it returns meets `P`.
abbrev pub Returns {ℓ} : {A : Type ℓ} → Option A → (A → Type 0) → Type 0
Returns none P = ⊥
Returns (some a) P = P a

module _ {ℓ} {A : Type ℓ} where
  pub Returns-some : (o : Option A) (P : A → Type 0) → Returns o P → (a : A) × (o ≡ some a) × P a
  Returns-some none P h = absurd h
  Returns-some (some a) P h = (a, refl, h)

  pub Returns-mono :
      (o : Option A) (P Q : A → Type 0) → Returns o P → ((a : A) → P a → Q a) → Returns o Q
  Returns-mono none P Q h f = h
  Returns-mono (some a) P Q h f = f a h

  pub Returns->>= {κ} :
      {B : Type κ} (o : Option A) (P : A → Type 0) (f : A → Option B) (Q : B → Type 0)
      → Returns o P
      → ((a : A) → P a → Returns (f a) Q)
      → Returns (o >>= f) Q
  Returns->>= none P f Q h k = h
  Returns->>= (some a) P f Q h k = k a h

  -- A step whose result is known.
  pub Returns-bind {κ} :
      {B : Type κ} {o : Option A} {a : A} (f : A → Option B) (Q : B → Type 0)
      → o ≡ some a
      → Returns (f a) Q
      → Returns (o >>= f) Q
  Returns-bind f Q e h = subst (λ m. Returns (m >>= f) Q) (sym e) h

  pub Returns-assert :
      {b : Bool} (k : Option A) (Q : A → Type 0)
      → b ≡ true
      → Returns k Q
      → Returns (assert b >> k) Q
  Returns-assert k Q e h = subst (λ c. Returns (assert c >> k) Q) (sym e) h

  pub Returns-then :
      {b : Bool} (o p : Option A) (Q : A → Type 0)
      → b ≡ true
      → Returns o Q
      → Returns (if b then o else p) Q
  Returns-then o p Q e h = rw e h

  pub Returns-else :
      {b : Bool} (o p : Option A) (Q : A → Type 0)
      → b ≡ false
      → Returns p Q
      → Returns (if b then o else p) Q
  Returns-else o p Q e h = rw e h

-- If the run returns, what it returns meets `P`.
abbrev pub Safe {ℓ} : {A : Type ℓ} → Option A → (A → Type 0) → Type 0
Safe none P = Unit
Safe (some a) P = P a

module _ {ℓ} {A : Type ℓ} where
  pub Safe->>= {κ} :
      {B : Type κ} (o : Option A) (f : A → Option B) (Q : B → Type 0)
      → ((a : A) → Safe (f a) Q)
      → Safe (o >>= f) Q
  Safe->>= none f Q k = tt
  Safe->>= (some a) f Q k = k a

  pub Safe-bind {κ} :
      {B : Type κ} (o : Option A) (P : A → Type 0) (f : A → Option B) (Q : B → Type 0)
      → Safe o P
      → ((a : A) → P a → Safe (f a) Q)
      → Safe (o >>= f) Q
  Safe-bind none P f Q h k = tt
  Safe-bind (some a) P f Q h k = k a h

  pub Safe-mono : (o : Option A) (P Q : A → Type 0) → Safe o P → ((a : A) → P a → Q a) → Safe o Q
  Safe-mono none P Q h f = tt
  Safe-mono (some a) P Q h f = f a h

  pub Safe-some : {o : Option A} (P : A → Type 0) {a : A} → Safe o P → o ≡ some a → P a
  Safe-some P {a} h e = subst (λ o. Safe o P) e h

  pub Returns-Safe :
      (o : Option A) (P Q : A → Type 0) → Returns o P → Safe o Q → Returns o (λ a. P a × Q a)
  Returns-Safe none P Q h k = h
  Returns-Safe (some a) P Q h k = (h, k)

  pub Returns-both :
      (o : Option A) (P Q : A → Type 0) → Returns o P → Returns o Q → Returns o (λ a. P a × Q a)
  Returns-both none P Q h k = h
  Returns-both (some a) P Q h k = (h, k)
