-- ===== src/Base/Calls.antt =====
-- How a call of the C++ code ends, and in which build the asserts are checked.
use mathlib.Core.Path.{◌≡◌, refl, subst}
use mathlib.Core.Bool.{Bool, true, false}
use mathlib.Core.Option.{Option, none, some}
use gameboy_emulator.Base.Tests.{if◌then◌else◌}

-- `assert` is checked in the Debug build and is nothing in the Release build.
pub data Build : Type 0 where
  debug release : Build

-- A normal return, a thrown `std::runtime_error`, a failed assert, and an access out of the
-- range of a `std::vector` or `std::array`, which C++ leaves undefined.
pub data Outcome {ℓ} (A : Type ℓ) : Type ℓ where
  ok : A → Outcome A
  thrown assert_failed out_of_range : Outcome A

infixl 5 ◌>>=◌ ◌>>◌
abbrev pub ◌>>=◌ {ℓ κ} : {A : Type ℓ} {B : Type κ} → Outcome A → (A → Outcome B) → Outcome B
ok a >>= f = f a
thrown >>= f = thrown
assert_failed >>= f = assert_failed
out_of_range >>= f = out_of_range

abbrev pub ◌>>◌ {ℓ} : {B : Type ℓ} → Outcome (Unit {0}) → Outcome B → Outcome B
m >> k = m >>= λ _. k

abbrev pub assert : Build → Bool → Outcome (Unit {0})
assert debug false = assert_failed
assert debug true = ok tt
assert release b = ok tt

pub assert-true : (build : Build) (b : Bool) → b ≡ true → assert build b ≡ ok tt
assert-true build true h = assert_lem build
  where
    assert_lem : (build : Build) → assert build true ≡ ok tt
    assert_lem debug = refl
    assert_lem release = refl
assert-true build false h = cc

-- `v[i]`, given what `get_elem?` finds.
abbrev pub element {ℓ} : {A : Type ℓ} → Option A → Outcome A
element none = out_of_range
element (some a) = ok a

-- Inversion of a bind that returns.
pub bind-returns {ℓ κ} :
    {A : Type ℓ} {B : Type κ} (m : Outcome A) (f : A → Outcome B) {b : B}
    → (m >>= f) ≡ ok b
    → (a : A) × (m ≡ ok a) × (f a ≡ ok b)
bind-returns (ok a) f h = (a, refl, h)
bind-returns thrown f h = cc
bind-returns assert_failed f h = cc
bind-returns out_of_range f h = cc

pub ok-injective {ℓ} : {A : Type ℓ} {a b : A} → ok a ≡ ok b → a ≡ b
ok-injective h = cc

-- `P` holds of what a call returns, if it returns.
pub record Ensures {ℓ κ} {A : Type ℓ} (P : A → Type κ) (m : Outcome A) : Type (ℓ ⊔ κ) where
  pub at : (a : A) → m ≡ ok a → P a

module _ {ℓ κ} {A : Type ℓ} {P : A → Type κ} where
  pub Ensures-ok : {a : A} → P a → Ensures P (ok a)
  Ensures-ok h = record { at = λ b e. subst P (ok-injective e) h }

  pub Ensures-if :
      (t : Bool) {m n : Outcome A}
      → (t ≡ true → Ensures P m)
      → (t ≡ false → Ensures P n)
      → Ensures P (if t then m else n)
  Ensures-if true km kn = km refl
  Ensures-if false km kn = kn refl

module _ {ℓ κ μ} {A : Type ℓ} {B : Type κ} {P : B → Type μ} where
  pub Ensures-bind :
      (m : Outcome A) {f : A → Outcome B}
      → ((a : A) → m ≡ ok a → Ensures P (f a))
      → Ensures P (m >>= f)
  Ensures-bind m {f} k = record {
    at = λ b e. let (a, ran, rest) = bind-returns m f e in (k a ran).at b rest;
  }
