-- ===== src/Prelude/Outcome.antt =====
-- Rust's `Result`, with a third outcome for a panic: an index out of range or a failed `unwrap`.
use mathlib.Core.Option.{Option, none, some}
use mathlib.Core.List.{List, [], ◌∷◌}
use mathlib.Core.Path.{◌≡◌, refl}
use Prim.Native.Nat.{ℕ, suc}
use ocypode.Prelude.Lists.{get_elem?}

pub data Result {ℓ κ} (E : Type κ) (A : Type ℓ) : Type (ℓ ⊔ κ) where
  ok : A → Result E A
  err : E → Result E A
  panic : Result E A

module _ {ℓ κ μ} {E : Type μ} {A : Type ℓ} {B : Type κ} where
  infixl 5 ◌>>=◌ ◌>>◌
  -- The operator `?`.
  abbrev pub ◌>>=◌ : Result E A → (A → Result E B) → Result E B
  ok a >>= f = f a
  err e >>= f = err e
  panic >>= f = panic

  abbrev pub ◌>>◌ : Result E A → Result E B → Result E B
  m >> n = m >>= λ _. n

-- A chain that is through has gone through each step.
pub bound_ok {ℓ κ μ} :
    {E : Type μ} {A : Type ℓ} {B : Type κ} (r : Result E A) {k : A → Result E B} {b : B}
    → (r >>= k) ≡ ok b
    → (a : A) × (r ≡ ok a) × (k a ≡ ok b)
bound_ok (ok a) e = (a, refl, e)
bound_ok (err x) e = absurd cc
bound_ok panic e = absurd cc

-- `.unwrap()`, and an index into a slice.
abbrev pub unwrap {ℓ κ} : {E : Type κ} {A : Type ℓ} → Option A → Result E A
unwrap none = panic
unwrap (some a) = ok a

-- `.unwrap()` or `.expect(…)` of a `Result`.
abbrev pub expect {ℓ κ μ} : {E : Type κ} {F : Type μ} {A : Type ℓ} → Result E A → Result F A
expect (ok a) = ok a
expect (err _) = panic
expect panic = panic

-- The same where `none` is a panic.
abbrev pub unwrapped {ℓ κ} : {E : Type κ} {A : Type ℓ} → Result E A → Option A
unwrapped (ok a) = some a
unwrapped (err _) = none
unwrapped panic = none

abbrev pub index {ℓ κ} : {E : Type κ} {A : Type ℓ} → List A → ℕ → Result E A
index l i = unwrap (get_elem? l i)

-- `Iterator::enumerate`, from a given number on.
abbrev pub enumerate {ℓ} : {A : Type ℓ} → ℕ → List A → List (ℕ × A)
enumerate n [] = []
enumerate n (x ∷ xs) = (n, x) ∷ enumerate (suc n) xs

-- `Iterator::try_for_each`: the first outcome that is not `ok`.
abbrev pub try_for_each {ℓ κ} :
    {E : Type κ} {A : Type ℓ} → (A → Result E (Unit {0})) → List A → Result E (Unit {0})
try_for_each f [] = ok tt
try_for_each f (x ∷ xs) = f x >> try_for_each f xs

abbrev pub IsOk {ℓ κ} : {E : Type κ} {A : Type ℓ} → Result E A → Type 0
IsOk (ok a) = Unit
IsOk _ = ⊥
