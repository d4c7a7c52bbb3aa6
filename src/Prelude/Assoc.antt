-- ===== src/Prelude/Assoc.antt =====
-- Association lists with a Boolean test of keys: the standard library's `HashMap`, whose order of
-- iteration is unspecified.
use mathlib.Core.Path.{◌≡◌, refl, sym, ap, ap₂}
use mathlib.Core.Bool.{Bool, true}
use mathlib.Core.Option.{Option, none, some}
use mathlib.Core.List.{List, [], ◌∷◌}
use mathlib.Core.Logic.{◌↔◌, inl, inr}
use native.Mathlib.Omega.{arith}
use ocypode.Prelude.Tests.{if◌then◌else◌, Bool-cases}
use ocypode.Prelude.Lists.{In}

-- Keys with a lawful `==`.
pub record Eq {ℓ} (K : Type ℓ) : Type ℓ where
  pub beq : K → K → Bool
  pub beq_iff : (a b : K) → (beq a b ≡ true) ↔ (a ≡ b)

module _ {ℓ κ} {K : Type ℓ} {V : Type κ} ⦃e : Eq K⦄ where
  unfoldable pub lookup : K → List (K × V) → Option V
  lookup k [] = none
  lookup k ((j, v) ∷ m) = if e.beq j k then some v else lookup k m

  unfoldable pub insert : K → V → List (K × V) → List (K × V)
  insert k v [] = (k, v) ∷ []
  insert k v ((j, w) ∷ m) = if e.beq j k then (k, v) ∷ m else (j, w) ∷ insert k v m

  unfoldable pub remove : K → List (K × V) → List (K × V)
  remove k [] = []
  remove k ((j, w) ∷ m) = let rest = remove k m in if e.beq j k then rest else (j, w) ∷ rest

  pub lookup-insert :
      (k j : K) (v : V) (m : List (K × V))
      → lookup j (insert k v m) ≡ (if e.beq k j then some v else lookup j m)
  unfolding lookup insert
  lookup-insert k j v [] = refl
  lookup-insert k j v ((i, w) ∷ m) =
      ground (arith, e.beq_iff k j, e.beq_iff i k, e.beq_iff i j, lookup-insert k j v m)

  pub lookup-remove :
      (k j : K) (m : List (K × V))
      → lookup j (remove k m) ≡ (if e.beq k j then none else lookup j m)
  unfolding lookup remove
  lookup-remove k j [] = ground arith
  lookup-remove k j ((i, w) ∷ m) =
      ground (arith, e.beq_iff k j, e.beq_iff i k, e.beq_iff i j, lookup-remove k j m)

  -- No key stands twice.
  abbrev pub UniqueKeys : List (K × V) → Type κ
  UniqueKeys [] = Unit
  UniqueKeys ((k, v) ∷ m) = (lookup k m ≡ none) × UniqueKeys m

  pub insert-UniqueKeys :
      (k : K) (v : V) (m : List (K × V)) → UniqueKeys m → UniqueKeys (insert k v m)
  unfolding lookup insert
  insert-UniqueKeys k v [] u = (refl, tt)
  insert-UniqueKeys k v ((j, w) ∷ m) u =
      ground (arith, e.beq_iff j k, e.beq_iff k j, lookup-insert k j v m, insert-UniqueKeys k v m)

  pub remove-UniqueKeys : (k : K) (m : List (K × V)) → UniqueKeys m → UniqueKeys (remove k m)
  unfolding lookup remove
  remove-UniqueKeys k [] u = tt
  remove-UniqueKeys k ((j, w) ∷ m) u = ground (arith, lookup-remove k j m, remove-UniqueKeys k m)

module _ {K V : Type 0} ⦃e : Eq K⦄ where
  pub In-lookup : (k : K) (v : V) (m : List (K × V)) → lookup k m ≡ some v → In (k, v) m
  unfolding lookup
  In-lookup k v [] h = absurd (cc)
  In-lookup k v ((j, w) ∷ m) h = elim (Bool-cases (e.beq j k)) [
    | inl same ↦
        let p : some w ≡ some v = rw same at h in
        let q = (e.beq_iff j k).0 same in inl (ap₂ (λ a b. (a, b)) (sym q) (cc p))
    | inr differs ↦ inr (In-lookup k v m (rw differs at h))
  ]

  pub lookup-In :
      (k : K) (v : V) (m : List (K × V)) → UniqueKeys m → In (k, v) m → lookup k m ≡ some v
  unfolding lookup
  lookup-In k v [] u i = absurd i
  lookup-In k v ((j, w) ∷ m) u (inl p) =
      rw (ap (λ x. x.0) p, ap (λ x. x.1) p, (e.beq_iff j j).1 refl) refl
  lookup-In k v ((j, w) ∷ m) u (inr i) = ground (arith, lookup-In k v m u.1 i, e.beq_iff j k)
