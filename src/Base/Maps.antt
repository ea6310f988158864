-- ===== src/Base/Maps.antt =====
-- Go's maps as association lists.  A key occurs at most once in a map that is built by `put`.
use Prim.Native.Nat.{◌+◌}
use mathlib.Core.Path.{◌≡◌, refl}
use mathlib.Core.Logic.{inl, inr}
use mathlib.Core.Bool.{true}
use mathlib.Core.List.{List, [], ◌∷◌}
use mathlib.Core.Option.{Option, none, some}
use native.Mathlib.Omega.{arith}
use eyrie.Base.Tests.{Equality, ◌==◌, if◌then◌else◌, Bool-cases}
use eyrie.Base.Lists.{length}

pub equality_refl {ℓ} : {K : Type ℓ} ⦃e : Equality K⦄ (k : K) → (k == k) ≡ true
equality_refl ⦃e⦄ k = (e.agrees k k).1 refl

abbrev pub Map {ℓ κ} : Type ℓ → Type κ → Type (ℓ ⊔ κ)
Map K V = List (K × V)

module _ {ℓ κ} {K : Type ℓ} {V : Type κ} ⦃e : Equality K⦄ where
  unfoldable pub get : K → Map K V → Option V
  get k [] = none
  get k ((j, v) ∷ m) = let rest = get k m in if j == k then some v else rest

  unfoldable pub put : K → V → Map K V → Map K V
  put k v [] = (k, v) ∷ []
  put k v ((j, w) ∷ m) = let rest = put k v m in if j == k then (j, v) ∷ m else (j, w) ∷ rest

  pub get-put :
      (k j : K) (v : V) (m : Map K V) → get j (put k v m) ≡ (if k == j then some v else get j m)
  unfolding get put
  get-put k j v [] = refl
  get-put k j v ((i, w) ∷ m) =
      ground (arith, e.agrees k j, e.agrees i k, e.agrees i j, get-put k j v m)

  pub get-put_self : (k : K) (v : V) (m : Map K V) → get k (put k v m) ≡ some v
  get-put_self k v m = ground (arith, get-put k k v m, equality_refl k)

module _ {ℓ κ} {K : Type ℓ} {V : Type κ} ⦃e : Equality K⦄ where
  pub put_again : (k : K) (v : V) (m : Map K V) → put k v (put k v m) ≡ put k v m
  unfolding put
  put_again k v [] = ground (arith, equality_refl k)
  put_again k v ((j, w) ∷ m) = ground (arith, put_again k v m)

-- Each key of the list stands in one entry.
abbrev pub UniqueKeys {ℓ κ} : {K : Type ℓ} {V : Type κ} ⦃e : Equality K⦄ → Map K V → Type κ
UniqueKeys [] = Unit
UniqueKeys ((k, v) ∷ m) = (get k m ≡ none) × UniqueKeys m

module _ {ℓ κ} {K : Type ℓ} {V : Type κ} ⦃e : Equality K⦄ where
  pub put-UniqueKeys : (k : K) (v : V) (m : Map K V) → UniqueKeys m → UniqueKeys (put k v m)
  unfolding get put
  put-UniqueKeys k v [] u = (refl, tt)
  put-UniqueKeys k v ((i, w) ∷ m) u = elim (Bool-cases (i == k)) [
    | inl p ↦ rw p u
    | inr p ↦
        rw p (ground (arith, get-put k i v m, e.agrees k i, e.agrees i k), put-UniqueKeys k v m u.1)
  ]

  pub length-put :
      (k : K) (v : V) (m : Map K V) → get k m ≡ none → length (put k v m) ≡ length m + 1
  unfolding get put
  length-put k v [] h = omega arith
  length-put k v ((i, w) ∷ m) h = ground (arith, length-put k v m)
