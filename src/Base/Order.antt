-- ===== src/Base/Order.antt =====
-- `sort.Slice` by a linear order: insertion sort, whose result depends on the elements alone.
use mathlib.Core.Path.{◌≡◌, refl, ap₂, ◌∙◌}
use mathlib.Core.Logic.{∥∥₁_elim}
use mathlib.Core.Bool.{Bool, true, false}
use mathlib.Core.HLevel.{hedberg}
use mathlib.Core.List.{List, [], ◌∷◌, Perm, Permᴰ}
use native.Mathlib.Omega.{arith}
use eyrie.Base.Lists.{count}
use eyrie.Base.Tests.{if◌then◌else◌}

-- A test "comes no later than" with its laws.
pub record LinearOrder {ℓ} (A : Type ℓ) : Type ℓ where
  pub le : A → A → Bool
  pub le_total : (x y : A) → le x y ≡ false → le y x ≡ true
  pub le_antisymm : (x y : A) → le x y ≡ true → le y x ≡ true → x ≡ y
  pub le_trans : (x y z : A) → le x y ≡ true → le y z ≡ true → le x z ≡ true

unfoldable pub insert_by {ℓ} : {A : Type ℓ} → (A → A → Bool) → A → List A → List A
insert_by le x [] = x ∷ []
insert_by le x (y ∷ ys) = let rest = insert_by le x ys in if le x y then x ∷ y ∷ ys else y ∷ rest

unfoldable pub sort_by {ℓ} : {A : Type ℓ} → (A → A → Bool) → List A → List A
unfolding insert_by
sort_by le [] = []
sort_by le (x ∷ xs) = insert_by le x (sort_by le xs)

-- Each element comes no later than the next one.
abbrev pub Ascending {ℓ} : {A : Type ℓ} → (A → A → Bool) → List A → Type 0
Ascending le [] = Unit
Ascending le (x ∷ []) = Unit
Ascending le (x ∷ y ∷ l) = (le x y ≡ true) × Ascending le (y ∷ l)

module _ {ℓ} {A : Type ℓ} (o : LinearOrder A) where
  insert_by_comm :
      (x y : A) (l : List A)
      → insert_by o.le x (insert_by o.le y l) ≡ insert_by o.le y (insert_by o.le x l)
  unfolding insert_by
  insert_by_comm x y [] = ground (arith, o.le_total x y, o.le_antisymm x y)
  insert_by_comm x y (z ∷ l) = ground (
    arith,
    o.le_total x y,
    o.le_antisymm x y,
    o.le_trans x y z,
    o.le_trans y x z,
    insert_by_comm x y l,
  )

  sort_by-Permᴰ : {xs ys : List A} → Permᴰ xs ys → sort_by o.le xs ≡ sort_by o.le ys
  unfolding sort_by
  sort_by-Permᴰ Permᴰ.nil = refl
  sort_by-Permᴰ (Permᴰ.cons e p) = ap₂ (insert_by o.le) e (sort_by-Permᴰ p)
  sort_by-Permᴰ (Permᴰ.swap {a = x} {b = y} {l = l} e f) =
      insert_by_comm x y (sort_by o.le l)
      ∙ ap₂ (λ u v. insert_by o.le u (insert_by o.le v (sort_by o.le l))) f e
  sort_by-Permᴰ (Permᴰ.trans p q) = sort_by-Permᴰ p ∙ sort_by-Permᴰ q

  pub sort_by-Perm : Discrete A → {xs ys : List A} → Perm xs ys → sort_by o.le xs ≡ sort_by o.le ys
  sort_by-Perm d p = ∥∥₁_elim p (hedberg (hlevel d) _ _) sort_by-Permᴰ

  insert_by-Ascending :
      (x : A) (l : List A) → Ascending o.le l → Ascending o.le (insert_by o.le x l)
  unfolding insert_by
  insert_by-Ascending x [] h = tt
  insert_by-Ascending x (y ∷ []) h = ground (arith, o.le_total x y)
  insert_by-Ascending x (y ∷ z ∷ l) h =
      ground (arith, o.le_total x y, insert_by-Ascending x (z ∷ l))

  pub sort_by-Ascending : (l : List A) → Ascending o.le (sort_by o.le l)
  unfolding sort_by
  sort_by-Ascending [] = tt
  sort_by-Ascending (x ∷ l) = insert_by-Ascending x (sort_by o.le l) (sort_by-Ascending l)

count-insert_by {ℓ} :
    {A : Type ℓ} (le : A → A → Bool) (p : A → Bool) (x : A) (l : List A)
    → count p (insert_by le x l) ≡ count p (x ∷ l)
unfolding insert_by
count-insert_by le p x [] = refl
count-insert_by le p x (y ∷ l) = ground (arith, count-insert_by le p x l)

pub count-sort_by {ℓ} :
    {A : Type ℓ} (le : A → A → Bool) (p : A → Bool) (l : List A)
    → count p (sort_by le l) ≡ count p l
unfolding sort_by
count-sort_by le p [] = refl
count-sort_by le p (x ∷ l) =
    ground (arith, count-insert_by le p x (sort_by le l), count-sort_by le p l)
