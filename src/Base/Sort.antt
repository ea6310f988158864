-- ===== src/Base/Sort.antt =====
-- `slices.Sort` on texts: insertion sort by Go's byte order, which is the order of code points.
use Prim.Native.Char.{code}
use Prim.Native.String.{String}
use mathlib.Core.Path.{◌≡◌, refl, sym, ap, ap₂, ◌∙◌}
use mathlib.Core.Logic.{inl, inr, ∥∥₁_elim}
use mathlib.Core.Bool.{Bool, true, false, false≢true}
use mathlib.Core.HLevel.{hedberg}
use mathlib.Core.List.{List, [], ◌∷◌, Perm, Permᴰ}
use native.Mathlib.Omega.{arith}
use text.Mathlib.TextEquality.{Char-path}
use eyrie.Base.Tests.{ltb, ◌==◌, nat_eq, string_eq, str_eq_iff, if◌then◌else◌, Bool-cases}

unfoldable pub text_leb : String → String → Bool
text_leb String.[] t = true
text_leb (String.◌∷◌ c s) String.[] = false
text_leb (String.◌∷◌ c s) (String.◌∷◌ d t) =
    let rest = text_leb s t in
    if ltb (code c) (code d) then true else if code c == code d then rest else false

unfoldable pub insert_sorted : String → List String → List String
insert_sorted x [] = x ∷ []
insert_sorted x (y ∷ ys) =
    let rest = insert_sorted x ys in if text_leb x y then x ∷ y ∷ ys else y ∷ rest

unfoldable pub sort : List String → List String
unfolding insert_sorted
sort [] = []
sort (x ∷ xs) = insert_sorted x (sort xs)

pub text_leb_total : (s t : String) → text_leb s t ≡ false → text_leb t s ≡ true
unfolding text_leb
text_leb_total String.[] t h = ground arith
text_leb_total (String.◌∷◌ c s) String.[] h = refl
text_leb_total (String.◌∷◌ c s) (String.◌∷◌ d t) h = ground (arith, text_leb_total s t)

pub text_leb_antisymm : (s t : String) → text_leb s t ≡ true → text_leb t s ≡ true → s ≡ t
unfolding text_leb
text_leb_antisymm String.[] String.[] h k = refl
text_leb_antisymm String.[] (String.◌∷◌ d t) h k = cc
text_leb_antisymm (String.◌∷◌ c s) String.[] h k = cc
text_leb_antisymm (String.◌∷◌ c s) (String.◌∷◌ d t) h k =
    ap₂ (λ x y. String.◌∷◌ x y) (Char-path c d (ground arith))
      (text_leb_antisymm s t (ground arith) (ground arith))

pub text_leb_trans :
    (r s t : String) → text_leb r s ≡ true → text_leb s t ≡ true → text_leb r t ≡ true
unfolding text_leb
text_leb_trans String.[] s t h k = refl
text_leb_trans (String.◌∷◌ c r) String.[] t h k = cc
text_leb_trans (String.◌∷◌ c r) (String.◌∷◌ d s) String.[] h k = cc
text_leb_trans (String.◌∷◌ c r) (String.◌∷◌ d s) (String.◌∷◌ e t) h k =
    ground (arith, text_leb_trans r s t)

pub insert_sorted_comm :
    (x y : String) (l : List String)
    → insert_sorted x (insert_sorted y l) ≡ insert_sorted y (insert_sorted x l)
unfolding insert_sorted
insert_sorted_comm x y [] = ground (arith, text_leb_total x y, text_leb_antisymm x y)
insert_sorted_comm x y (z ∷ l) = ground (
  arith,
  text_leb_total x y,
  text_leb_antisymm x y,
  text_leb_trans x y z,
  text_leb_trans y x z,
  insert_sorted_comm x y l,
)

sort-insert_sorted :
    (x : String) (l : List String) → sort (insert_sorted x l) ≡ insert_sorted x (sort l)
unfolding sort
sort-insert_sorted x [] = refl
sort-insert_sorted x (y ∷ l) = elim (Bool-cases (text_leb x y)) [
  | inl e ↦ rw (e, insert_sorted)
  | inr e ↦
      rw (e, insert_sorted)
        (ap (insert_sorted y) (sort-insert_sorted x l) ∙ insert_sorted_comm y x (sort l))
]

pub sort-sort : (l : List String) → sort (sort l) ≡ sort l
unfolding sort
sort-sort [] = refl
sort-sort (x ∷ l) = sort-insert_sorted x (sort l) ∙ ap (insert_sorted x) (sort-sort l)

sort-Permᴰ : {xs ys : List String} → Permᴰ xs ys → sort xs ≡ sort ys
unfolding sort
sort-Permᴰ Permᴰ.nil = refl
sort-Permᴰ (Permᴰ.cons e p) = ap₂ insert_sorted e (sort-Permᴰ p)
sort-Permᴰ (Permᴰ.swap {a = x} {b = y} {l = l} e f) =
    insert_sorted_comm x y (sort l) ∙ ap₂ (λ u v. insert_sorted u (insert_sorted v (sort l))) f e
sort-Permᴰ (Permᴰ.trans p q) = sort-Permᴰ p ∙ sort-Permᴰ q

pub String-discrete : Discrete String
String-discrete s t = elim (Bool-cases (s == t)) [
  | inl e ↦ yes ((str_eq_iff s t).0 e)
  | inr e ↦ no (λ p. false≢true (sym e ∙ (str_eq_iff s t).1 p))
]

-- The order in which the elements came does not matter.
pub sort-Perm : {xs ys : List String} → Perm xs ys → sort xs ≡ sort ys
sort-Perm p = ∥∥₁_elim p (hedberg (hlevel String-discrete) _ _) sort-Permᴰ
