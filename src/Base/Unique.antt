-- ===== src/Base/Unique.antt =====
-- A loop that keeps what it has not seen yet, in the order of the first occurrences.

use mathlib.Core.Path.{◌≡◌, refl}
use mathlib.Core.Bool.{not, ◌&&◌}
use mathlib.Core.List.{List, [], ◌∷◌}
use native.Mathlib.Omega.{arith}
use eyrie.Base.Tests.{leb, Equality, ◌==◌, if◌then◌else◌}
use eyrie.Base.Lists.{contains, count}

module _ {ℓ} {A : Type ℓ} ⦃e : Equality A⦄ where
  unfoldable pub unique_from : List A → List A → List A
  unique_from seen [] = []
  unique_from seen (x ∷ rest) =
      let skipped = unique_from seen rest in
      let taken = x ∷ unique_from (x ∷ seen) rest in if contains seen x then skipped else taken

  pub count-unique_from :
      (x : A) (seen l : List A)
      → count (λ y. y == x) (unique_from seen l)
        ≡ (if contains l x && not (contains seen x) then 1 else 0)
  unfolding unique_from
  count-unique_from x seen [] = refl
  count-unique_from x seen (y ∷ l) =
      ground (arith, count-unique_from x seen l, count-unique_from x (y ∷ seen) l, e.agrees y x)

  contains-count : (x : A) (l : List A) → contains l x ≡ leb 1 (count (λ y. y == x) l)
  contains-count x [] = refl
  contains-count x (y ∷ l) = ground (arith, contains-count x l)

  -- Nothing is lost.
  pub contains-unique_from : (x : A) (l : List A) → contains (unique_from [] l) x ≡ contains l x
  contains-unique_from x l =
      ground (arith, contains-count x (unique_from [] l), count-unique_from x [] l)
