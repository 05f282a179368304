-- ===== src/Common/HashSet.antt =====
-- `HashSet` as a list with no member twice.
use mathlib.Core.Path.{◌≡◌}
use mathlib.Core.Bool.{Bool, false, ◌||◌}
use mathlib.Core.List.{List, [], ◌∷◌}
use native.Mathlib.Omega.{arith}
use rundler.Common.Tests.{if◌then◌else◌}
use rundler.Common.Keys.{KeyEq, ◌==◌}

abbrev pub HashSet {ℓ} : Type ℓ → Type ℓ
HashSet A = List A

module _ {ℓ} {A : Type ℓ} ⦃e : KeyEq A⦄ where
  unfoldable pub contains : A → HashSet A → Bool
  contains a [] = false
  contains a (x ∷ s) = x == a || contains a s

  unfoldable pub insert : A → HashSet A → HashSet A
  unfolding contains
  insert a s = if contains a s then s else a ∷ s

  unfoldable pub remove : A → HashSet A → HashSet A
  remove a [] = []
  remove a (x ∷ s) = let rest = remove a s in if x == a then rest else x ∷ rest

  pub contains-insert :
      (a b : A) (s : HashSet A) → contains b (insert a s) ≡ (a == b || contains b s)
  unfolding insert contains
  contains-insert a b s = ground (arith, e.same_iff a b)

  pub contains-remove :
      (a b : A) (s : HashSet A) → contains b (remove a s) ≡ (if a == b then false else contains b s)
  unfolding remove contains
  contains-remove a b [] = ground arith
  contains-remove a b (x ∷ s) =
      ground (arith, e.same_iff a b, e.same_iff x a, e.same_iff x b, contains-remove a b s)

  -- No member stands twice.
  abbrev pub Distinct : HashSet A → Type 0
  Distinct [] = Unit
  Distinct (x ∷ s) = (contains x s ≡ false) × Distinct s

  pub insert-Distinct : (a : A) (s : HashSet A) → Distinct s → Distinct (insert a s)
  unfolding insert
  insert-Distinct a s d = ground arith

  pub remove-Distinct : (a : A) (s : HashSet A) → Distinct s → Distinct (remove a s)
  unfolding remove
  remove-Distinct a [] d = tt
  remove-Distinct a (x ∷ s) d = ground (arith, contains-remove a x s, remove-Distinct a s d.1)
