-- ===== src/Common/HashMap/Values.antt =====
-- The values that a map stores: a predicate on all of them, and their total weight.
use Prim.Native.Nat.{ℕ, ◌+◌}
use mathlib.Core.Path.{◌≡◌, refl, subst}
use mathlib.Core.Logic.{inl, inr}
use mathlib.Core.Bool.{Bool}
use mathlib.Core.Option.{Option, none, some}
use mathlib.Core.List.{[], ◌∷◌}
use native.Mathlib.Omega.{arith}
use rundler.Common.Tests.{Bool-cases}
use rundler.Common.Keys.{KeyEq, ◌==◌}
use rundler.Common.HashMap.{HashMap, get, insert, remove, map_values, retain, IsMap}

abbrev pub weight {ℓ} : {V : Type ℓ} → (V → ℕ) → Option V → ℕ
weight f none = 0
weight f (some v) = f v

module _ {ℓ} {K V : Type ℓ} ⦃e : KeyEq K⦄ where
  -- A predicate on every stored value.
  abbrev pub AllValues {κ} : (V → Type κ) → HashMap K V → Type κ
  AllValues P [] = Unit
  AllValues P ((j, w) ∷ m) = P w × AllValues P m

  pub AllValues-insert {κ} :
      (P : V → Type κ) (k : K) (v : V) (m : HashMap K V)
      → P v
      → AllValues P m
      → AllValues P (insert k v m)
  unfolding insert
  AllValues-insert P k v [] p h = (p, tt)
  AllValues-insert P k v ((i, w) ∷ m) p h = elim (Bool-cases (i == k)) [
    | inl hit ↦ rw hit (p, h.1)
    | inr miss ↦ rw miss (h.0, AllValues-insert P k v m p h.1)
  ]

  pub AllValues-remove {κ} :
      (P : V → Type κ) (k : K) (m : HashMap K V) → AllValues P m → AllValues P (remove k m)
  unfolding remove
  AllValues-remove P k [] h = tt
  AllValues-remove P k ((i, w) ∷ m) h = elim (Bool-cases (i == k)) [
    | inl hit ↦ rw hit (AllValues-remove P k m h.1)
    | inr miss ↦ rw miss (h.0, AllValues-remove P k m h.1)
  ]

  pub AllValues-map_values {κ} :
      (P : V → Type κ) (f : V → V)
      → ((v : V) → P v → P (f v))
      → (m : HashMap K V) → AllValues P m
      → AllValues P (map_values f m)
  unfolding map_values
  AllValues-map_values P f keep [] h = tt
  AllValues-map_values P f keep ((i, w) ∷ m) h = (keep w h.0, AllValues-map_values P f keep m h.1)

  pub AllValues-retain {κ} :
      (P : V → Type κ) (p : K → V → Bool) (m : HashMap K V)
      → AllValues P m
      → AllValues P (retain p m)
  unfolding retain
  AllValues-retain P p [] h = tt
  AllValues-retain P p ((i, w) ∷ m) h = elim (Bool-cases (p i w)) [
    | inl keep ↦ rw keep (h.0, AllValues-retain P p m h.1)
    | inr drop ↦ rw drop (AllValues-retain P p m h.1)
  ]

  pub AllValues-get {κ} :
      (P : V → Type κ) (k : K) (m : HashMap K V) (v : V) → AllValues P m → get k m ≡ some v → P v
  unfolding get
  AllValues-get P k [] v h q = absurd (ground arith)
  AllValues-get P k ((i, w) ∷ m) v h q = elim (Bool-cases (i == k)) [
    | inl hit ↦ subst P (ground arith) h.0
    | inr miss ↦ AllValues-get P k m v h.1 (ground arith)
  ]

  -- The total weight of the stored values.
  unfoldable pub sum_values : (V → ℕ) → HashMap K V → ℕ
  sum_values f [] = 0
  sum_values f ((j, w) ∷ m) = f w + sum_values f m

  -- `insert` replaces the old weight of the key by the new one.
  pub sum_values-insert :
      (f : V → ℕ) (k : K) (v : V) (m : HashMap K V)
      → sum_values f (insert k v m) + weight f (get k m) ≡ sum_values f m + f v
  unfolding sum_values insert get
  sum_values-insert f k v [] = omega arith
  sum_values-insert f k v ((i, w) ∷ m) = ground (arith, sum_values-insert f k v m)

  remove_absent : (k : K) (m : HashMap K V) → get k m ≡ none → remove k m ≡ m
  unfolding remove get
  remove_absent k [] h = refl
  remove_absent k ((i, w) ∷ m) h = ground (arith, remove_absent k m)

  pub sum_values-remove :
      (f : V → ℕ) (k : K) (m : HashMap K V)
      → IsMap m
      → sum_values f (remove k m) + weight f (get k m) ≡ sum_values f m
  unfolding sum_values remove get
  sum_values-remove f k [] d = omega arith
  sum_values-remove f k ((i, w) ∷ m) d =
      ground (arith, e.same_iff i k, remove_absent k m, sum_values-remove f k m d.1)

  pub sum_values-removed :
      (f : V → ℕ) (k : K) (v : V) (m : HashMap K V)
      → IsMap m
      → get k m ≡ some v
      → sum_values f (remove k m) + f v ≡ sum_values f m
  sum_values-removed f k v m d h = ground (arith, sum_values-remove f k m d)

  pub sum_values-inserted :
      (f : V → ℕ) (k : K) (v : V) (m : HashMap K V)
      → get k m ≡ none
      → sum_values f (insert k v m) ≡ sum_values f m + f v
  sum_values-inserted f k v m h = ground (arith, sum_values-insert f k v m)
