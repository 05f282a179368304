-- ===== src/Common/HashMap.antt =====
-- `HashMap` and `LruMap` as association lists. `IsMap` says that no key stands twice, which a hash map
-- guarantees and every operation keeps. The laws are in `if` form.
pub mod Values
use Prim.Native.Nat.{ℕ, ◌+◌}
use mathlib.Core.Path.{◌≡◌, refl, subst}
use mathlib.Core.Logic.{◌≢◌, ◌⊎◌, inl, inr}
use mathlib.Core.Bool.{Bool}
use mathlib.Core.Option.{Option, none, some}
use mathlib.Core.List.{List, [], ◌∷◌}
use native.Mathlib.Omega.{arith}
use rundler.Common.Tests.{if◌then◌else◌, Bool-cases}
use rundler.Common.Keys.{KeyEq, ◌==◌}

abbrev pub HashMap {ℓ} : Type ℓ → Type ℓ → Type ℓ
HashMap K V = List (K × V)

module _ {ℓ} {K V : Type ℓ} ⦃e : KeyEq K⦄ where
  -- `get`.
  unfoldable pub get : K → HashMap K V → Option V
  get k [] = none
  get k ((j, v) ∷ m) = if j == k then some v else get k m

  -- `insert`, which overwrites.
  unfoldable pub insert : K → V → HashMap K V → HashMap K V
  insert k v [] = (k, v) ∷ []
  insert k v ((j, w) ∷ m) = if j == k then (k, v) ∷ m else (j, w) ∷ insert k v m

  unfoldable pub remove : K → HashMap K V → HashMap K V
  remove k [] = []
  remove k ((j, w) ∷ m) = let rest = remove k m in if j == k then rest else (j, w) ∷ rest

  -- `values_mut` in a loop.
  unfoldable pub map_values : (V → V) → HashMap K V → HashMap K V
  map_values f [] = []
  map_values f ((j, w) ∷ m) = (j, f w) ∷ map_values f m

  unfoldable pub retain : (K → V → Bool) → HashMap K V → HashMap K V
  retain p [] = []
  retain p ((j, w) ∷ m) = let rest = retain p m in if p j w then (j, w) ∷ rest else rest

  abbrev pub IsMap : HashMap K V → Type ℓ
  IsMap [] = Unit
  IsMap ((j, w) ∷ m) = (get j m ≡ none) × IsMap m

  pub get-insert :
      (k j : K) (v : V) (m : HashMap K V)
      → get j (insert k v m) ≡ (if k == j then some v else get j m)
  unfolding get insert
  get-insert k j v [] = refl
  get-insert k j v ((i, w) ∷ m) =
      ground (arith, e.same_iff k j, e.same_iff i k, e.same_iff i j, get-insert k j v m)

  pub get-remove :
      (k j : K) (m : HashMap K V) → get j (remove k m) ≡ (if k == j then none else get j m)
  unfolding get remove
  get-remove k j [] = ground arith
  get-remove k j ((i, w) ∷ m) =
      ground (arith, e.same_iff k j, e.same_iff i k, e.same_iff i j, get-remove k j m)

  -- What a lookup after `remove` finds was there, under another key, and the rest is still found.
  pub get-removed :
      (k j : K) (v : V) (m : HashMap K V)
      → get j (remove k m) ≡ some v
      → (k ≢ j) × (get j m ≡ some v)
  get-removed k j v m h = ground (arith, e.same_iff k j, get-remove k j m)

  pub get_apart : (k j : K) (m : HashMap K V) → k ≢ j → get j (remove k m) ≡ get j m
  get_apart k j m h = ground (arith, e.same_iff k j, get-remove k j m)

  pub get_once :
      (k j : K) (v w : V) (m : HashMap K V) → get k m ≡ some v → get j m ≡ some w → k ≡ j → v ≡ w
  get_once k j v w m hv hw h = ground arith

  pub get_unlike : (k j : K) (v : V) (m : HashMap K V) → get k m ≡ none → get j m ≡ some v → k ≢ j
  get_unlike k j v m hk hj = ground arith

  pub get_gone : (k j : K) (m : HashMap K V) → k ≡ j → get j (remove k m) ≡ none
  get_gone k j m h = ground (arith, e.same_iff k j, get-remove k j m)

  pub get_absent : (k j : K) (m : HashMap K V) → get j m ≡ none → get j (remove k m) ≡ none
  get_absent k j m h = ground (arith, get-remove k j m)

  pub get-reinserted :
      (k j : K) (v : V) (m : HashMap K V)
      → get k m ≡ some v
      → get j (insert k v (remove k m)) ≡ get j m
  get-reinserted k j v m h =
      ground (arith, e.same_iff k j, get-insert k j v (remove k m), get-remove k j m)

  pub get_inserted : (k : K) (v : V) (m : HashMap K V) → get k (insert k v m) ≡ some v
  get_inserted k v m = ground (arith, e.same_iff k k, get-insert k k v m)

  pub get-insert_cases :
      (k j : K) (v w : V) (m : HashMap K V)
      → get j (insert k v m) ≡ some w
      → ((k ≡ j) × (v ≡ w)) ⊎ ((k ≢ j) × (get j m ≡ some w))
  get-insert_cases k j v w m h = elim (Bool-cases (k == j)) [
    | inl same ↦ inl (ground (arith, e.same_iff k j, get-insert k j v m))
    | inr differ ↦ inr (ground (arith, e.same_iff k j, get-insert k j v m))
  ]

  pub get_past : (k j : K) (v : V) (m : HashMap K V) → k ≢ j → get j (insert k v m) ≡ get j m
  get_past k j v m h = ground (arith, e.same_iff k j, get-insert k j v m)

  pub get-map_values :
      (f : V → V) (k : K) (m : HashMap K V)
      → get k (map_values f m) ≡ elim (get k m) [ none ↦ none | some v ↦ some (f v) ]
  unfolding get map_values
  get-map_values f k [] = refl
  get-map_values f k ((i, w) ∷ m) = ground (arith, get-map_values f k m)

  get-retain_absent :
      (p : K → V → Bool) (k : K) (m : HashMap K V) → get k m ≡ none → get k (retain p m) ≡ none
  unfolding get retain
  get-retain_absent p k [] h = refl
  get-retain_absent p k ((i, w) ∷ m) h = ground (arith, get-retain_absent p k m)

  pub get-retain :
      (p : K → V → Bool) (k : K) (m : HashMap K V)
      → IsMap m
      → get k (retain p m)
        ≡ elim (get k m) [ none ↦ none | some v ↦ if p k v then some v else none ]
  unfolding get retain
  get-retain p k [] d = refl
  get-retain p k ((i, w) ∷ m) d =
      ground (arith, e.same_iff i k, get-retain p k m d.1, get-retain_absent p k m)

  pub insert-IsMap : (k : K) (v : V) (m : HashMap K V) → IsMap m → IsMap (insert k v m)
  unfolding insert get
  insert-IsMap k v [] d = (refl, tt)
  insert-IsMap k v ((i, w) ∷ m) d =
      ground (arith, e.same_iff i k, e.same_iff k i, get-insert k i v m, insert-IsMap k v m d.1)

  pub remove-IsMap : (k : K) (m : HashMap K V) → IsMap m → IsMap (remove k m)
  unfolding remove
  remove-IsMap k [] d = tt
  remove-IsMap k ((i, w) ∷ m) d = ground (arith, get-remove k i m, remove-IsMap k m d.1)

  pub map_values-IsMap : (f : V → V) (m : HashMap K V) → IsMap m → IsMap (map_values f m)
  unfolding map_values
  map_values-IsMap f [] d = tt
  map_values-IsMap f ((i, w) ∷ m) d = ground (arith, get-map_values f i m, map_values-IsMap f m d.1)

  pub retain-IsMap : (p : K → V → Bool) (m : HashMap K V) → IsMap m → IsMap (retain p m)
  unfolding retain
  retain-IsMap p [] d = tt
  retain-IsMap p ((i, w) ∷ m) d = ground (arith, get-retain_absent p i m, retain-IsMap p m d.1)

  pub ruleset map_laws = (get-insert, get-remove, get-map_values)
