-- ===== src/Common/Map.antt =====
-- Go maps with string keys, as association lists. A write replaces in place or adds at the end.
use Prim.Native.Nat.{◌+◌}
use mathlib.Core.Bool.{Bool, true, false}
use mathlib.Core.List.{List, [], ◌∷◌}
use mathlib.Core.Option.{Option, none, some}
use mathlib.Core.Path.{◌≡◌, refl}
use native.Mathlib.Omega.{arith}
use obsidian.Common.Lists.{length}
use obsidian.Common.Tests.{if◌then◌else◌}
use obsidian.Common.Text.{Bytes, same, same_iff}

abbrev pub Map : Type 0 → Type 0
Map V = List (Bytes × V)

module _ {V : Type 0} where
  unfoldable pub lookup : Bytes → Map V → Option V
  lookup k [] = none
  lookup k ((j, v) ∷ m) = if same j k then some v else lookup k m

  unfoldable pub insert : Bytes → V → Map V → Map V
  insert k v [] = (k, v) ∷ []
  insert k v ((j, w) ∷ m) = if same j k then (j, v) ∷ m else (j, w) ∷ insert k v m

  unfoldable pub delete : Bytes → Map V → Map V
  delete k [] = []
  delete k ((j, w) ∷ m) = if same j k then delete k m else (j, w) ∷ delete k m

  abbrev pub keys : Map V → List Bytes
  keys [] = []
  keys ((j, v) ∷ m) = j ∷ keys m

-- The presence half of `_, ok := m[k]`.
abbrev pub is_some : {V : Type 0} → Option V → Bool
is_some none = false
is_some (some v) = true

-- `for k, v := range m` that keeps, rewrites or deletes each value.
unfoldable pub sweep : {V : Type 0} → (V → Option V) → Map V → Map V
sweep f [] = []
sweep f ((j, v) ∷ m) = let rest = sweep f m in elim (f v) [ none ↦ rest | some w ↦ (j, w) ∷ rest ]

-- No key stands twice, as in every Go map.
abbrev pub IsMap : {V : Type 0} → Map V → Type 0
IsMap [] = Unit
IsMap ((j, v) ∷ m) = (lookup j m ≡ none) × IsMap m

module _ {V : Type 0} where
  pub lookup-insert :
      (k j : Bytes) (v : V) (m : Map V)
      → lookup j (insert k v m) ≡ (if same k j then some v else lookup j m)
  unfolding lookup insert
  lookup-insert k j v [] = refl
  lookup-insert k j v ((i, w) ∷ m) =
      ground (arith, same_iff i k, same_iff i j, same_iff k j, lookup-insert k j v m)

  pub lookup-delete :
      (k j : Bytes) (m : Map V) → lookup j (delete k m) ≡ (if same k j then none else lookup j m)
  unfolding lookup delete
  lookup-delete k j [] = ground arith
  lookup-delete k j ((i, w) ∷ m) =
      ground (arith, same_iff i k, same_iff i j, same_iff k j, lookup-delete k j m)

  pub insert-IsMap : (k : Bytes) (v : V) (m : Map V) → IsMap m → IsMap (insert k v m)
  unfolding insert lookup
  insert-IsMap k v [] h = (refl, tt)
  insert-IsMap k v ((i, w) ∷ m) h =
      ground (arith, insert-IsMap k v m h.1, lookup-insert k i v m, same_iff i k, same_iff k i)

  pub delete-IsMap : (k : Bytes) (m : Map V) → IsMap m → IsMap (delete k m)
  unfolding delete
  delete-IsMap k [] h = tt
  delete-IsMap k ((i, w) ∷ m) h = ground (arith, delete-IsMap k m h.1, lookup-delete k i m)

  -- A write adds an entry exactly if the key was absent.
  pub length-insert :
      (k : Bytes) (v : V) (m : Map V)
      → length (insert k v m) ≡ length m + (if is_some (lookup k m) then 0 else 1)
  unfolding insert lookup
  length-insert k v [] = omega arith
  length-insert k v ((i, w) ∷ m) = ground (arith, length-insert k v m)

  pub delete_absent : (k : Bytes) (m : Map V) → lookup k m ≡ none → delete k m ≡ m
  unfolding lookup delete
  delete_absent k [] h = refl
  delete_absent k ((i, w) ∷ m) h = ground (arith, delete_absent k m)

  -- A delete removes one entry exactly if the key was present.
  pub length-delete :
      (k : Bytes) (m : Map V)
      → IsMap m
      → length (delete k m) + (if is_some (lookup k m) then 1 else 0) ≡ length m
  unfolding delete lookup
  length-delete k [] h = omega arith
  length-delete k ((i, w) ∷ m) h =
      ground (arith, length-delete k m h.1, same_iff i k, delete_absent i m h.0)

  pub lookup-sweep_absent :
      (f : V → Option V) (k : Bytes) (m : Map V) → lookup k m ≡ none → lookup k (sweep f m) ≡ none
  unfolding lookup sweep
  lookup-sweep_absent f k [] h = refl
  lookup-sweep_absent f k ((i, w) ∷ m) h = ground (arith, lookup-sweep_absent f k m)

  pub lookup-sweep :
      (f : V → Option V) (k : Bytes) (m : Map V)
      → IsMap m
      → lookup k (sweep f m) ≡ elim (lookup k m) [ none ↦ none | some v ↦ f v ]
  unfolding lookup sweep
  lookup-sweep f k [] h = refl
  lookup-sweep f k ((i, w) ∷ m) h =
      ground (arith, lookup-sweep f k m h.1, lookup-sweep_absent f i m h.0, same_iff i k)

  pub sweep-IsMap : (f : V → Option V) (m : Map V) → IsMap m → IsMap (sweep f m)
  unfolding sweep
  sweep-IsMap f [] h = tt
  sweep-IsMap f ((i, w) ∷ m) h = ground (arith, sweep-IsMap f m h.1, lookup-sweep_absent f i m h.0)
