-- ===== src/Prelude/Sorted.antt =====
-- `sorted(s)` of a set of texts: insertion without repetition, by code points.
use Prim.Native.String.{String, compare}
use Prim.Native.Nat.{Ordering}
use mathlib.Core.List.{List, [], ◌∷◌}

insert_sorted : String → List String → List String
insert_sorted k [] = k ∷ []
insert_sorted k (j ∷ js) =
    let rest = insert_sorted k js in
    elim (compare k j) [
      | Ordering.lt ↦ k ∷ (j ∷ js)
      | Ordering.eq ↦ j ∷ js
      | Ordering.gt ↦ j ∷ rest
    ]

unfoldable pub sorted_set : List String → List String
unfolding insert_sorted
sorted_set [] = []
sorted_set (k ∷ ks) = insert_sorted k (sorted_set ks)
