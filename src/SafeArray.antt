-- ===== src/SafeArray.antt =====
-- Walking a safearray (src/library/tLuaCOMTypeHandler.cpp): the step from one element's indices to
-- the next, and the loop that visits all elements.
pub mod Rank
pub mod Walk
pub mod Fill
use luacom.Prelude.{
  ℕ, zero, suc, ◌+◌, ◌-◌, ◌%◌, ◌^◌, ltb, Bool, true, false, List, [], ◌∷◌, map, reverse, Option,
  none, some, if◌then◌else◌,
}
use luacom.Prelude.Int.{ℤ, pos, negsuc, ltb_ℤ, ◌+ℤ◌}
use luacom.Vector.{Bound}

-- getRightOrderedBounds: the bounds from the last to the first.
pub right_ordered_bounds : List Bound → List Bound
right_ordered_bounds bounds = reverse bounds

-- dimensionsFromBounds
pub dimensions_from_bounds : List Bound → List ℕ
dimensions_from_bounds = map (λ b. b.elements)

-- What a long of 32 bits keeps of an integer.
unfoldable pub to_long : ℤ → ℤ
to_long (pos n) = let m = n % 2 ^ 32 in if ltb m (2 ^ 31) then pos m else negsuc (2 ^ 32 - 1 - m)
to_long (negsuc n) = let m = n % 2 ^ 32 in if ltb m (2 ^ 31) then negsuc m else pos (2 ^ 32 - 1 - m)

-- The index after another, and the end of a bound, `(long) cElements + lLbound`.
unfoldable pub next_index : ℤ → ℤ
unfolding to_long
next_index i = to_long (i +ℤ pos 1)

unfoldable pub end_of : Bound → ℤ
unfolding to_long
end_of b = to_long (to_long (pos b.elements) +ℤ b.lower)

-- The loop of inc_indices, on the indices and bounds from the one at `j` downwards: count the
-- index up, and where it leaves its bound, set it back and go on with the one before. The result
-- says whether the loop has stopped before the indices were used up.
unfoldable pub inc_from : List ℤ → List Bound → List ℤ × Bool
unfolding next_index end_of
inc_from [] bounds = ([], false)
inc_from (i ∷ is) [] = (i ∷ is, false)
inc_from (i ∷ is) (b ∷ bs) =
    let rest = inc_from is bs in
    if ltb_ℤ (next_index i) (end_of b)
    then (next_index i ∷ is, true)
    else (b.lower ∷ rest.0, rest.1)

unfoldable pub inc_indices : List ℤ → List Bound → List ℤ × Bool
unfolding inc_from
inc_indices indices bounds =
    let r = inc_from (reverse indices) (reverse bounds) in (reverse r.0, r.1)

-- The loop `do … while(inc_indices(…))` as the list of the indices that it visits. `none` means
-- that the fuel ran out.
pub visit : ℕ → List ℤ → List Bound → Option (List (List ℤ))
unfolding inc_indices
visit zero indices bounds = none
visit (suc fuel) indices bounds =
    let step = inc_indices indices bounds in
    let rest = visit fuel step.0 bounds in
    if step.1
    then elim rest [ none ↦ none | some later ↦ some (indices ∷ later) ]
    else some (indices ∷ [])

-- Where the loop begins: every index at its lower bound.
unfoldable pub first_indices : List Bound → List ℤ
first_indices = map (λ b. b.lower)
