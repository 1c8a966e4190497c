-- ===== src/SafeArray/Rank.antt =====
-- The place of an element in the order of the walk, the last dimension running fastest.
use luacom.Prelude.{ℕ, ◌+◌, ◌*◌, ◌^◌, ◌≤◌, ◌<◌, ◌≡◌, true, false, List, [], ◌∷◌, arith}
use luacom.Prelude.Int.{ℤ, pos, negsuc, pos_part, neg_part, ltb_ℤ, ◌+ℤ◌, ◌-ℤ◌, ◌≤ℤ◌}
use luacom.Vector.{Bound}
use luacom.SafeArray.{to_long, next_index, end_of}

-- How far an index is above its lower bound.
unfoldable pub above : ℤ → Bound → ℕ
above i b = pos_part (i -ℤ b.lower)

-- The functions of this module take the last dimension first.
unfoldable pub rank : List ℤ → List Bound → ℕ
rank [] bs = 0
rank (i ∷ is) [] = 0
rank (i ∷ is) (b ∷ bs) = above i b + b.elements * rank is bs

unfoldable pub total : List Bound → ℕ
total [] = 1
total (b ∷ bs) = b.elements * total bs

abbrev pub Inside : List ℤ → List Bound → Type 0
Inside [] [] = Unit {0}
Inside [] (b ∷ bs) = ⊥
Inside (i ∷ is) [] = ⊥
Inside (i ∷ is) (b ∷ bs) = (b.lower ≤ℤ i) × (above i b < b.elements) × Inside is bs

-- A long of 32 bits holds both ends of the dimension, and its number of elements.
abbrev pub InLong : Bound → Type 0
InLong b =
    (neg_part b.lower ≤ 2 ^ 31)
    × (pos_part b.lower + b.elements < 2 ^ 31 + neg_part b.lower)
    × (b.elements < 2 ^ 31)

abbrev pub AllInLong : List Bound → Type 0
AllInLong [] = Unit {0}
AllInLong (b ∷ bs) = InLong b × AllInLong bs

to_long-small : (a : ℤ) → neg_part a ≤ 2 ^ 31 → pos_part a < 2 ^ 31 → to_long a ≡ a
unfolding to_long
to_long-small (pos n) l h = grind arith
to_long-small (negsuc n) l h = grind arith

-- Then nothing wraps.
pub end_of-InLong : (b : Bound) → InLong b → end_of b ≡ pos b.elements +ℤ b.lower
unfolding end_of ◌+ℤ◌
end_of-InLong b (l, h, e) =
    let first = to_long-small (pos b.elements) (omega arith) e in
    rw first (to_long-small (pos b.elements +ℤ b.lower) (ground arith) (ground arith))

pub next_index-InLong :
    (i : ℤ) (b : Bound)
    → InLong b
    → b.lower ≤ℤ i
    → above i b < b.elements
    → next_index i ≡ i +ℤ pos 1
unfolding next_index above ◌+ℤ◌ ◌-ℤ◌
next_index-InLong i b (l, h, e) low less = to_long-small (i +ℤ pos 1) (ground arith) (ground arith)

-- The test for the end of a dimension, in terms of the distance from its lower bound.
pub step_inside :
    (i : ℤ) (b : Bound)
    → b.lower ≤ℤ i
    → ltb_ℤ (i +ℤ pos 1) (pos b.elements +ℤ b.lower) ≡ true
    → (b.lower ≤ℤ (i +ℤ pos 1))
      × (above (i +ℤ pos 1) b ≡ above i b + 1)
      × (above i b + 1 < b.elements)
unfolding above ◌+ℤ◌ ◌-ℤ◌
step_inside i b l t = ground arith

pub step_over :
    (i : ℤ) (b : Bound)
    → b.lower ≤ℤ i
    → above i b < b.elements
    → ltb_ℤ (i +ℤ pos 1) (pos b.elements +ℤ b.lower) ≡ false
    → above i b + 1 ≡ b.elements
unfolding above ◌+ℤ◌ ◌-ℤ◌
step_over i b l h t = ground arith

pub lower_inside : (b : Bound) → (b.lower ≤ℤ b.lower) × (above b.lower b ≡ 0)
unfolding above ◌-ℤ◌
lower_inside b = ground arith
