-- ===== src/Examples/Vectors.antt =====
-- Small tables and the vectors made of them (src/library/tLuaVector.cpp).
use luacom.Prelude.{ℕ, ◌+◌, ◌≡◌, refl, some, List, [], ◌∷◌, map, arith, get_elem?}
use luacom.Prelude.Int.{ℤ, pos, ◌+ℤ◌}
use luacom.Prelude.Result.{ok, fault}
use luacom.Vector.{
  number, Vector, unknown, scalar, vector, nil, cons, count, Bound, get_dimensions,
  get_nth_dimension, get_index, set_index,
}
use luacom.Vector.Shape.{Shape}
use luacom.Vector.Load.{LuaValue, num, tab, Items, end, then_item, load_items, init_from_table}
use luacom.Vector.Represents.{elements}
use luacom.Vector.Access.{element_at, get_index-init_from_table}
use luacom.Vector.Matrix.{always, Loaded, load_items-Matrix}
use luacom.Vector.Buffers.{Fits, unknown_fits, load_items-Fits}
use luacom.SafeArray.{inc_indices, first_indices}
use luacom.SafeArray.Rank.{total}
use luacom.SafeArray.Fill.{put_elements}
use luacom.Prelude.{some, reverse}
use luacom.Vector.Ragged.{ragged_null_read}

abbrev row : ℕ → ℕ → Items
row x y = then_item (num x) (then_item (num y) end)

-- {{1, 2}, {3, 4}}
abbrev square : Items
square = then_item (tab (row 1 2)) (then_item (tab (row 3 4)) end)

abbrev square_vector : Vector
square_vector =
    vector 10 number
      (cons (scalar 10 number (2 ∷ 3 ∷ [])) (cons (scalar 10 number (5 ∷ 6 ∷ [])) nil))

square-Shape : Shape (2 ∷ 2 ∷ []) square_vector
unfolding count
square-Shape = (refl, (refl, (refl, tt)))

abbrev square_stack : List LuaValue
square_stack = tab (row 1 2) ∷ num 1 ∷ num 2 ∷ tab (row 3 4) ∷ num 3 ∷ num 4 ∷ []

load-square : load_items always 0 square unknown [] ≡ ok (square_vector, square_stack)
unfolding load_items
load-square = refl

init-square : init_from_table always 0 (tab square) [] ≡ ok (square_vector, square_stack)
unfolding init_from_table
init-square = load-square

get-square : get_index square_vector (map pos (1 ∷ 0 ∷ [])) (pos 0) ≡ ok 5
unfolding get_index
get-square = refl

abbrev written_square : Vector
written_square =
    vector 10 number
      (cons (scalar 10 number (2 ∷ 3 ∷ [])) (cons (scalar 10 number (9 ∷ 6 ∷ [])) nil))

abbrev from_zero : List Bound
from_zero = record { elements = 2; lower = pos 0 } ∷ record { elements = 2; lower = pos 0 } ∷ []

set-square : set_index square_vector 9 number (pos 1 ∷ pos 0 ∷ []) from_zero ≡ ok written_square
unfolding set_index
set-square = refl

get_index-init_from_table_example :
    (x : LuaValue) × (element_at (elements square) (1 ∷ 0 ∷ []) ≡ some x)
    × (k : ℕ) × (5 ≡ 0 + k + 1)
    × (get_elem? square_stack k ≡ some x)
get_index-init_from_table_example =
    get_index-init_from_table 0 always square square_vector [] square_stack (1 ∷ 0 ∷ []) 5
      init-square get-square

load_items-Matrix_example : Loaded (2 ∷ 2 ∷ []) (load_items always 0 square unknown [])
load_items-Matrix_example =
    load_items-Matrix 0 (2 ∷ 2 ∷ []) square [] (refl, ((refl, tt), ((refl, tt), tt)))
      (omega arith, (omega arith, tt))

load_items-Fits_example : Fits square_vector
load_items-Fits_example =
    load_items-Fits always 0 square unknown square_vector [] square_stack unknown_fits load-square

ragged_null_read_example :
    (v : Vector) × (st' : List LuaValue) × (load_items always 0
        (then_item (tab (row 1 2)) (then_item (tab square) end))
        unknown
        []
      ≡ ok (v, st'))
    × (get_dimensions v ≡ ok 2)
    × (get_nth_dimension v 1 ≡ ok 2)
    × (get_nth_dimension v 2 ≡ ok 2)
    × (get_index v (pos 1 ∷ pos 0 ∷ []) (pos 0) ≡ fault)
ragged_null_read_example =
    ragged_null_read 0 2 2 0 [] (row 1 2) square [] (refl, tt)
      (refl, ((refl, tt), ((refl, tt), tt))) (omega arith) (omega arith, tt)

abbrev square_values : List (List ℤ × ℕ)
square_values =
    (pos 0 ∷ pos 0 ∷ [], 2)
    ∷ (pos 0 ∷ pos 1 ∷ [], 3)
    ∷ (pos 1 ∷ pos 0 ∷ [], 5)
    ∷ (pos 1 ∷ pos 1 ∷ [], 6)
    ∷ []

put-square :
    put_elements ok 4 square_vector (first_indices from_zero) from_zero ≡ ok (some square_values)
unfolding put_elements get_index inc_indices first_indices ◌+ℤ◌
put-square = refl

total-square : total (reverse from_zero) ≡ 4
unfolding total
total-square = refl
