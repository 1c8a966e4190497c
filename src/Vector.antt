-- ===== src/Vector.antt =====
-- tLuaVector (src/library/tLuaVector.cpp): the matrix of Lua stack slots through which a Lua table
-- becomes a safearray and a safearray a table.
pub mod Shape
pub mod Dimensions
pub mod Load
pub mod Represents
pub mod Access
pub mod Matrix
pub mod Buffers
pub mod Ragged
use luacom.Prelude.{
  ℕ, zero, suc, ◌+◌, ◌-◌, ◌*◌, Bool, true, false, not, ◌&&◌, ◌||◌, List, [], ◌∷◌, ◌++◌, Option,
  none, some, ◌==◌, ltb, leb, if◌then◌else◌, length, get_elem?, set, replicate,
}
use luacom.Prelude.Int.{ℤ, pos, negsuc, ◌-ℤ◌}
use luacom.Prelude.Result.{
  Result, ok, throw, fault, ◌>>=◌, ◌>>◌, check, parameter_out_of_range, internal_error,
  typeconv_error,
}

-- tLuaVector::Type
pub data ArrayType : Type 0 where
  no_type number string userdata other many : ArrayType

-- Decides equality of types.
unfoldable pub same_type : ArrayType → ArrayType → Bool
same_type no_type no_type = true
same_type number number = true
same_type string string = true
same_type userdata userdata = true
same_type other other = true
same_type many many = true
same_type _ _ = false

-- A vector as one of the three states of `elem_type`. `unknown` has no elements and no storage.
-- The others have `max_length`, `array_type`, and the elements, whose number is `length`: slots of
-- the Lua stack (`luavals`, 0 for LUA_NOOBJECT) or child vectors (`vectors`).
mutual
  pub data Vector : Type 0 where
    unknown : Vector
    scalar : (max_length : ℕ) → ArrayType → List ℕ → Vector
    vector : (max_length : ℕ) → ArrayType → Vectors → Vector

  pub data Vectors : Type 0 where
    nil : Vectors
    cons : Vector → Vectors → Vectors

unfoldable pub count : Vectors → ℕ
count nil = 0
count (cons v vs) = suc (count vs)

unfoldable pub child : Vectors → ℕ → Option Vector
child nil i = none
child (cons v vs) zero = some v
child (cons v vs) (suc i) = child vs i

unfoldable pub set_child : Vectors → ℕ → Vector → Vectors
set_child nil i w = nil
set_child (cons v vs) zero w = cons w vs
set_child (cons v vs) (suc i) w = cons v (set_child vs i w)

unfoldable pub append : Vectors → Vector → Vectors
append nil w = cons w nil
append (cons v vs) w = cons v (append vs w)

unfoldable pub get_length : Vector → ℕ
unfolding count
get_length unknown = 0
get_length (scalar max ty vals) = length vals
get_length (vector max ty vs) = count vs

unfoldable pub get_type : Vector → ArrayType
get_type unknown = no_type
get_type (scalar max ty vals) = ty
get_type (vector max ty vs) = ty

-- CHECKPRECOND(length != 0 && elem_type != UNKNOWN)
pub get_dimensions : Vector → Result ℕ
get_dimensions unknown = throw internal_error
get_dimensions (scalar max ty []) = throw internal_error
get_dimensions (scalar max ty (x ∷ xs)) = ok 1
get_dimensions (vector max ty nil) = throw internal_error
get_dimensions (vector max ty (cons v vs)) = get_dimensions v >>= λ d. ok (1 + d)

-- CHECKPRECOND(n == 1 || elem_type == VECTOR). `vectors[0]` of a vector with no children is a
-- read out of bounds. The argument counts from 1; 0 stands for no dimension.
pub get_nth_dimension : Vector → ℕ → Result ℕ
unfolding get_length
get_nth_dimension v zero = throw internal_error
get_nth_dimension v (suc zero) = ok (get_length v)
get_nth_dimension unknown (suc (suc n)) = throw internal_error
get_nth_dimension (scalar max ty vals) (suc (suc n)) = throw internal_error
get_nth_dimension (vector max ty nil) (suc (suc n)) = fault
get_nth_dimension (vector max ty (cons v vs)) (suc (suc n)) = get_nth_dimension v (suc n)

-- SAFEARRAYBOUND
pub record Bound : Type 0 where
  pub elements : ℕ
  pub lower : ℤ

-- indices[0] - bounds[0].lLbound, if it lies in [0, length): CHECKPARAM
unfoldable pub offset : ℤ → ℤ → ℕ → Result ℕ
unfolding ◌-ℤ◌
offset index lower size = elim (index -ℤ lower) [
  | negsuc n ↦ throw parameter_out_of_range
  | pos n ↦ if ltb n size then ok n else throw parameter_out_of_range
]

-- The slot at an index: a read of `luavals` where there is none is a read through a null pointer.
abbrev pub slot_at : Vector → ℕ → Result ℕ
slot_at (scalar max ty vals) i = elim (get_elem? vals i) [ none ↦ fault | some s ↦ ok s ]
slot_at unknown i = fault
slot_at (vector max ty vs) i = fault

-- CHECKPRECOND(elem_type == VECTOR)
abbrev pub child_at : Vector → ℕ → Result Vector
child_at (vector max ty vs) i = elim (child vs i) [ none ↦ fault | some v ↦ ok v ]
child_at unknown i = throw internal_error
child_at (scalar max ty vals) i = throw internal_error

-- `size` is the number of the indices. Every level reads `bounds[0]`, the bound of the first
-- dimension, whose lower bound is the last argument.
unfoldable pub get_index : Vector → List ℤ → ℤ → Result ℕ
unfolding offset get_length child
get_index v [] lower = throw parameter_out_of_range
get_index v (index ∷ []) lower = do i ← offset index lower (get_length v); slot_at v i
get_index v (index ∷ next ∷ indices) lower = do
  i ← offset index lower (get_length v)
  w ← child_at v i
  get_index w (next ∷ indices) lower

-- tLuaVector::size
mutual
  pub size : Vector → ℕ
  size unknown = 0
  size (scalar max ty vals) = length vals
  size (vector max ty vs) = size_all vs

  pub size_all : Vectors → ℕ
  size_all nil = 0
  size_all (cons v vs) = size v + size_all vs

-- The type of an element after one more value: MANY as soon as two differ.
unfoldable pub merge_type : ArrayType → ArrayType → ArrayType
unfolding same_type
merge_type no_type new = new
merge_type ty new = if same_type new ty then ty else many

-- CHECKPARAM and the write of `luavals`, which is null but for a scalar vector.
abbrev pub write_slot : Vector → ℕ → ℕ → ArrayType → Result Vector
write_slot (scalar max ty vals) i slot new = ok (scalar max (merge_type ty new) (set vals i slot))
write_slot unknown i slot new = fault
write_slot (vector max ty vs) i slot new = fault

-- The child to go on with: TYPECONV_ERROR where the elements are no vectors.
abbrev pub vector_child : Vector → ℕ → Result Vector
vector_child (vector max ty vs) i = elim (child vs i) [ none ↦ fault | some v ↦ ok v ]
vector_child unknown i = throw typeconv_error
vector_child (scalar max ty vals) i = throw typeconv_error

abbrev pub put_child : Vector → ℕ → Vector → Vector
put_child (vector max ty vs) i w = vector max (merge_type ty (get_type w)) (set_child vs i w)
put_child unknown i w = unknown
put_child (scalar max ty vals) i w = scalar max ty vals

abbrev pub first_lower : List Bound → ℤ
first_lower [] = pos 0
first_lower (b ∷ bs) = b.lower

abbrev pub rest_bounds : List Bound → List Bound
rest_bounds [] = []
rest_bounds (b ∷ bs) = bs

-- `slot` is the stack index of the value, and `new` its lua2Type.
unfoldable pub set_index : Vector → ℕ → ArrayType → List ℤ → List Bound → Result Vector
unfolding offset get_length get_type child set_child merge_type
set_index v slot new [] bounds = throw parameter_out_of_range
set_index v slot new (index ∷ []) bounds = do
  i ← offset index (first_lower bounds) (get_length v)
  write_slot v i slot new
set_index v slot new (index ∷ next ∷ indices) bounds = do
  i ← offset index (first_lower bounds) (get_length v)
  w ← vector_child v i
  w' ← set_index w slot new (next ∷ indices) (rest_bounds bounds)
  ok (put_child v i w')

-- The loop of InitVectorFromDimensions, with what initialising a child does.
pub make_children : ℕ → Result Vector → Result Vectors
make_children zero made = ok nil
make_children (suc n) made = do w ← made; vs ← make_children n made; ok (cons w vs)

pub init_from_dimensions : List ℤ → Result Vector
unfolding make_children
init_from_dimensions [] = throw parameter_out_of_range
init_from_dimensions (negsuc n ∷ ds) = throw parameter_out_of_range
init_from_dimensions (pos n ∷ []) = ok (scalar n no_type (replicate n 0))
init_from_dimensions (pos n ∷ d ∷ ds) = do
  vs ← make_children n (init_from_dimensions (d ∷ ds))
  ok (vector n no_type vs)

-- The table that CreateTable leaves on the stack: the value of a slot, or the tables of the
-- children, under the keys 1, 2, and so on.
mutual
  pub data Output : Type 0 where
    value : ℕ → Output
    table : Outputs → Output

  pub data Outputs : Type 0 where
    done : Outputs
    item : Output → Outputs → Outputs

-- `none` is the result false: an element is LUA_NOOBJECT.
pub values : List ℕ → Option Outputs
values [] = some done
values (zero ∷ vals) = none
values (suc s ∷ vals) = elim (values vals) [
  | none ↦ none
  | some os ↦ some (item (value (suc s)) os)
]

abbrev add_item : Option Output → Option Outputs → Option Outputs
add_item none os = none
add_item (some o) none = none
add_item (some o) (some os) = some (item o os)

abbrev as_table : Option Outputs → Option Output
as_table none = none
as_table (some os) = some (table os)

-- A table with nothing in it where no element has been set.
abbrev unless_empty : ArrayType → Option Output → Option Output
unless_empty no_type o = some (table done)
unless_empty number o = o
unless_empty string o = o
unless_empty userdata o = o
unless_empty other o = o
unless_empty many o = o

unfoldable mutual
  unfolding values

  pub create_table : Vector → Option Output
  create_table unknown = some (table done)
  create_table (scalar max ty vals) = unless_empty ty (as_table (values vals))
  create_table (vector max ty vs) = unless_empty ty (as_table (create_tables vs))

  pub create_tables : Vectors → Option Outputs
  create_tables nil = some done
  create_tables (cons v vs) = add_item (create_table v) (create_tables vs)
