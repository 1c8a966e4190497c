-- ===== src/Vector/Load.antt =====
-- tLuaVector::InitVectorFromTable (src/library/tLuaVector.cpp): a Lua table, read through its
-- metamethods, becomes a vector of the stack slots that hold its elements.
use luacom.Prelude.{ℕ, suc, ◌+◌, ◌*◌, Bool, List, [], ◌∷◌, ◌++◌, ◌==◌, if◌then◌else◌, length}
use luacom.Prelude.Result.{
  Result, ok, throw, ◌>>=◌, ◌>>◌, check, typeconv_error, internal_error, parameter_out_of_range,
}
use luacom.Vector.{
  ArrayType, number, string, userdata, other, many, same_type, Vector, unknown, scalar, vector,
  Vectors, nil, cons, count, append, get_length, get_type,
}

-- A Lua value as the loop sees it. `items` is what indexing a table or a userdata with 1, 2, and
-- so on yields: values up to the first nil (`end`), or to an error of a metamethod (`raise`).
-- `object` is a table that wraps a tLuaCOM, for which `LuaBeans::from_lua` is not null.
mutual
  pub data LuaValue : Type 0 where
    num str : ℕ → LuaValue
    other_value : ℕ → LuaValue
    object : Items → LuaValue
    user : Items → LuaValue
    tab : Items → LuaValue

  pub data Items : Type 0 where
    end : Items
    raise : Items
    then_item : LuaValue → Items → Items

-- lua2Type. A table has the type `other`.
unfoldable pub lua2type : LuaValue → ArrayType
lua2type (num n) = number
lua2type (str n) = string
lua2type (user xs) = userdata
lua2type (other_value n) = other
lua2type (object xs) = other
lua2type (tab xs) = other

-- The capacity after the test for growth: `max_length` doubles when it is used up.
unfoldable pub grow : ℕ → ℕ → ℕ
grow size max = if size == max then max * 2 else max

-- The checks that come before a child is read: no child beside scalars.
unfoldable pub expect_vector : Vector → Result (Unit {0})
expect_vector unknown = ok tt
expect_vector (vector max ty vs) = ok tt
expect_vector (scalar max ty vals) = throw typeconv_error

-- The last child, from the first one on.
unfoldable pub last_child : Vector → Vectors → Vector
last_child v nil = v
last_child v (cons w vs) = last_child w vs

-- A child that has been read, after `expect_vector`. That a vector which is no longer unknown has
-- an element is the loop's CHECKPRECOND.
unfoldable pub push_child : Vector → Vector → Result Vector
unfolding count append get_length get_type grow last_child same_type
push_child unknown w = ok (vector 10 (get_type w) (cons w nil))
push_child (scalar max ty vals) w = throw typeconv_error
push_child (vector max ty nil) w = throw internal_error
push_child (vector max ty (cons v vs)) w =
    let before = last_child v vs in
    if get_length w == get_length before
    then ok (
        vector (grow (suc (count vs)) max)
          (if same_type (get_type w) (get_type before) then ty else many) (cons v (append vs w)))
    else throw typeconv_error

-- An element that is no table, with its slot.
unfoldable pub push_value : Vector → LuaValue → ℕ → Result Vector
unfolding grow lua2type same_type
push_value unknown x slot = ok (scalar 10 (lua2type x) (slot ∷ []))
push_value (vector max ty vs) x slot = throw typeconv_error
push_value (scalar max ty []) x slot = throw internal_error
push_value (scalar max ty (s ∷ vals)) x slot = ok (
    scalar (grow (suc (length vals)) max) (if same_type (lua2type x) ty then ty else many)
      (s ∷ vals ++ slot ∷ []))

-- The part of the Lua stack above the table: its values from the bottom up.
abbrev pub Stack : Type 0
Stack = List LuaValue

-- `room` says whether `lua_checkstack(L, 3)` succeeds over so many values, and `base` is the index
-- of the stack slot below them.
module _ (room : ℕ → Bool) (base : ℕ) where
  -- Each value read stays on the stack, and its slot is its stack index.
  unfoldable pub load_items : Items → Vector → Stack → Result (Vector × Stack)
  unfolding expect_vector push_child push_value
  load_items end acc stack = check (room (length stack)) typeconv_error >> ok (acc, stack)
  load_items raise acc stack = throw typeconv_error
  load_items (then_item (tab xs) rest) acc stack = do
    check (room (length stack)) typeconv_error
    expect_vector acc
    (w, stack') ← load_items xs unknown (stack ++ tab xs ∷ [])
    acc' ← push_child acc w
    load_items rest acc' stack'
  load_items (then_item x rest) acc stack = do
    check (room (length stack)) typeconv_error
    acc' ← push_value acc x (base + length stack + 1)
    load_items rest acc' (stack ++ x ∷ [])

  -- Vectors are made of tables and of userdata.
  unfoldable pub init_from_table : LuaValue → Stack → Result (Vector × Stack)
  unfolding load_items
  init_from_table (tab xs) stack = load_items xs unknown stack
  init_from_table (user xs) stack = load_items xs unknown stack
  init_from_table (num n) stack = throw typeconv_error
  init_from_table (str n) stack = throw typeconv_error
  init_from_table (other_value n) stack = throw typeconv_error
  init_from_table (object ys) stack = load_items ys unknown stack

-- The loop of InitVectorFromStack, from a slot on, over the values from there to the top.
pub stack_slots : ℕ → List LuaValue → Result (List ℕ)
stack_slots slot [] = ok []
stack_slots slot (tab xs ∷ values) = throw parameter_out_of_range
stack_slots slot (object xs ∷ values) = throw parameter_out_of_range
stack_slots slot (num n ∷ values) = stack_slots (suc slot) values >>= λ ss. ok (slot ∷ ss)
stack_slots slot (str n ∷ values) = stack_slots (suc slot) values >>= λ ss. ok (slot ∷ ss)
stack_slots slot (other_value n ∷ values) = stack_slots (suc slot) values >>= λ ss. ok (slot ∷ ss)
stack_slots slot (user xs ∷ values) = stack_slots (suc slot) values >>= λ ss. ok (slot ∷ ss)

-- InitVectorFromStack, on the values from `first_elem` to the top of the stack.
pub init_from_stack : ℕ → List LuaValue → Result Vector
unfolding stack_slots
init_from_stack first_elem values = do
  ss ← stack_slots first_elem values
  ok (scalar (length values) many ss)
