-- ===== src/Dispatch/Session.antt =====
-- What a call of Invoke (src/library/tLuaDispatch.cpp) works on: the Lua state, the arguments and
-- what they point to, and the search for the member.
use luacom.Prelude.{
  ℕ, ◌/◌, ◌%◌, Bool, ◌&&◌, Option, none, some, List, [], ◌∷◌, ◌==◌, if◌then◌else◌, reverse,
  get_elem?,
}
use luacom.Prelude.Result.{Error, Result, ok, throw, fault}
use luacom.DispParams.{Arg, DispParams}
use luacom.Dispatch.{
  InvokeKind, invoke_func, invoke_propertyget, invoke_propertyput, invoke_propertyputref, FuncInfo,
}

-- What a protected call of Lua does: it returns values, or fails with an error value, whose text is
-- `none` where the value is neither a string nor a number.
pub data Called (L : Type 0) : Type 0 where
  returned : List L → Called L
  failed : Option (List ℕ) → Called L

-- The Lua state, with its values `L` and its globals, tables and so on in a world `W`.
pub record Lua (W L : Type 0) : Type 0 where
  pub nil : L
  -- What an index of the stack reads as where nothing stands.
  pub missing : L
  pub is_nil : L → Bool
  pub is_function : L → Bool
  pub is_table : L → Bool
  pub is_userdata : L → Bool
  pub name : ℕ → L
  -- Reading and writing a table under lua_pcall, with metamethods, and calling a function.
  pub get : L → L → W → Called L × W
  pub set : L → L → L → W → Called L × W
  pub call : L → List L → W → Called L × W

-- The messages that FillExceptionInfo is given: those of the code, a text from Lua, the message
-- made for a failed call, and that of an exception.
pub data Message : Type 0 where
  no_putref no_parametrized_put too_many_parameters : Message
  lua_text : List ℕ → Message
  lua_error : Option (List ℕ) → Message
  thrown : Error → Message

-- EXCEPINFO as it is filled: with source and description, or, where the texts cannot be made, with
-- the error code alone.
pub data ExcepInfo : Type 0 where
  described : Message → ExcepInfo
  undescribed : Error → ExcepInfo

-- What a call of Invoke works on; `info` and `retval` are what pexcepinfo and pvarResult point to,
-- `none` before they are written.
pub record Session (W V : Type 0) : Type 0 where
  pub world : W
  pub info : Option ExcepInfo
  pub retval : Option (Arg V)

-- The arguments of Invoke; the flags say whether riid is IID_NULL and whether pexcepinfo and
-- pvarResult are given.
pub record Request (V : Type 0) : Type 0 where
  pub memid : ℕ
  pub null_iid : Bool
  pub flags : ℕ
  pub params : DispParams V
  pub wants_info : Bool
  pub wants_result : Bool

-- wFlags & 2 ** k, and the test of an INVOKEKIND.
abbrev pub has_flag : ℕ → ℕ → Bool
has_flag flags bit = flags / bit % 2 == 1

pub matches_kind : ℕ → InvokeKind → Bool
matches_kind flags invoke_func = has_flag flags 1
matches_kind flags invoke_propertyget = has_flag flags 2
matches_kind flags invoke_propertyput = has_flag flags 4
matches_kind flags invoke_propertyputref = has_flag flags 8

-- The loop over funcinfo.
unfoldable pub find_member : {V : Type 0} → ℕ → ℕ → List (FuncInfo V) → Option (FuncInfo V)
unfolding matches_kind
find_member memid flags [] = none
find_member memid flags (f ∷ fs) =
    if f.memid == memid && matches_kind flags f.invkind then some f else find_member memid flags fs

-- The argument for the parameter with a number, which is there.
abbrev pub nth_arg : {V : Type 0} → DispParams V → ℕ → Result (Arg V)
nth_arg d i = elim (get_elem? (reverse d.args) i) [ none ↦ fault | some a ↦ ok a ]

unfoldable pub map_result : {A B : Type 0} → (A → Result B) → List A → Result (List B)
map_result f [] = ok []
map_result f (a ∷ as') = elim (f a) [
  | fault ↦ fault
  | throw e ↦ throw e
  | ok b ↦ elim (map_result f as') [ fault ↦ fault | throw e ↦ throw e | ok bs ↦ ok (b ∷ bs) ]
]
