-- ===== src/Dispatch.antt =====
-- tLuaDispatch (src/library/tLuaDispatch.cpp): a Lua table as a COM object.
pub mod Session
pub mod Invoke
pub mod Answers
pub mod Calls
pub mod Object
pub mod Interfaces
pub mod Lifetime
pub mod Reached
use luacom.Prelude.{ℕ, Bool, true, false}
use luacom.Variant.{VarType}
use luacom.DispParams.{FuncDesc}

-- INVOKEKIND
pub data InvokeKind : Type 0 where
  invoke_func invoke_propertyget invoke_propertyput invoke_propertyputref : InvokeKind

-- tFuncInfo: what is read of the FUNCDESC, and the name. `result` is VT_VOID, or the type of the
-- value that is returned; `index` is the number of the FUNCDESC in the type information.
pub record FuncInfo (V : Type 0) : Type 0 where
  pub index : ℕ
  pub memid : ℕ
  pub invkind : InvokeKind
  pub name : ℕ
  pub is_void : Bool
  pub result : VarType
  pub desc : FuncDesc V
