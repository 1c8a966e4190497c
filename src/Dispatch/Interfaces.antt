-- ===== src/Dispatch/Interfaces.antt =====
-- The references to a tLuaDispatch (src/library/tLuaDispatch.cpp), the interfaces that it hands
-- out, and what it frees with its last reference.
use luacom.Prelude.{
  ℕ, ◌+◌, ◌-◌, ◌^◌, ◌%◌, Bool, true, false, not, ◌&&◌, ◌||◌, Option, none, some, List, [], ◌∷◌,
  reverse, ◌==◌, if◌then◌else◌,
}
use luacom.Prelude.Result.{Result, ok, ◌>>=◌}
use luacom.Com.{HResult, s_ok, e_pointer, e_nointerface, type_e_elementnotfound}
use luacom.Dispatch.Object.{Held, Server, release_functions}

-- The interfaces that QueryInterface tells apart; `own_iid` is that of the type information.
pub data DispatchIid : Type 0 where
  iunknown idispatch own_iid iprovide_class_info iconnection_point_container ilua_dispatch
        other_iid :
      DispatchIid

-- BeConnectable: `has_source` is its loop over the interfaces of the coclass, where an element is
-- the flags FDEFAULT and FSOURCE of one, or an error.
unfoldable pub has_source : Bool → List (Result (Bool × Bool)) → Result Bool
has_source single [] = ok false
has_source single (r ∷ rs) =
    let rest = has_source single rs in
    r >>= λ flags. if (flags.0 || single) && flags.1 then ok true else rest

module _ {V : Type 0} where
  -- Which interfaces the object has.
  unfoldable pub has_interface : DispatchIid → Server V → Bool
  has_interface iunknown s = true
  has_interface idispatch s = true
  has_interface own_iid s = true
  has_interface iprovide_class_info s = s.has_class_info
  has_interface iconnection_point_container s = s.has_container
  has_interface ilua_dispatch s = true
  has_interface other_iid s = false

  unfoldable pub add_ref : Server V → Server V
  add_ref s = record s { refs = (s.refs + 1) % 2 ^ 32 }

  -- QueryInterface; its parts AddRef of the class information and of the container count the
  -- references of this object.
  unfoldable pub query_interface : Bool → DispatchIid → Server V → HResult × Server V
  unfolding has_interface add_ref
  query_interface given riid s =
      if not given
      then (e_pointer, s)
      else if has_interface riid s
      then (s_ok, add_ref s)
      else (e_nointerface, s)

  -- What the last Release frees.
  unfoldable pub destroy : Server V → Held → Held
  unfolding release_functions
  destroy s h =
      let r = release_functions (reverse s.funcs) h in
      record r {
        table_locks = r.table_locks - 1;
        arrays = r.arrays - 1;
        type_infos = r.type_infos - 1;
        handlers = r.handlers - 1;
        containers = if s.has_container then r.containers - 1 else r.containers;
        coclass_infos = if s.has_class_info then r.coclass_infos - 1 else r.coclass_infos;
      }

  -- Release: the object that is left, if any. A reference count of 0 is an assertion of the code,
  -- without which it wraps.
  unfoldable pub release : Server V → Held → Option (Server V) × Held
  unfolding destroy
  release s h =
      if s.refs == 1
      then (none, destroy s h)
      else (some (record s { refs = (s.refs + 2 ^ 32 - 1) % 2 ^ 32 }), h)

  -- SetCoClassinfo, where there is memory: the class information holds a reference of the coclass.
  unfoldable pub set_coclass_info : Server V → Held → Server V × Held
  set_coclass_info s h =
      (record s { has_class_info = true }, record h { coclass_infos = h.coclass_infos + 1 })

  -- BeConnectable from its test for a source interface on.
  unfoldable pub be_connectable : Bool → Server V → Held → Server V × Held
  be_connectable sourced s h =
      if sourced
      then (record s { has_container = true }, record h { containers = h.containers + 1 })
      else (s, h)

-- GetTypeInfoCount and GetTypeInfo: the result code and what is written.
pub get_type_info_count : Bool → HResult × Option ℕ
get_type_info_count given = if given then (s_ok, some 1) else (e_pointer, none)

pub get_type_info : ℕ → Bool → Held → HResult × Held
get_type_info i given h =
    if not (i == 0)
    then (type_e_elementnotfound, h)
    else if not given
    then (e_pointer, h)
    else (s_ok, record h { type_infos = h.type_infos + 1 })
