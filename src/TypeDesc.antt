-- ===== src/TypeDesc.antt =====
-- The resolution of type descriptions (src/library/tLuaCOMTypeHandler.cpp): processTYPEDESC and its
-- helpers turn a TYPEDESC of a type library into the type of a VARIANT.
pub mod Meaning
use luacom.Prelude.{ℕ, zero, suc, Bool, true, false, Option, none, some, if◌then◌else◌}
use luacom.Prelude.Result.{Result, ok, throw, fault, internal_error, typeconv_error, com_error}
use luacom.Variant.{VarType, vt_int, vt_dispatch, vt_unknown}

-- The type of a VARIANT: a base type, with VT_BYREF and VT_ARRAY.
pub record ArgType : Type 0 where
  pub base : VarType
  pub byref : Bool
  pub array : Bool

-- TYPEDESC. A user-defined type is an HREFTYPE, a reference that a type information resolves.
pub data TypeDesc : Type 0 where
  simple : ArgType → TypeDesc
  pointer : TypeDesc → TypeDesc
  safearray : TypeDesc → TypeDesc
  userdefined : ℕ → TypeDesc

-- TYPEKIND, with the description that an alias stands for.
pub data TypeKind : Type 0 where
  enum dispatch interface coclass : TypeKind
  union structure module_or_max : TypeKind
  alias : TypeDesc → TypeKind

abbrev pub plain : VarType → ArgType
plain vt = record { base = vt; byref = false; array = false }

-- `vt |= VT_BYREF` and `vt |= VT_ARRAY` on a result.
abbrev pub set_byref : Option (Result ArgType) → Option (Result ArgType)
set_byref none = none
set_byref (some (ok t)) = some (ok (record t { byref = true }))
set_byref (some (throw e)) = some (throw e)
set_byref (some fault) = some fault

abbrev pub set_array : Option (Result ArgType) → Option (Result ArgType)
set_array none = none
set_array (some (ok t)) = some (ok (record t { array = true }))
set_array (some (throw e)) = some (throw e)
set_array (some fault) = some fault

-- The switch of processUSERDEFINED.
unfoldable pub of_kind : TypeKind → Result ArgType
of_kind enum = ok (plain vt_int)
of_kind dispatch = ok (plain vt_dispatch)
of_kind interface = ok (plain vt_unknown)
of_kind coclass = ok (plain vt_unknown)
of_kind union = throw typeconv_error
of_kind structure = throw typeconv_error
of_kind module_or_max = throw typeconv_error
of_kind (alias t) = throw internal_error

-- What processPTR makes of a pointer to a user-defined type that is no alias: a pointer to an
-- interface is the interface, all else is by reference.
abbrev pub pointer_to_kind : TypeKind → Option (Result ArgType)
pointer_to_kind dispatch = some (ok (plain vt_dispatch))
pointer_to_kind interface = some (ok (plain vt_unknown))
pointer_to_kind coclass = some (ok (plain vt_unknown))
pointer_to_kind enum = some (ok (record (plain vt_int) { byref = true }))
pointer_to_kind union = some (throw typeconv_error)
pointer_to_kind structure = some (throw typeconv_error)
pointer_to_kind module_or_max = some (throw typeconv_error)
pointer_to_kind (alias t) = some (throw internal_error)

-- A type information is a number; `lookup` is GetRefTypeInfo and GetTypeAttr: the information that
-- a reference leads to, and its kind.
module _ (lookup : ℕ → ℕ → Option (ℕ × TypeKind)) where
  -- The functions call one another, so they run on fuel; `none` means that it ran out.
  unfoldable mutual
    unfolding of_kind

    -- processTYPEDESC, with processAliases at its beginning.
    pub process_typedesc : ℕ → ℕ → TypeDesc → Option (Result ArgType)
    process_typedesc zero info t = none
    process_typedesc (suc fuel) info (simple t) = some (ok t)
    process_typedesc (suc fuel) info (pointer t) = process_ptr fuel info t
    process_typedesc (suc fuel) info (safearray t) = set_array (process_typedesc fuel info t)
    process_typedesc (suc fuel) info (userdefined h) = process_found fuel (lookup info h)

    -- What processAliases finds under a user-defined type, and processUSERDEFINED for the rest.
    pub process_found : ℕ → Option (ℕ × TypeKind) → Option (Result ArgType)
    process_found zero found = none
    process_found (suc fuel) none = some (throw typeconv_error)
    process_found (suc fuel) (some (info, alias t)) = process_typedesc fuel info t
    process_found (suc fuel) (some (info, enum)) = some (of_kind enum)
    process_found (suc fuel) (some (info, dispatch)) = some (of_kind dispatch)
    process_found (suc fuel) (some (info, interface)) = some (of_kind interface)
    process_found (suc fuel) (some (info, coclass)) = some (of_kind coclass)
    process_found (suc fuel) (some (info, union)) = some (of_kind union)
    process_found (suc fuel) (some (info, structure)) = some (of_kind structure)
    process_found (suc fuel) (some (info, module_or_max)) = some (of_kind module_or_max)

    -- processPTR, on the description that is pointed at.
    pub process_ptr : ℕ → ℕ → TypeDesc → Option (Result ArgType)
    process_ptr zero info t = none
    process_ptr (suc fuel) info (simple t) = some (ok (record t { byref = true }))
    process_ptr (suc fuel) info (pointer t) = set_byref (process_ptr fuel info t)
    process_ptr (suc fuel) info (safearray t) = set_byref (set_array (process_typedesc fuel info t))
    process_ptr (suc fuel) info (userdefined h) = process_ptr_found fuel (lookup info h)

    -- A pointer to a user-defined type: an alias keeps the pointer, and its own information.
    pub process_ptr_found : ℕ → Option (ℕ × TypeKind) → Option (Result ArgType)
    process_ptr_found zero found = none
    process_ptr_found (suc fuel) none = some (throw com_error)
    process_ptr_found (suc fuel) (some (info, alias t)) = process_ptr fuel info t
    process_ptr_found (suc fuel) (some (info, enum)) = pointer_to_kind enum
    process_ptr_found (suc fuel) (some (info, dispatch)) = pointer_to_kind dispatch
    process_ptr_found (suc fuel) (some (info, interface)) = pointer_to_kind interface
    process_ptr_found (suc fuel) (some (info, coclass)) = pointer_to_kind coclass
    process_ptr_found (suc fuel) (some (info, union)) = pointer_to_kind union
    process_ptr_found (suc fuel) (some (info, structure)) = pointer_to_kind structure
    process_ptr_found (suc fuel) (some (info, module_or_max)) = pointer_to_kind module_or_max
