-- ===== src/TypeInfos.antt =====
-- The search for type information in src/library/tCOMUtil.cpp, with the references that it takes.
-- What a type library and a type information answer are parameters; the attributes of a type
-- information, which are read and then released at once, are read as its kind alone.
pub mod Owned
use luacom.Prelude.{
  ℕ, Bool, true, false, not, ◌&&◌, ◌||◌, Option, none, some, List, [], ◌∷◌, if◌then◌else◌,
}
use luacom.Members.{take, drop}

pub data Kind : Type 0 where
  dispatch : Kind
  co_class : Kind
  other_kind : Kind

-- How many references to each type information are held.
abbrev pub Refs : Type 0
Refs = ℕ → ℕ

-- COM_RELEASE
unfoldable pub com_release : Option ℕ → Refs → Refs
com_release none h = h
com_release (some t) h = drop t h

-- What a coclass answers for one of its interfaces: the flags FDEFAULT and FSOURCE, or none on a
-- failure; whether GetRefTypeOfImplType succeeds; whether GetRefTypeInfo succeeds, and what it
-- writes.
pub record Impl : Type 0 where
  pub flags : Option (Bool × Bool)
  pub has_ref : Bool
  pub succeeded : Bool
  pub info : Option ℕ

-- How one turn of the loop ends: with the interface that is kept for want of a better one, or with
-- the end of the loop and what both variables come to.
pub data Turn : Type 0 where
  next : Option ℕ → Refs → Turn
  stop : Option ℕ → Refs → Turn

unfoldable pub wanted : Bool → Bool → Bool × Bool → Bool
wanted source single flags = (flags.0 || single) && (if source then flags.1 else not flags.1)

abbrev pub is_single : List Impl → Bool
is_single [] = false
is_single (i ∷ []) = true
is_single (i ∷ j ∷ is) = false

module _ (kind_of : ℕ → Option Kind) where
  -- The type information of an interface that is wanted.
  unfoldable pub inspect : ℕ → Option ℕ → Refs → Turn
  unfolding com_release
  inspect t kept h = elim (kind_of t) [
    | none ↦ stop kept (drop t h)
    | some dispatch ↦ stop (some t) (com_release kept h)
    | some co_class ↦ next (some t) (com_release kept h)
    | some other_kind ↦ next (some t) (com_release kept h)
  ]

  unfoldable pub turn : Bool → Bool → Impl → Option ℕ → Refs → Turn
  unfolding wanted inspect com_release
  turn source single i kept h = elim i.flags [
    | none ↦ next kept h
    | some flags ↦
        if not (wanted source single flags) || not i.has_ref then next kept h else elim i.info [
          | none ↦ next kept h
          | some t ↦
              if i.succeeded
              then inspect t kept (take t h)
              else next kept (com_release (some t) (take t h))
        ]
  ]

  -- The loop of GetDefaultInterfaceTypeInfo.
  unfoldable pub search : Bool → Bool → List Impl → Option ℕ → Refs → Option ℕ × Refs
  unfolding turn
  search source single [] kept h = (kept, h)
  search source single (i ∷ is) kept h = elim (turn source single i kept h) [
    | next k g ↦ search source single is k g
    | stop k g ↦ (k, g)
  ]

  -- GetDefaultInterfaceTypeInfo, for no coclass, for one whose attributes cannot be read, or for one
  -- with its interfaces.
  unfoldable pub get_default_interface_type_info :
      Bool → Option (Option (List Impl)) → Refs → Option ℕ × Refs
  unfolding search
  get_default_interface_type_info source none h = (none, h)
  get_default_interface_type_info source (some none) h = (none, h)
  get_default_interface_type_info source (some (some is)) h = search source (is_single is) is none h

  -- The end of GetDispatchTypeInfo, for a type information that is no dispinterface.
  unfoldable pub prefer_twin : ℕ → Bool → Option ℕ → Refs → Option ℕ × Refs
  prefer_twin t contained none g = (some t, g)
  prefer_twin t contained (some u) g = if not contained then (some t, g) else elim (kind_of u) [
    | none ↦ (some t, drop u (take u g))
    | some dispatch ↦ (some u, drop t (take u g))
    | some co_class ↦ (some t, drop u (take u g))
    | some other_kind ↦ (some t, drop u (take u g))
  ]

  -- GetDispatchTypeInfo, for the answers of GetTypeInfo, GetContainingTypeLib and GetTypeInfoOfGuid.
  unfoldable pub get_dispatch_type_info : Option ℕ → Bool → Option ℕ → Refs → Option ℕ × Refs
  unfolding prefer_twin
  get_dispatch_type_info none contained twin h = (none, h)
  get_dispatch_type_info (some t) contained twin h = elim (kind_of t) [
    | none ↦ (none, drop t (take t h))
    | some dispatch ↦ (some t, take t h)
    | some co_class ↦ prefer_twin t contained twin (take t h)
    | some other_kind ↦ prefer_twin t contained twin (take t h)
  ]

  unfoldable pub has_kind : (Kind → Bool) → ℕ → Bool
  has_kind is_kind t = elim (kind_of t) [ none ↦ false | some k ↦ is_kind k ]

  -- The loop over what FindName has found.
  unfoldable pub pick : (Kind → Bool) → List ℕ → Option ℕ → Refs → Option ℕ × Refs
  unfolding has_kind
  pick is_kind [] found h = (found, h)
  pick is_kind (t ∷ ts) (some f) h = pick is_kind ts (some f) (drop t h)
  pick is_kind (t ∷ ts) none h =
      let yes = has_kind is_kind t in
      pick is_kind ts (if yes then some t else none) (if yes then h else drop t h)

  unfoldable pub take_all : List ℕ → Refs → Refs
  take_all [] h = h
  take_all (t ∷ ts) h = take t (take_all ts h)

  -- GetCoClassTypeInfo and GetInterfaceTypeInfo by a name, for the type informations that FindName
  -- writes, or none where it fails.
  unfoldable pub find_by_kind : (Kind → Bool) → Option (List ℕ) → Refs → Option ℕ × Refs
  unfolding pick take_all
  find_by_kind is_kind none h = (none, h)
  find_by_kind is_kind (some ts) h = pick is_kind ts none (take_all ts h)

unfoldable pub is_co_class : Kind → Bool
is_co_class co_class = true
is_co_class dispatch = false
is_co_class other_kind = false

unfoldable pub is_dispatch : Kind → Bool
is_dispatch dispatch = true
is_dispatch co_class = false
is_dispatch other_kind = false

unfoldable pub get_co_class_type_info : (ℕ → Option Kind) → Option (List ℕ) → Refs → Option ℕ × Refs
unfolding find_by_kind is_co_class
get_co_class_type_info kind_of = find_by_kind kind_of is_co_class

unfoldable pub get_interface_type_info :
    (ℕ → Option Kind) → Option (List ℕ) → Refs → Option ℕ × Refs
unfolding find_by_kind is_dispatch
get_interface_type_info kind_of = find_by_kind kind_of is_dispatch
