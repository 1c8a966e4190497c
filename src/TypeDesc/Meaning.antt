-- ===== src/TypeDesc/Meaning.antt =====
-- What a type description means, once its aliases are replaced by what they stand for.
use luacom.Prelude.{ℕ, zero, suc, ◌≤◌, ◌≡◌, refl, ap, ◌∙◌, true, Option, some, arith}
use luacom.Prelude.Result.{Result, ok, throw, fault, typeconv_error}
use luacom.Variant.{vt_int, vt_dispatch, vt_unknown}
use luacom.TypeDesc.{
  ArgType, TypeDesc, simple, pointer, safearray, userdefined, TypeKind, enum, dispatch, interface,
  coclass, union, structure, module_or_max, alias, plain, set_byref, set_array, process_typedesc,
  process_found, process_ptr, process_ptr_found,
}

-- A description without aliases and references.
pub data Meaning : Type 0 where
  is_simple : ArgType → Meaning
  is_enum is_dispatch is_interface is_unsupported : Meaning
  points_to : Meaning → Meaning
  array_of : Meaning → Meaning

abbrev pub as_array : Result ArgType → Result ArgType
as_array (ok t) = ok (record t { array = true })
as_array (throw e) = throw e
as_array fault = fault

abbrev pub as_reference : Result ArgType → Result ArgType
as_reference (ok t) = ok (record t { byref = true })
as_reference (throw e) = throw e
as_reference fault = fault

-- The type of a VARIANT that holds a value of the meaning, and of one that holds a pointer to it.
unfoldable mutual
  pub type_of : Meaning → Result ArgType
  type_of (is_simple t) = ok t
  type_of is_enum = ok (plain vt_int)
  type_of is_dispatch = ok (plain vt_dispatch)
  type_of is_interface = ok (plain vt_unknown)
  type_of is_unsupported = throw typeconv_error
  type_of (points_to m) = type_of_pointer m
  type_of (array_of m) = as_array (type_of m)

  pub type_of_pointer : Meaning → Result ArgType
  type_of_pointer is_dispatch = ok (plain vt_dispatch)
  type_of_pointer is_interface = ok (plain vt_unknown)
  type_of_pointer (is_simple t) = ok (record t { byref = true })
  type_of_pointer is_enum = ok (record (plain vt_int) { byref = true })
  type_of_pointer is_unsupported = throw typeconv_error
  type_of_pointer (points_to m) = as_reference (type_of_pointer m)
  type_of_pointer (array_of m) = as_reference (as_array (type_of m))

set_array-some : (r : Result ArgType) → set_array (some r) ≡ some (as_array r)
set_array-some (ok t) = refl
set_array-some (throw e) = refl
set_array-some fault = refl

set_byref-some : (r : Result ArgType) → set_byref (some r) ≡ some (as_reference r)
set_byref-some (ok t) = refl
set_byref-some (throw e) = refl
set_byref-some fault = refl

module _ (lookup : ℕ → ℕ → Option (ℕ × TypeKind)) where
  -- `Means k i t m`: seen from the type information i, the description t means m. Aliases and
  -- references are followed until they end, and k bounds how deep the description nests, each
  -- reference counted as a level more.
  mutual
    pub data Means : ℕ → ℕ → TypeDesc → Meaning → Type 0 where
      means_simple : {k i : ℕ} (t : ArgType) → Means (suc k) i (simple t) (is_simple t)
      means_pointer :
          {k i : ℕ} {t : TypeDesc} {m : Meaning}
          → Means k i t m
          → Means (suc k) i (pointer t) (points_to m)
      means_array :
          {k i : ℕ} {t : TypeDesc} {m : Meaning}
          → Means k i t m
          → Means (suc k) i (safearray t) (array_of m)
      means_user :
          {k i h j : ℕ} {kind : TypeKind} {m : Meaning}
          → lookup i h ≡ some (j, kind)
          → KindMeans k j kind m
          → Means (suc k) i (userdefined h) m

    pub data KindMeans : ℕ → ℕ → TypeKind → Meaning → Type 0 where
      kind_enum : {k j : ℕ} → KindMeans (suc k) j enum is_enum
      kind_dispatch : {k j : ℕ} → KindMeans (suc k) j dispatch is_dispatch
      kind_interface : {k j : ℕ} → KindMeans (suc k) j interface is_interface
      kind_coclass : {k j : ℕ} → KindMeans (suc k) j coclass is_interface
      kind_union : {k j : ℕ} → KindMeans (suc k) j union is_unsupported
      kind_structure : {k j : ℕ} → KindMeans (suc k) j structure is_unsupported
      kind_module : {k j : ℕ} → KindMeans (suc k) j module_or_max is_unsupported
      kind_alias :
          {k j : ℕ} {t : TypeDesc} {m : Meaning} → Means k j t m → KindMeans (suc k) j (alias t) m

  -- What the functions answer on a description that means `m`.
  abbrev Resolved : ℕ → ℕ → TypeDesc → Meaning → Type 0
  Resolved f i t m =
      (process_typedesc lookup f i t ≡ some (type_of m))
      × (process_ptr lookup f i t ≡ some (type_of_pointer m))

  mutual
    unfolding process_typedesc process_found process_ptr process_ptr_found type_of type_of_pointer

    resolved :
        {k i : ℕ} {t : TypeDesc} {m : Meaning} (f : ℕ) → Means k i t m → k ≤ f → Resolved f i t m
    resolved zero (means_simple t) h = absurd (omega arith)
    resolved zero (means_pointer d) h = absurd (omega arith)
    resolved zero (means_array d) h = absurd (omega arith)
    resolved zero (means_user e d) h = absurd (omega arith)
    resolved (suc f) (means_simple t) h = (refl, refl)
    resolved (suc f) (means_pointer {m} d) h =
        let r = resolved f d (omega arith) in
        (r.1, ap set_byref r.1 ∙ set_byref-some (type_of_pointer m))
    resolved (suc f) (means_array {m} d) h =
        let r = resolved f d (omega arith) in
        let a = ap set_array r.0 ∙ set_array-some (type_of m) in
        (a, ap set_byref a ∙ set_byref-some (as_array (type_of m)))
    resolved (suc f) (means_user e d) h =
        let r = resolved_kind f d (omega arith) in (rw e r.0, rw e r.1)

    resolved_kind :
        {k j : ℕ} {kind : TypeKind} {m : Meaning} (f : ℕ)
        → KindMeans k j kind m
        → k ≤ f
        → (process_found lookup f (some (j, kind)) ≡ some (type_of m))
          × (process_ptr_found lookup f (some (j, kind)) ≡ some (type_of_pointer m))
    resolved_kind zero kind_enum h = absurd (omega arith)
    resolved_kind zero kind_dispatch h = absurd (omega arith)
    resolved_kind zero kind_interface h = absurd (omega arith)
    resolved_kind zero kind_coclass h = absurd (omega arith)
    resolved_kind zero kind_union h = absurd (omega arith)
    resolved_kind zero kind_structure h = absurd (omega arith)
    resolved_kind zero kind_module h = absurd (omega arith)
    resolved_kind zero (kind_alias d) h = absurd (omega arith)
    resolved_kind (suc f) kind_enum h = (refl, refl)
    resolved_kind (suc f) kind_dispatch h = (refl, refl)
    resolved_kind (suc f) kind_interface h = (refl, refl)
    resolved_kind (suc f) kind_coclass h = (refl, refl)
    resolved_kind (suc f) kind_union h = (refl, refl)
    resolved_kind (suc f) kind_structure h = (refl, refl)
    resolved_kind (suc f) kind_module h = (refl, refl)
    resolved_kind (suc f) (kind_alias d) h = resolved f d (omega arith)

  -- processTYPEDESC on a description whose aliases and references end within a depth, with at
  -- least that fuel: it answers with the type that its meaning has, where an alias stands for what
  -- it names, at every place, also below pointers and arrays.
  pub process_typedesc-type_of :
      {k i : ℕ} {t : TypeDesc} {m : Meaning} (fuel : ℕ)
      → Means k i t m
      → k ≤ fuel
      → process_typedesc lookup fuel i t ≡ some (type_of m)
  process_typedesc-type_of fuel d h = (resolved fuel d h).0
