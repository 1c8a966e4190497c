-- ===== src/Examples/Finds.antt =====
-- The theorems about the search for type information, at concrete inputs.
use luacom.Prelude.{ℕ, ◌+◌, ◌≡◌, true, Option, some, none, [], ◌∷◌, ◌==◌, if◌then◌else◌}
use luacom.TypeInfos.{
  wanted, Kind, dispatch, co_class, other_kind, Refs, Impl, get_default_interface_type_info,
  has_kind, is_co_class, is_dispatch, get_co_class_type_info, get_interface_type_info,
}
use luacom.TypeInfos.Owned.{
  one_of, best, first, get_default_interface_type_info-best, find_by_kind-first,
}

-- 1 is an interface, 2 a dispinterface, 3 a coclass, and the others have no attributes.
abbrev kinds : ℕ → Option Kind
kinds n =
    if n == 1
    then some other_kind
    else if n == 2
    then some dispatch
    else if n == 3
    then some co_class
    else none

abbrev untouched : Refs
untouched x = 0

abbrev default_sink : ℕ → Impl
default_sink t = record {
  flags = some (true, true);
  has_ref = true;
  succeeded = true;
  info = some t;
}

get_default_interface_type_info-best_example :
    let o =
      get_default_interface_type_info kinds true
        (some (some (default_sink 1 ∷ default_sink 2 ∷ default_sink 4 ∷ [])))
        untouched in
    (o.0 ≡ some 2) × ((x : ℕ) → o.1 x ≡ untouched x + one_of o.0 x)
unfolding best first wanted
get_default_interface_type_info-best_example =
    get_default_interface_type_info-best kinds true
      (some (some (default_sink 1 ∷ default_sink 2 ∷ default_sink 4 ∷ []))) untouched

find_by_kind-first_example :
    let c = get_co_class_type_info kinds (some (4 ∷ 2 ∷ 3 ∷ 3 ∷ [])) untouched in
    let d = get_interface_type_info kinds (some (4 ∷ 2 ∷ 3 ∷ 3 ∷ [])) untouched in
    ((c.0 ≡ some 3) × ((x : ℕ) → c.1 x ≡ untouched x + one_of c.0 x))
    × (d.0 ≡ some 2)
    × ((x : ℕ) → d.1 x ≡ untouched x + one_of d.0 x)
unfolding first has_kind is_co_class is_dispatch
find_by_kind-first_example = find_by_kind-first kinds (4 ∷ 2 ∷ 3 ∷ 3 ∷ []) untouched
