-- ===== src/Enumerator/Points.antt =====
-- tLuaCOMEnumConnPoints: an enumerator over a copy of a container's connection points.
pub mod Laws
use luacom.Prelude.{
  ℕ, zero, suc, ◌+◌, ◌-◌, ◌%◌, ◌^◌, Bool, true, false, ◌&&◌, ◌||◌, not, Option, none, some, List,
  [], ◌∷◌, ◌++◌, ◌==◌, ltb, if◌then◌else◌, length, get_elem?,
}
use luacom.Com.{HResult, s_ok, s_false, e_pointer, e_invalidarg, e_outofmemory, e_nointerface}

-- A connection point is an address, and 0 is null. `host_refs` counts the references that the
-- host has from this enumerator, and `added` logs the points whose `AddRef` it has called.
pub record EnumPoints : Type 0 where
  pub ref_count : ℕ
  pub host_refs : ℕ
  pub points : List ℕ
  pub next_index : ℕ
  pub added : List ℕ

pub new_enum_points : EnumPoints
new_enum_points = record { ref_count = 0; host_refs = 0; points = []; next_index = 0; added = [] }

-- `copied` says whether the vector's copy finds its memory.
pub init : Bool → EnumPoints → List ℕ → ℕ → HResult × EnumPoints
init copied e points next_index =
    if ltb (length points) next_index
    then (e_invalidarg, e)
    else if copied
    then (s_ok, record e { points = points; next_index = next_index })
    else (e_outofmemory, e)

pub add_ref : EnumPoints → EnumPoints
add_ref e = record e { ref_count = (e.ref_count + 1) % 2 ^ 32; host_refs = e.host_refs + 1 }

-- The count returned, and the enumerator, or none where it has deleted itself.
pub release : EnumPoints → ℕ × Option EnumPoints
release e =
    let refs = (e.ref_count + 2 ^ 32 - 1) % 2 ^ 32 in
    let e' : EnumPoints = record e { ref_count = refs; host_refs = e.host_refs - 1 } in
    if refs == 0 then (0, none) else (refs, some e')

pub data Iid : Type 0 where
  iunknown ienum_connection_points other_iid : Iid

-- `ppv` is given or not. The result says whether `*ppv` is the enumerator.
pub query_interface : EnumPoints → Iid → Bool → HResult × Bool × EnumPoints
unfolding add_ref
query_interface e iid false = (e_pointer, false, e)
query_interface e iunknown true = (s_ok, true, add_ref e)
query_interface e ienum_connection_points true = (s_ok, true, add_ref e)
query_interface e other_iid true = (e_nointerface, false, e)

-- The loop of `Next`: `rounds` is cReq - i.
unfoldable pub copy_points : ℕ → List ℕ → ℕ → List ℕ
copy_points zero points index = []
copy_points (suc rounds) points index = elim (get_elem? points index) [
  | none ↦ []
  | some p ↦ p ∷ copy_points rounds points ((index + 1) % 2 ^ 32)
]

-- The calls of `AddRef`, none on a null pointer.
unfoldable pub add_refs : List ℕ → List ℕ → List ℕ
add_refs [] log = log
add_refs (p ∷ ps) log = let rest = add_refs ps log in if p == 0 then rest else p ∷ rest

-- A call's result code, the points written to the array, what is written to `*pcEnumerated`, and
-- the enumerator.
pub record Fetched : Type 0 where
  pub result : HResult
  pub points : List ℕ
  pub count : Option ℕ
  pub enum : EnumPoints

abbrev pub write_count : Bool → ℕ → Option ℕ
write_count true n = some n
write_count false n = none

-- `Next` behind its early returns.
unfoldable pub fetch : EnumPoints → ℕ → Bool → Fetched
unfolding copy_points add_refs
fetch e requested count_given =
    let copied = copy_points requested e.points e.next_index in
    record {
      result = if length copied == requested then s_ok else s_false;
      points = copied;
      count = write_count count_given (length copied);
      enum = record e {
        next_index = (e.next_index + length copied) % 2 ^ 32;
        added = add_refs copied e.added;
      };
    }

unfoldable pub next : EnumPoints → ℕ → Bool → Bool → Fetched
unfolding fetch
next e requested array_given count_given =
    if not array_given || (not count_given && not (requested == 1))
    then record { result = e_pointer; points = []; count = none; enum = e }
    else if requested == 0
    then record { result = s_ok; points = []; count = write_count count_given 0; enum = e }
    else if not (ltb e.next_index (length e.points))
    then record { result = s_false; points = []; count = write_count count_given 0; enum = e }
    else fetch e requested count_given

-- `remaining` is computed on size_t.
unfoldable pub skip : EnumPoints → ℕ → HResult × EnumPoints
skip e count =
    let remaining = (length e.points + 2 ^ 64 - e.next_index) % 2 ^ 64 in
    if ltb remaining count
    then (s_false, record e { next_index = length e.points % 2 ^ 32 })
    else (s_ok, record e { next_index = (e.next_index + count) % 2 ^ 32 })

pub reset : EnumPoints → HResult × EnumPoints
reset e = (s_ok, record e { next_index = 0 })

-- `Clone`: whether `ppIEnum` is given, whether the new enumerator and the vector's copy find their
-- memory. The new enumerator is returned where it is made, with its first reference.
pub clone_query : HResult → EnumPoints → HResult × Option EnumPoints
unfolding query_interface
clone_query s_ok made =
    let found = query_interface made ienum_connection_points true in (found.0, some found.2)
clone_query hr made = (hr, none)

pub clone : EnumPoints → Bool → Bool → Bool → HResult × Option EnumPoints
unfolding init clone_query new_enum_points
clone e given allocated copied =
    if not given
    then (e_pointer, none)
    else if not allocated
    then (e_outofmemory, none)
    else let made = init copied new_enum_points e.points e.next_index in clone_query made.0 made.1
