-- ===== src/Enumerator/Connections.antt =====
-- tLuaCOMEnumConnections: an enumerator over a copy of a connection point's sinks, kept with their
-- cookies in two vectors.
pub mod Simulation
use luacom.Prelude.{
  ℕ, zero, suc, ◌+◌, ◌-◌, ◌%◌, ◌^◌, Bool, true, false, ◌&&◌, ◌||◌, not, Option, none, some, List,
  [], ◌∷◌, ◌==◌, ltb, if◌then◌else◌, length, get_elem?,
}
use luacom.Com.{HResult, s_ok, s_false, e_pointer, e_invalidarg, e_outofmemory, e_nointerface}
use luacom.Enumerator.Points.{write_count}

-- A connection is an address, and 0 is null. `host_refs` counts the references that the host has
-- from this enumerator, and `added` logs the sinks whose `AddRef` it has called.
pub record EnumConnections : Type 0 where
  pub ref_count : ℕ
  pub host_refs : ℕ
  pub connections : List ℕ
  pub cookies : List ℕ
  pub next_index : ℕ
  pub added : List ℕ

-- CONNECTDATA
pub record ConnectData : Type 0 where
  pub unknown : ℕ
  pub cookie : ℕ

pub new_enum_connections : EnumConnections
new_enum_connections = record {
  ref_count = 0;
  host_refs = 0;
  connections = [];
  cookies = [];
  next_index = 0;
  added = [];
}

-- `copied` says whether the copies of the vectors find their memory.
pub init : Bool → EnumConnections → List ℕ → List ℕ → ℕ → HResult × EnumConnections
init copied e connections cookies next_index =
    if not (length connections == length cookies) || ltb (length connections) next_index
    then (e_invalidarg, e)
    else if copied
    then (s_ok, record e { connections = connections; cookies = cookies; next_index = next_index })
    else (e_outofmemory, record e { connections = []; cookies = [] })

pub add_ref : EnumConnections → EnumConnections
add_ref e = record e { ref_count = (e.ref_count + 1) % 2 ^ 32; host_refs = e.host_refs + 1 }

pub release : EnumConnections → ℕ × Option EnumConnections
release e =
    let refs = (e.ref_count + 2 ^ 32 - 1) % 2 ^ 32 in
    let e' : EnumConnections = record e { ref_count = refs; host_refs = e.host_refs - 1 } in
    if refs == 0 then (0, none) else (refs, some e')

pub data Iid : Type 0 where
  iunknown ienum_connections other_iid : Iid

pub query_interface : EnumConnections → Iid → Bool → HResult × Bool × EnumConnections
unfolding add_ref
query_interface e iid false = (e_pointer, false, e)
query_interface e iunknown true = (s_ok, true, add_ref e)
query_interface e ienum_connections true = (s_ok, true, add_ref e)
query_interface e other_iid true = (e_nointerface, false, e)

-- The cookie at an index, where the vectors have one length; 0 stands for a read out of bounds.
abbrev pub cookie_at : List ℕ → ℕ → ℕ
cookie_at cookies i = elim (get_elem? cookies i) [ none ↦ 0 | some k ↦ k ]

-- The loop of `Next`: `rounds` is cReq - i.
pub copy_connections : ℕ → List ℕ → List ℕ → ℕ → List ConnectData
copy_connections zero connections cookies index = []
copy_connections (suc rounds) connections cookies index = elim (get_elem? connections index) [
  | none ↦ []
  | some p ↦
      record { unknown = p; cookie = cookie_at cookies index }
      ∷ copy_connections rounds connections cookies ((index + 1) % 2 ^ 32)
]

pub add_refs : List ConnectData → List ℕ → List ℕ
add_refs [] log = log
add_refs (d ∷ ds) log =
    let rest = add_refs ds log in if d.unknown == 0 then rest else d.unknown ∷ rest

pub record Fetched : Type 0 where
  pub result : HResult
  pub connections : List ConnectData
  pub count : Option ℕ
  pub enum : EnumConnections

-- `Next` behind its early returns.
pub fetch : EnumConnections → ℕ → Bool → Fetched
unfolding copy_connections add_refs
fetch e requested count_given =
    let copied = copy_connections requested e.connections e.cookies e.next_index in
    record {
      result = if length copied == requested then s_ok else s_false;
      connections = copied;
      count = write_count count_given (length copied);
      enum = record e {
        next_index = (e.next_index + length copied) % 2 ^ 32;
        added = add_refs copied e.added;
      };
    }

pub next : EnumConnections → ℕ → Bool → Bool → Fetched
unfolding fetch
next e requested array_given count_given =
    if not array_given || (not count_given && not (requested == 1))
    then record { result = e_pointer; connections = []; count = none; enum = e }
    else if requested == 0
    then record { result = s_ok; connections = []; count = write_count count_given 0; enum = e }
    else if not (ltb e.next_index (length e.connections))
    then record { result = s_false; connections = []; count = write_count count_given 0; enum = e }
    else fetch e requested count_given

pub skip : EnumConnections → ℕ → HResult × EnumConnections
skip e count =
    let remaining = (length e.connections + 2 ^ 64 - e.next_index) % 2 ^ 64 in
    if ltb remaining count
    then (s_false, record e { next_index = length e.connections % 2 ^ 32 })
    else (s_ok, record e { next_index = (e.next_index + count) % 2 ^ 32 })

pub reset : EnumConnections → HResult × EnumConnections
reset e = (s_ok, record e { next_index = 0 })

pub clone_query : HResult → EnumConnections → HResult × Option EnumConnections
unfolding query_interface
clone_query s_ok made =
    let found = query_interface made ienum_connections true in (found.0, some found.2)
clone_query hr made = (hr, none)

pub clone : EnumConnections → Bool → Bool → Bool → HResult × Option EnumConnections
unfolding init clone_query new_enum_connections
clone e given allocated copied =
    if not given
    then (e_pointer, none)
    else if not allocated
    then (e_outofmemory, none)
    else let made = init copied new_enum_connections e.connections e.cookies e.next_index in
      clone_query made.0 made.1
