-- ===== src/Container.antt =====
-- tLuaCOMConnPointContainer (src/library/tLuaCOMConnPoints.cpp): the connection points of an object,
-- and how clients obtain them and the enumerators over them.
pub mod Laws
use luacom.Prelude.{
  ℕ, ◌+◌, Bool, true, false, not, Option, none, some, List, [], ◌∷◌, map, ◌==◌, if◌then◌else◌,
}
use luacom.Com.{HResult, s_ok, e_pointer, e_outofmemory, e_nointerface, connect_e_noconnection}
use luacom.ConnPoint.{ConnPoint}
use luacom.ConnPoint.Snapshot.{used_connections}
use luacom.Enumerator.Points.{EnumPoints, new_enum_points}
use luacom.Enumerator.Points
use luacom.Enumerator.Connections.{EnumConnections, new_enum_connections}
use luacom.Enumerator.Connections

-- `points` holds the addresses of the connection points. The references to a point are counted by
-- the object that the container belongs to: `outer_refs`.
pub record Container : Type 0 where
  pub default_point : Option ConnPoint
  pub points : List ℕ
  pub outer_refs : ℕ

pub data PointIid : Type 0 where
  iunknown iconnection_point other_iid : PointIid

-- QueryInterface of a connection point: the result code, and whether it hands itself out, with a
-- reference more.
pub query_point : Bool → PointIid → HResult × Bool
query_point false riid = (e_pointer, false)
query_point true iunknown = (s_ok, true)
query_point true iconnection_point = (s_ok, true)
query_point true other_iid = (e_nointerface, false)

-- GetConnectionInterface: the result code, and what it writes.
pub get_connection_interface : ConnPoint → Bool → HResult × Option ℕ
get_connection_interface cp given = if given then (s_ok, some cp.iid) else (e_pointer, none)

abbrev pub add_point_ref : Container → Bool → Container
add_point_ref c true = record c { outer_refs = c.outer_refs + 1 }
add_point_ref c false = c

-- The result code, whether the default point is handed out, and the container.
pub find_connection_point : Container → ℕ → Bool → HResult × Bool × Container
unfolding query_point
find_connection_point c riid given =
    if not given then (e_pointer, false, c) else elim c.default_point [
      | none ↦ (e_nointerface, false, c)
      | some cp ↦
          let found = query_point true iconnection_point in
          if cp.iid == riid
          then (found.0, found.1, add_point_ref c found.1)
          else (connect_e_noconnection, false, c)
    ]

-- EnumConnectionPoints: whether `ppIEnum` is given, whether the enumerator and the list of points
-- find their memory, and whether the enumerator's copy does.
pub enum_connection_points : Container → Bool → Bool → Bool → HResult × Option EnumPoints
enum_connection_points c given allocated copied =
    if not given
    then (e_pointer, none)
    else if not allocated
    then (e_outofmemory, none)
    else let made = Points.init copied new_enum_points c.points 0 in
      Points.clone_query made.0 made.1

-- A null interface pointer is the address 0.
abbrev pub address : Option ℕ → ℕ
address none = 0
address (some a) = a

-- EnumConnections of a connection point, with the same questions, and whether the two vectors of
-- the copy find their memory.
pub enum_connections : ConnPoint → Bool → Bool → Bool → Bool → HResult × Option EnumConnections
enum_connections cp given reserved allocated copied =
    if not given
    then (e_pointer, none)
    else if not reserved
    then (e_outofmemory, none)
    else if not allocated
    then (e_outofmemory, none)
    else let copy = used_connections cp.cookies cp.connections in
      let made = Connections.init copied new_enum_connections (map address copy.0) copy.1 0 in
      Connections.clone_query made.0 made.1
