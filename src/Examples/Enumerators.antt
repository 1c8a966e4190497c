-- ===== src/Examples/Enumerators.antt =====
-- Enumerators over a few points (src/library/tLuaCOMConnPoints.cpp).
use luacom.Prelude.{◌≡◌, true, false, some, [], ◌∷◌, arith, length}
use luacom.Com.{s_false}
use luacom.Enumerator.Points.{EnumPoints, next}
use luacom.Enumerator.Points.Laws.{IsValid, remaining, next-remaining}
use luacom.Enumerator.Connections.{EnumConnections, ConnectData, new_enum_connections}
use luacom.Enumerator.Connections
use luacom.Enumerator.Connections.Simulation.{without_cookies, fetched_points, next-fetched_points}

-- The second of three points is the next.
abbrev three_points : EnumPoints
three_points = record {
  ref_count = 1;
  host_refs = 1;
  points = 7 ∷ 8 ∷ 9 ∷ [];
  next_index = 1;
  added = [];
}

abbrev three_sinks : EnumConnections
three_sinks = record {
  ref_count = 1;
  host_refs = 1;
  connections = 7 ∷ 8 ∷ 9 ∷ [];
  cookies = 400 ∷ 401 ∷ 402 ∷ [];
  next_index = 1;
  added = [];
}

three_points-IsValid : IsValid three_points
three_points-IsValid = record { within = omega arith; small = omega arith }

next-remaining_example :
    let r = next three_points 5 true true in
    (r.points ≡ 8 ∷ 9 ∷ [])
    × (remaining r.enum ≡ [])
    × (r.count ≡ some (length r.points))
    × (r.result ≡ s_false)
    × IsValid r.enum
next-remaining_example = next-remaining three_points 5 three_points-IsValid

next-fetched_points_example :
    fetched_points (Connections.next three_sinks 2 true false)
    ≡ next (without_cookies three_sinks) 2 true false
next-fetched_points_example = next-fetched_points three_sinks 2 true false
