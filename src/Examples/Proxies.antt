-- ===== src/Examples/Proxies.antt =====
-- An object with event connections (src/library/tLuaCOM.cpp).
use luacom.Prelude.{
  ℕ, ◌+◌, ◌≡◌, ◌↔◌, refl, Bool, true, false, not, some, List, [], ◌∷◌, ◌==◌, arith,
}
use luacom.Prelude.Result.{ok, throw, luacom_error}
use luacom.Proxy.{Proxy, Route, add_connection, release_connections, release_com_object}
use luacom.Proxy.Tracked.{Tracked, live_count, record_count}
use luacom.Proxy.Release.{
  Call, adds, releases_last, releases, releases_object, run, run-Tracked, failed, quiet,
  release_com_object-failed,
}

abbrev found : Route
found = record {
  server_given = true;
  server_has_type_info = true;
  server_dispatch = true;
  container_found = true;
  point_found = true;
  recorded = true;
}

abbrev find : ℕ → ℕ
find guid = guid + 10

-- Two connections to the points of two interfaces.
abbrev two_connections : Proxy
two_connections = record {
  attached = true;
  connections =
      record { point = 11; interface_id = 1; cookie = 5 }
      ∷ record { point = 12; interface_id = 2; cookie = 6 }
      ∷ [];
  last_interface = 2;
  last_cookie = 6;
  live = (11, 5) ∷ (12, 6) ∷ [];
}

two_connections-Tracked : Tracked find [] two_connections
unfolding live_count record_count
two_connections-Tracked = record {
  on_record = λ p k n. omega arith;
  placed = (refl, (refl, tt));
  placed_detached = tt;
}

-- A connection more, one whose end is refused, and the end of the object.
abbrev history : List Call
history =
    adds found 3 (some 7) true
    ∷ releases true 1 5 false
    ∷ releases_last true
    ∷ releases_object (λ p k. not (p == 12))
    ∷ []

run-Tracked_example : Tracked find [] (run quiet (λ x. x) find two_connections history)
run-Tracked_example =
    run-Tracked quiet (λ x. x) find (λ p k ds x t. t) (λ ds x t. t) history [] two_connections
      two_connections-Tracked

abbrev refuse_second : ℕ → ℕ → Bool
refuse_second p k = not (p == 12)

release_com_object-failed_example :
    let y = release_connections quiet (λ z. z) find refuse_second two_connections in
    let z = release_com_object quiet (λ z. z) find refuse_second two_connections in
    (y.1.connections ≡ failed refuse_second two_connections.connections)
    × ((y.0 ≡ true) ↔ (failed refuse_second two_connections.connections ≡ []))
    × (z.1.connections ≡ failed refuse_second two_connections.connections)
    × ((z.0 ≡ ok tt) ↔ (failed refuse_second two_connections.connections ≡ []))
    × (add_connection quiet (λ z. z) find z.1 found 3 (some 7) true ≡ (throw luacom_error, z.1))
release_com_object-failed_example =
    release_com_object-failed find refuse_second two_connections found 3 (some 7) true
