-- ===== src/Container/Laws.antt =====
-- What a client obtains from a container and from a connection point.
use luacom.Prelude.{ℕ, ◌+◌, ◌≡◌, ◌↔◌, Bool, true, ◌&&◌, some, arith, ◌==◌, if◌then◌else◌}
use luacom.Com.{s_ok}
use luacom.ConnPoint.{ConnPoint}
use luacom.Container.{Container, find_connection_point, query_point}

-- FindConnectionPoint succeeds exactly where it is given where to write and the interface is that
-- of the default point; then it hands the point out with one reference more on the object, and
-- else nothing, with the references as they were.
pub find_connection_point-s_ok :
    (c : Container) (cp : ConnPoint) (riid : ℕ) (given : Bool)
    → c.default_point ≡ some cp
    → let r = find_connection_point c riid given in
      ((r.0 ≡ s_ok) ↔ ((given ≡ true) × (cp.iid ≡ riid)))
      × (r.1 ≡ (given && (cp.iid == riid)))
      × (r.2.outer_refs ≡ c.outer_refs + (if r.1 then 1 else 0))
unfolding find_connection_point query_point
find_connection_point-s_ok c cp riid given e = ground (arith, e)
