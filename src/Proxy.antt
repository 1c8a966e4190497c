-- ===== src/Proxy.antt =====
-- tLuaCOM (src/library/tLuaCOM.cpp): the Lua side of a COM object. This file is the list of the
-- event connections that it has made, and how they are released.
pub mod Tracked
pub mod Methods
pub mod Release
use luacom.Prelude.{
  ℕ, zero, suc, ◌+◌, ◌≡◌, refl, Bool, true, false, ◌&&◌, not, Option, none, some, List, [], ◌∷◌,
  ◌++◌, ◌==◌, if◌then◌else◌,
}
use luacom.Prelude.Result.{Result, ok, throw, com_error, luacom_error}

-- tLuaCOM::Connection, with the connection point's address and the interface's number.
pub record Connection : Type 0 where
  pub point : ℕ
  pub interface_id : ℕ
  pub cookie : ℕ

-- `attached` says whether `pdisp` is not null. `live` is the other side: the connections that
-- connection points have accepted from this object and not ended, by point and cookie.
pub record Proxy : Type 0 where
  pub attached : Bool
  pub connections : List Connection
  pub last_interface : ℕ
  pub last_cookie : ℕ
  pub live : List (ℕ × ℕ)

-- What a method returns or throws, and the object afterwards.
abbrev pub Outcome : Type 0 → Type 0
Outcome A = Result A × Proxy

-- Take out the first connection of the point with the cookie.
unfoldable pub end_live : ℕ → ℕ → List (ℕ × ℕ) → List (ℕ × ℕ)
end_live p k [] = []
end_live p k ((q, j) ∷ l) = if q == p && j == k then l else (q, j) ∷ end_live p k l

abbrev pub record_connection : Connection → Proxy → Proxy
record_connection c x = record x { connections = x.connections ++ c ∷ [] }

-- What addConnection meets on its way to `Advise`: a server object, its type information and its
-- dispatch interface, whether the container and the connection point are found, and the memory
-- for the record.
pub record Route : Type 0 where
  pub server_given : Bool
  pub server_has_type_info : Bool
  pub server_dispatch : Bool
  pub container_found : Bool
  pub point_found : Bool
  pub recorded : Bool

abbrev pub open_route : Route → Bool
open_route r =
    r.server_given && r.server_has_type_info && r.server_dispatch && r.container_found
    && r.point_found && r.recorded

-- The loop that takes the first record of an interface and a cookie out of the list.
pub record Taken : Type 0 where
  pub pending : Option Connection
  pub rest : List Connection

unfoldable pub take_record : ℕ → ℕ → List Connection → Taken
take_record guid k [] = record { pending = none; rest = [] }
take_record guid k (c ∷ cs) =
    let later = take_record guid k cs in
    if c.interface_id == guid && c.cookie == k
    then record { pending = some c; rest = cs }
    else record { pending = later.pending; rest = c ∷ later.rest }

abbrev pub restore : Option Connection → Proxy → Proxy
restore none x = x
restore (some c) x = record_connection c x

-- CHK_COM_CODE
abbrev pub answered : Bool → Result (Unit {0})
answered success = if success then ok tt else throw com_error

-- The calls of the other side can call back into Lua, and so into this object: `callback` is what
-- this does to the object during the call for a point and a cookie, `metadata` what it does while
-- the container and the point are looked up. `find` is the connection point of an interface.
module _ (callback : ℕ → ℕ → Proxy → Proxy) (metadata : Proxy → Proxy) (find : ℕ → ℕ) where
  -- IConnectionPoint::Unadvise, where the connection point answers `success`.
  unfoldable pub unadvise : Bool → ℕ → ℕ → Proxy → Proxy
  unfolding end_live
  unadvise success p k x =
      let y = callback p k x in if success then record y { live = end_live p k y.live } else y

  -- IConnectionPoint::Advise, which answers with a cookie.
  abbrev pub advise : ℕ → ℕ → Proxy → Proxy
  advise p k x = let y = callback p k x in record y { live = (p, k) ∷ y.live }

  -- addConnection from `Advise` on, for the interface `guid`: `answer` is the cookie, or `none` for
  -- a failure, and `success` the answer of `Unadvise` where it is called.
  unfoldable pub add_advised : Proxy → ℕ → Option ℕ → Bool → Outcome ℕ
  unfolding unadvise
  add_advised x guid none success = (ok 0, callback (find guid) 0 x)
  add_advised x guid (some zero) success =
      (ok 0, unadvise success (find guid) 0 (advise (find guid) 0 x))
  add_advised x guid (some (suc k)) success =
      let c : Connection = record { point = find guid; interface_id = guid; cookie = suc k } in
      let y = advise (find guid) (suc k) x in
      let z = unadvise success (find guid) (suc k) y in
      if y.attached
      then (
        ok (suc k),
        record (record_connection c y) { last_interface = guid; last_cookie = suc k },
      )
      else (
        throw (if success then luacom_error else com_error),
        if success then z else record_connection c z,
      )

  -- addConnection; its result is the cookie, or 0.
  unfoldable pub add_connection : Proxy → Route → ℕ → Option ℕ → Bool → Outcome ℕ
  unfolding add_advised
  add_connection x r guid answer success =
      let y = metadata x in
      if not x.attached
      then (throw luacom_error, x)
      else if not (open_route r)
      then (ok 0, y)
      else if y.attached
      then add_advised y guid answer success
      else (throw luacom_error, y)

  -- releaseConnection(): the connection made last, and no other.
  unfoldable pub release_last : Proxy → Bool → Outcome (Unit {0})
  unfolding take_record unadvise
  release_last x success =
      let t = take_record x.last_interface x.last_cookie x.connections in
      elim t.pending [
        | none ↦ (ok tt, x)
        | some c ↦
            let y = unadvise success c.point c.cookie (record x { connections = t.rest }) in
            (answered success, if success then y else record_connection c y)
      ]

  -- releaseConnection(server, cookie), where `found` says whether the container and the point of
  -- the server's interface are found.
  unfoldable pub release_connection : Proxy → Bool → ℕ → ℕ → Bool → Outcome (Unit {0})
  unfolding take_record unadvise
  release_connection x found guid k success =
      let m = metadata x in
      let t = take_record guid k m.connections in
      let y = unadvise success (find guid) k (record m { connections = t.rest }) in
      if not x.attached
      then (throw luacom_error, x)
      else if not found
      then (throw luacom_error, m)
      else (answered success, if success then y else restore t.pending y)

  -- The loop of releaseConnections over the detached records; `answers` are those of `Unadvise`.
  -- The result says whether all have succeeded.
  unfoldable pub release_all : (ℕ → ℕ → Bool) → List Connection → Proxy → Bool × Proxy
  unfolding unadvise
  release_all answers [] x = (true, x)
  release_all answers (c ∷ cs) x =
      let y = unadvise (answers c.point c.cookie) c.point c.cookie x in
      let rest =
        release_all answers cs (if answers c.point c.cookie then y else record_connection c y) in
      (answers c.point c.cookie && rest.0, rest.1)

  unfoldable pub release_connections : (ℕ → ℕ → Bool) → Proxy → Bool × Proxy
  unfolding release_all
  release_connections answers x = release_all answers x.connections (record x { connections = [] })

  -- releaseComObject: the object is detached first.
  unfoldable pub release_com_object : (ℕ → ℕ → Bool) → Proxy → Outcome (Unit {0})
  unfolding release_connections
  release_com_object answers x =
      let r = release_connections answers (record x { attached = false }) in (answered r.0, r.1)
