-- ===== src/ConnPoint/Table.antt =====
-- The connection point as a finite map from cookies to sinks: the invariant of its three vectors,
-- and what `Advise` and `Unadvise` do to the map.
use luacom.Prelude.{
  ℕ, suc, ◌+◌, ◌%◌, ◌^◌, ◌<◌, ◌≡◌, refl, ◌≢◌, ◌↔◌, ◌⊎◌, inl, inr, Bool, true, false, ◌&&◌, Option,
  none, some, arith, ◌==◌, if◌then◌else◌, Option-cases, Bool-cases,
}
use luacom.Com.{s_ok}
use luacom.ConnPoint.{
  ConnPoint, AdviseCall, Creation, made, luacom_exception, other_exception, commit, accepted,
  storage_ready-true, advise_at, advise_dispatch, advise, clear_slot, unadvise, new_conn_point,
}
use luacom.ConnPoint.Slots.{
  find, slot, has, Fresh, Distinct, Parallel, Fresh-has, Fresh-suc, Fresh-append, Fresh-set,
  Distinct-append, Distinct-set, Distinct-clear,
}
use luacom.ConnPoint.Laws.{
  find-none, find-some, slot-none, slot-ne-none, slot-append, slot-set, slot-clear, Parallel-append,
  Parallel-set, Parallel-clear,
}

-- The vectors agree on which slots are free, the cookies in use differ, and the next is new.
pub record IsValid (cp : ConnPoint) : Type 0 where
  pub parallel : Parallel cp.cookies cp.connections cp.sinks
  pub distinct : Distinct cp.cookies
  pub fresh : Fresh cp.next_cookie cp.cookies
  pub started : 0 < cp.next_cookie

-- The connection and sink that a cookie stands for. The cookie 0 stands for none.
unfoldable pub connection : ConnPoint → ℕ → Option (Option ℕ × Option ℕ)
connection cp k = if k == 0 then none else slot k cp.cookies cp.connections cp.sinks

-- The counter has not come to its last value.
abbrev pub HasCookies : ConnPoint → Type 0
HasCookies cp = cp.next_cookie + 1 < 2 ^ 32

commit-IsValid :
    (cp : ConnPoint) (free : Option ℕ) (d s : ℕ)
    → IsValid cp
    → HasCookies cp
    → IsValid (commit cp free d s)
unfolding commit
commit-IsValid cp none d s v room =
    let next : (cp.next_cookie + 1) % 2 ^ 32 ≡ suc cp.next_cookie = omega arith in
    record {
      parallel =
          Parallel-append cp.next_cookie d s cp.cookies cp.connections cp.sinks v.parallel
            (λ e. omega (arith, v.started));
      distinct = Distinct-append cp.next_cookie cp.cookies v.distinct v.fresh;
      fresh = rw next (
          Fresh-append (suc cp.next_cookie) cp.next_cookie cp.cookies
            (Fresh-suc cp.next_cookie cp.cookies v.fresh) (omega arith));
      started = omega arith;
    }
commit-IsValid cp (some i) d s v room =
    let next : (cp.next_cookie + 1) % 2 ^ 32 ≡ suc cp.next_cookie = omega arith in
    record {
      parallel =
          Parallel-set cp.next_cookie d s i cp.cookies cp.connections cp.sinks v.parallel
            (λ e. omega (arith, v.started));
      distinct = Distinct-set cp.next_cookie i cp.cookies v.distinct v.fresh;
      fresh = rw next (
          Fresh-set (suc cp.next_cookie) cp.next_cookie i cp.cookies
            (Fresh-suc cp.next_cookie cp.cookies v.fresh) (omega arith));
      started = omega arith;
    }

commit-connection :
    (cp : ConnPoint) (d s j : ℕ)
    → IsValid cp
    → connection (commit cp (find 0 cp.cookies) d s) j
      ≡ (if cp.next_cookie == j then some (some d, some s) else connection cp j)
unfolding connection
commit-connection cp d s j v = go (find 0 cp.cookies) refl
  where
    new : has cp.next_cookie cp.cookies ≡ false
    new = Fresh-has cp.next_cookie cp.cookies v.fresh

    go :
        (free : Option ℕ)
        → find 0 cp.cookies ≡ free
        → connection (commit cp free d s) j
          ≡ (if cp.next_cookie == j then some (some d, some s) else connection cp j)
    go none e =
        unfold commit in
        ground (
          arith,
          v.started,
          slot-append j cp.next_cookie (some d) (some s) cp.cookies cp.connections cp.sinks
              v.parallel new,
        )
    go (some i) e =
        unfold commit in
        ground (
          arith,
          v.started,
          λ (nz : j ≢ 0).
              slot-set j cp.next_cookie i (some d) (some s) cp.cookies cp.connections cp.sinks
                v.parallel e nz new,
        )

clear_slot-IsValid : (cp : ConnPoint) (i : ℕ) → IsValid cp → IsValid (clear_slot cp i)
unfolding clear_slot
clear_slot-IsValid cp i v = record {
  parallel = Parallel-clear i cp.cookies cp.connections cp.sinks v.parallel;
  distinct = Distinct-clear i cp.cookies v.distinct;
  fresh = Fresh-set cp.next_cookie 0 i cp.cookies v.fresh v.started;
  started = v.started;
}

pub new_conn_point-IsValid : IsValid new_conn_point
unfolding new_conn_point
new_conn_point-IsValid = record { parallel = tt; distinct = tt; fresh = tt; started = omega arith }

advise_at-IsValid :
    (cp : ConnPoint) (free : Option ℕ) (b : Bool) (d : ℕ) (cr : Creation)
    → IsValid cp
    → HasCookies cp
    → IsValid (advise_at cp free b d cr).point
unfolding advise_at
advise_at-IsValid cp free false d cr v room = v
advise_at-IsValid cp free true d (made s) v room = commit-IsValid cp free d s v room
advise_at-IsValid cp free true d luacom_exception v room = v
advise_at-IsValid cp free true d other_exception v room = v

advise_dispatch-IsValid :
    (cp : ConnPoint) (d : Option ℕ) (b : Bool) (cr : Creation)
    → IsValid cp
    → HasCookies cp
    → IsValid (advise_dispatch cp d b cr).point
unfolding advise_dispatch
advise_dispatch-IsValid cp none b cr v room = v
advise_dispatch-IsValid cp (some d) b cr v room =
    advise_at-IsValid cp (find 0 cp.cookies) _ d cr v room

-- Whatever its arguments and whatever the code it calls answers, `Advise` keeps the invariant.
pub advise-IsValid :
    (cp : ConnPoint) (c : AdviseCall) → IsValid cp → HasCookies cp → IsValid (advise cp c).point
unfolding advise
advise-IsValid cp c v room = elim (Bool-cases (c.sink_given && c.cookie_given)) [
  | inl e ↦ rw (e, advise) (advise_dispatch-IsValid cp c.dispatch c.reserved c.creation v room)
  | inr e ↦ rw (e, advise) v
]

-- `Unadvise` keeps the invariant for every cookie.
pub unadvise-IsValid : (cp : ConnPoint) (k : ℕ) → IsValid cp → IsValid (unadvise cp k).1
unfolding unadvise
unadvise-IsValid cp k v = elim (Bool-cases (k == 0)) [
  | inl z ↦ rw (z, unadvise) v
  | inr nz ↦ elim (Option-cases (find k cp.cookies)) [
    | inl e ↦ rw (nz, e, unadvise) v
    | inr (i, e) ↦ rw (nz, e, unadvise) (clear_slot-IsValid cp i v)
  ]
]

-- A call of `Advise` whose arguments are given, whose sink is an IDispatch and is created, and
-- which has the storage, connects the sink under a cookie that stood for none: the new table
-- differs from the old one there alone.
pub advise-connection :
    (cp : ConnPoint) (d s j : ℕ)
    → IsValid cp
    → let r = advise cp (accepted d s) in
      (r.result ≡ s_ok)
      × (r.cookie_out ≡ some cp.next_cookie)
      × (connection cp cp.next_cookie ≡ none)
      × (connection r.point j
          ≡ (if cp.next_cookie == j then some (some d, some s) else connection cp j))
unfolding advise advise_at advise_dispatch connection
advise-connection cp d s j v =
    rw (storage_ready-true (find 0 cp.cookies), advise_at)
      (
        refl,
        refl,
        ground (arith, slot-none cp.next_cookie cp.cookies cp.connections cp.sinks new),
        commit-connection cp d s j v,
      )
  where
    new : has cp.next_cookie cp.cookies ≡ false
    new = Fresh-has cp.next_cookie cp.cookies v.fresh

-- A call of `Advise` that fails in any way leaves the connection point as it was, and writes no
-- cookie but 0.
pub advise_failed :
    (cp : ConnPoint) (c : AdviseCall)
    → (advise cp c).result ≢ s_ok
    → ((advise cp c).point ≡ cp)
      × (((advise cp c).cookie_out ≡ none) ⊎ ((advise cp c).cookie_out ≡ some 0))
unfolding advise advise_at advise_dispatch
advise_failed cp c h = ground arith

-- `Unadvise` succeeds exactly for a cookie that stands for a sink. It takes that cookie out of
-- the table and leaves the others as they were.
pub unadvise-connection :
    (cp : ConnPoint) (k j : ℕ)
    → IsValid cp
    → (((unadvise cp k).0 ≡ s_ok) ↔ (connection cp k ≢ none))
      × (connection (unadvise cp k).1 j ≡ (if k == j then none else connection cp j))
unfolding unadvise connection
unadvise-connection cp k j v = elim (Bool-cases (k == 0)) [
  | inl z ↦ rw (z, unadvise) (ground arith)
  | inr nz ↦ elim (Option-cases (find k cp.cookies)) [
    | inl e ↦
        rw (nz, e, unadvise)
          (ground
            (arith, slot-none k cp.cookies cp.connections cp.sinks (find-none k cp.cookies e)))
    | inr (i, e) ↦
        rw (nz, e, unadvise)
          (ground (
            arith,
            slot-ne-none k cp.cookies cp.connections cp.sinks v.parallel
                (find-some k i cp.cookies e),
            λ (h : j ≢ 0) (g : k ≢ 0).
                slot-clear j k i cp.cookies cp.connections cp.sinks v.parallel v.distinct e h g,
          ))
  ]
]
