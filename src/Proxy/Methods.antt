-- ===== src/Proxy/Methods.antt =====
-- Each method of the object keeps its connections on record, whatever the other side answers and
-- whatever its callbacks do that keeps them on record too.
use luacom.Prelude.{
  ℕ, zero, suc, ◌≡◌, refl, sym, subst, Bool, true, false, not, Option, none, some, List, [], ◌∷◌,
  ◌++◌, arith, if◌then◌else◌, Option-cases, inl, inr,
}
use luacom.Prelude.Result.{Result}
use luacom.Proxy.{
  Connection, Proxy, Route, open_route, record_connection, take_record, restore, advise, unadvise,
  add_advised, add_connection, release_last, release_connection, release_all, release_connections,
}
use luacom.Proxy.Tracked.{
  live_count, record_count, record_count-append, Tracked, Placed-append, take_record-some,
  take_record-none, record_connection-Tracked, end_live-Tracked, end_live-Tracked_any,
  take_record-Tracked,
}

-- What calls back into Lua do to the object keeps connections on record, whichever are detached.
abbrev pub Keeps : (ℕ → ℕ) → (Proxy → Proxy) → Type 0
Keeps find f = (ds : List Connection) (x : Proxy) → Tracked find ds x → Tracked find ds (f x)

module _ (callback : ℕ → ℕ → Proxy → Proxy) (metadata : Proxy → Proxy) (find : ℕ → ℕ)
    (callback_keeps : (p k : ℕ) → Keeps find (callback p k))
    (metadata_keeps : Keeps find metadata) where
  unadvise-Tracked :
      (success : Bool) (q j : ℕ) → Keeps find (unadvise callback metadata find success q j)
  unfolding unadvise
  unadvise-Tracked true q j ds x t =
      end_live-Tracked_any find q j ds (callback q j x) (callback_keeps q j ds x t)
  unadvise-Tracked false q j ds x t = callback_keeps q j ds x t

  -- A detached record whose connection the point has ended need not be on record.
  unadvise-Tracked_ended :
      (c : Connection) (ds : List Connection) (x : Proxy)
      → Tracked find (c ∷ ds) x
      → Tracked find ds (unadvise callback metadata find true c.point c.cookie x)
  unfolding unadvise
  unadvise-Tracked_ended c ds x t =
      end_live-Tracked find c ds (callback c.point c.cookie x)
        (callback_keeps c.point c.cookie (c ∷ ds) x t)

  -- Either way a detached record is seen to.
  seen_to :
      (success : Bool) (c : Connection) (ds : List Connection) (x : Proxy)
      → Tracked find (c ∷ ds) x
      → let y = unadvise callback metadata find success c.point c.cookie x in
        Tracked find ds (if success then y else record_connection c y)
  seen_to true c ds x t = unadvise-Tracked_ended c ds x t
  seen_to false c ds x t =
      record_connection-Tracked find c ds _ (unadvise-Tracked false c.point c.cookie (c ∷ ds) x t)

  seen_to_at :
      (success : Bool) (c : Connection) (q j : ℕ) (ds : List Connection) (x : Proxy)
      → c.point ≡ q
      → c.cookie ≡ j
      → Tracked find (c ∷ ds) x
      → let y = unadvise callback metadata find success q j x in
        Tracked find ds (if success then y else record_connection c y)
  seen_to_at success c q j ds x p e t = rw (sym p, sym e) (seen_to success c ds x t)

  release_all-Tracked :
      (answers : ℕ → ℕ → Bool) (cs ds : List Connection) (x : Proxy)
      → Tracked find (cs ++ ds) x
      → Tracked find ds (release_all callback metadata find answers cs x).1
  unfolding release_all
  release_all-Tracked answers [] ds x t = t
  release_all-Tracked answers (c ∷ cs) ds x t =
      release_all-Tracked answers cs ds _ (seen_to (answers c.point c.cookie) c (cs ++ ds) x t)

  detach_all :
      (ds : List Connection) (x : Proxy)
      → Tracked find ds x
      → Tracked find (x.connections ++ ds) (record x { connections = [] })
  unfolding record_count
  detach_all ds x t = record {
    on_record = λ p k n. omega (arith, t.on_record p k n, record_count-append p k x.connections ds);
    placed = tt;
    placed_detached = Placed-append find x.connections ds t.placed t.placed_detached;
  }

  pub release_connections-Tracked :
      (answers : ℕ → ℕ → Bool) (ds : List Connection) (x : Proxy)
      → Tracked find ds x
      → Tracked find ds (release_connections callback metadata find answers x).1
  unfolding release_connections
  release_connections-Tracked answers ds x t =
      release_all-Tracked answers x.connections ds _ (detach_all ds x t)

  pub release_last-Tracked :
      (success : Bool) (ds : List Connection) (x : Proxy)
      → Tracked find ds x
      → Tracked find ds (release_last callback metadata find x success).1
  unfolding release_last
  release_last-Tracked success ds x t =
      elim (Option-cases (take_record x.last_interface x.last_cookie x.connections).pending) [
        | inl e ↦ rw (e, release_last) t
        | inr (c, e) ↦
            let y = take_record-Tracked find x.last_interface x.last_cookie c ds x t e in
            rw (e, release_last) (seen_to success c ds _ y)
      ]

  -- Of two objects that keep their connections on record, either does.
  either :
      (b : Bool) {ds : List Connection} {x y : Proxy}
      → Tracked find ds x
      → Tracked find ds y
      → Tracked find ds (if b then x else y)
  either true t u = t
  either false t u = u

  outcome :
      {A : Type 0} (b : Bool) {ds : List Connection} (x y : Result A × Proxy)
      → Tracked find ds x.1
      → Tracked find ds y.1
      → Tracked find ds (if b then x else y).1
  outcome true x y t u = t
  outcome false x y t u = u

  -- Behind the guards of releaseConnection(server, cookie).
  released :
      (success : Bool) (guid j : ℕ) (ds : List Connection) (m : Proxy)
      → Tracked find ds m
      → let t = take_record guid j m.connections in
        let y =
          unadvise callback metadata find success
            (find guid)
            j
            (record m { connections = t.rest }) in
        Tracked find ds (if success then y else restore t.pending y)
  released success guid j ds m t = elim (Option-cases (take_record guid j m.connections).pending) [
    | inl e ↦
        let same : Tracked find ds
            (record m { connections = (take_record guid j m.connections).rest }) =
          subst (λ (cs : List Connection). Tracked find ds (record m { connections = cs }))
            (sym (take_record-none find guid j m.connections e)) t in
        let u = unadvise-Tracked success (find guid) j ds _ same in either success u (rw e u)
    | inr (c, e) ↦
        let f = take_record-some find guid j 0 0 m.connections c t.placed e in
        rw e (
          seen_to_at success c (find guid) j ds _ f.2 f.1
            (take_record-Tracked find guid j c ds m t e))
  ]

  pub release_connection-Tracked :
      (found success : Bool) (guid j : ℕ) (ds : List Connection) (x : Proxy)
      → Tracked find ds x
      → Tracked find ds (release_connection callback metadata find x found guid j success).1
  unfolding release_connection
  release_connection-Tracked found success guid j ds x t =
      let m = metadata_keeps ds x t in
      outcome (not x.attached) _ _ t
        (outcome (not found) _ _ m (released success guid j ds (metadata x) m))

  -- A new connection is on record as soon as it is counted live.
  advise-Tracked :
      (c : Connection) (ds : List Connection) (x : Proxy)
      → c.point ≡ find c.interface_id
      → Tracked find ds x
      → Tracked find (c ∷ ds) (advise callback metadata find c.point c.cookie x)
  unfolding live_count record_count
  advise-Tracked c ds x e t =
      let y = callback_keeps c.point c.cookie ds x t in
      record {
        on_record = λ p k n. omega (arith, y.on_record p k n);
        placed = y.placed;
        placed_detached = (e, y.placed_detached);
      }

  -- The cookie 0 is never on record.
  advise_zero-Tracked :
      (q : ℕ) (ds : List Connection) (x : Proxy)
      → Tracked find ds x
      → Tracked find ds (advise callback metadata find q 0 x)
  unfolding live_count
  advise_zero-Tracked q ds x t =
      let y = callback_keeps q 0 ds x t in
      record {
        on_record = λ p k n. ground (arith, y.on_record p k n);
        placed = y.placed;
        placed_detached = y.placed_detached;
      }

  add_advised-Tracked :
      (guid : ℕ) (answer : Option ℕ) (success : Bool) (ds : List Connection) (x : Proxy)
      → Tracked find ds x
      → Tracked find ds (add_advised callback metadata find x guid answer success).1
  unfolding add_advised
  add_advised-Tracked guid none success ds x t = callback_keeps (find guid) 0 ds x t
  add_advised-Tracked guid (some zero) success ds x t =
      unadvise-Tracked success (find guid) 0 ds _ (advise_zero-Tracked (find guid) ds x t)
  add_advised-Tracked guid (some (suc k)) success ds x t =
      let c : Connection = record { point = find guid; interface_id = guid; cookie = suc k } in
      let y = advise-Tracked c ds x refl t in
      let r = record_connection-Tracked find c ds _ y in
      outcome (advise callback metadata find (find guid) (suc k) x).attached _ _
        (record { on_record = r.on_record; placed = r.placed; placed_detached = r.placed_detached })
        (seen_to success c ds _ y)

  pub add_connection-Tracked :
      (r : Route) (guid : ℕ) (answer : Option ℕ) (success : Bool) (ds : List Connection) (x : Proxy)
      → Tracked find ds x
      → Tracked find ds (add_connection callback metadata find x r guid answer success).1
  unfolding add_connection
  add_connection-Tracked r guid answer success ds x t =
      let m = metadata_keeps ds x t in
      outcome (not x.attached) _ _ t (
        outcome (not (open_route r)) _ _ m (
          outcome (metadata x).attached _ _
            (add_advised-Tracked guid answer success ds (metadata x) m) m))
