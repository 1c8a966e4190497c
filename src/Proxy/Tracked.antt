-- ===== src/Proxy/Tracked.antt =====
-- No connection is lost: what a connection point still holds, the object has on record.
use luacom.Prelude.{
  ℕ, ◌+◌, ◌-◌, ◌≤◌, ◌≡◌, refl, sym, ap, ◌∙◌, ◌≢◌, Bool, true, false, ◌&&◌, none, some, List, [],
  ◌∷◌, ◌++◌, arith, ◌==◌,
}
use luacom.Proxy.{Connection, Proxy, end_live, record_connection, take_record}

abbrev pub one_if : Bool → ℕ
one_if true = 1
one_if false = 0

-- How many live connections a point has under a cookie, and how many are on record.
unfoldable pub live_count : ℕ → ℕ → List (ℕ × ℕ) → ℕ
live_count p k [] = 0
live_count p k ((q, j) ∷ l) = one_if (q == p && j == k) + live_count p k l

unfoldable pub record_count : ℕ → ℕ → List Connection → ℕ
record_count p k [] = 0
record_count p k (c ∷ cs) = one_if (c.point == p && c.cookie == k) + record_count p k cs

pub live_count-end :
    (p k q j n : ℕ) (l : List (ℕ × ℕ))
    → live_count p k l ≤ n + one_if (q == p && j == k)
    → live_count p k (end_live q j l) ≤ n
unfolding live_count end_live
live_count-end p k q j n [] h = omega arith
live_count-end p k q j n ((r, i) ∷ l) h =
    ground (arith, live_count-end p k q j n l, live_count-end p k q j (n - 1) l)

pub record_count-append :
    (p k : ℕ) (cs ds : List Connection)
    → record_count p k (cs ++ ds) ≡ record_count p k cs + record_count p k ds
unfolding record_count
record_count-append p k [] ds = omega arith
record_count-append p k (c ∷ cs) ds = omega (arith, record_count-append p k cs ds)

module _ (find : ℕ → ℕ) where
  -- Each record names the point of its interface.
  abbrev pub Placed : List Connection → Type 0
  Placed [] = Unit {0}
  Placed (c ∷ cs) = (c.point ≡ find c.interface_id) × Placed cs

  -- Every connection under a cookie that some point still holds is on record, in the object's list
  -- or in the list of those that a method has detached from it.
  pub record Tracked (detached : List Connection) (x : Proxy) : Type 0 where
    pub on_record :
        (p k : ℕ)
        → k ≢ 0
        → live_count p k x.live ≤ record_count p k detached + record_count p k x.connections
    pub placed : Placed x.connections
    pub placed_detached : Placed detached

  pub Placed-append : (cs ds : List Connection) → Placed cs → Placed ds → Placed (cs ++ ds)
  Placed-append [] ds a b = b
  Placed-append (c ∷ cs) ds a b = (a.0, Placed-append cs ds a.1 b)

  -- The record that is taken out, and what is left.
  pub take_record-some :
      (guid j p k : ℕ) (cs : List Connection) (c : Connection)
      → Placed cs
      → (take_record guid j cs).pending ≡ some c
      → (c.interface_id ≡ guid)
        × (c.cookie ≡ j)
        × (c.point ≡ find guid)
        × Placed (take_record guid j cs).rest
        × (record_count p k cs
            ≡ one_if (c.point == p && c.cookie == k)
              + record_count p k (take_record guid j cs).rest)
  unfolding take_record record_count
  take_record-some guid j p k [] c h e = absurd cc
  take_record-some guid j p k (d ∷ cs) c h e = ground (arith, take_record-some guid j p k cs c)

  pub take_record-none :
      (guid j : ℕ) (cs : List Connection)
      → (take_record guid j cs).pending ≡ none
      → (take_record guid j cs).rest ≡ cs
  unfolding take_record
  take_record-none guid j [] e = refl
  take_record-none guid j (c ∷ cs) e = ground (arith, take_record-none guid j cs)

  -- What comes of a record that was detached: it is on record again, or its connection has ended.
  pub record_connection-Tracked :
      (c : Connection) (ds : List Connection) (x : Proxy)
      → Tracked (c ∷ ds) x
      → Tracked ds (record_connection c x)
  unfolding record_count
  record_connection-Tracked c ds x t = record {
    on_record =
        λ p k n. omega (arith, t.on_record p k n, record_count-append p k x.connections (c ∷ []));
    placed = Placed-append x.connections (c ∷ []) t.placed (t.placed_detached.0, tt);
    placed_detached = t.placed_detached.1;
  }

  pub end_live-Tracked :
      (c : Connection) (ds : List Connection) (x : Proxy)
      → Tracked (c ∷ ds) x
      → Tracked ds (record x { live = end_live c.point c.cookie x.live })
  unfolding record_count
  end_live-Tracked c ds x t = record {
    on_record = λ p k n.
        live_count-end p k c.point c.cookie (record_count p k ds + record_count p k x.connections)
          x.live (omega (arith, t.on_record p k n));
    placed = t.placed;
    placed_detached = t.placed_detached.1;
  }

  pub end_live-Tracked_any :
      (q j : ℕ) (ds : List Connection) (x : Proxy)
      → Tracked ds x
      → Tracked ds (record x { live = end_live q j x.live })
  end_live-Tracked_any q j ds x t = record {
    on_record = λ p k n.
        live_count-end p k q j (record_count p k ds + record_count p k x.connections) x.live
          (omega (arith, t.on_record p k n));
    placed = t.placed;
    placed_detached = t.placed_detached;
  }

  -- `take_record` moves a record from the object's list to the detached ones.
  pub take_record-Tracked :
      (guid j : ℕ) (c : Connection) (ds : List Connection) (x : Proxy)
      → Tracked ds x
      → (take_record guid j x.connections).pending ≡ some c
      → Tracked (c ∷ ds) (record x { connections = (take_record guid j x.connections).rest })
  unfolding record_count
  take_record-Tracked guid j c ds x t e =
      let found = λ (p k : ℕ). take_record-some guid j p k x.connections c t.placed e in
      record {
        on_record = λ p k n. omega (arith, t.on_record p k n, found p k);
        placed = (found 0 0).3;
        placed_detached = ((found 0 0).2 ∙ ap find (sym (found 0 0).0), t.placed_detached);
      }
