-- ===== src/ComEnumerator/Values.antt =====
-- What a Lua program gets from a COM enumerator (src/library/tLuaCOMEnumerator.cpp).
use luacom.Prelude.{
  ℕ, zero, suc, ◌+◌, ◌-◌, ◌^◌, ◌≤◌, ◌<◌, ◌≡◌, refl, ap, ◌∙◌, true, false, Option, none, some, List,
  [], ◌∷◌, ◌++◌, arith, ◌==◌, ltb-false, take, drop, drop-drop, length, length-take, get_elem?, map,
}
use luacom.Prelude.Result.{Result, ok}
use luacom.Prelude.Run.{Run, ◌>>=◌, continue, pure}
use luacom.ComEnumerator.{
  returned, lua_failed, Fetched, World, init_variants, convert, protected_next, fetch, requested,
  fetch_with_context, next,
}
use luacom.ComEnumerator.Laws.{upto, init_variants-upto, leave_context-upto, block_of}

module _ {V : Type 0} (empty : V) where
  -- A server that enumerates a list.
  abbrev pub or_empty : Option V → V
  or_empty o = elim o [ none ↦ empty | some v ↦ v ]

  unfoldable pub list_next : List V → ℕ → Fetched V × List V
  list_next vs n = (
    record {
      failed = false;
      fetched = length (take n vs);
      values = λ i. or_empty (get_elem? vs i);
    },
    drop n vs,
  )

module _ {V : Type 0} where
  get_elem?-take :
      (n j : ℕ) (vs : List V) (v : V) → get_elem? (take n vs) j ≡ some v → get_elem? vs j ≡ some v
  get_elem?-take zero j vs v e = cc
  get_elem?-take (suc n) j [] v e = cc
  get_elem?-take (suc n) zero (u ∷ vs) v e = e
  get_elem?-take (suc n) (suc j) (u ∷ vs) v e = get_elem?-take n j vs v e

  take-nil : (n : ℕ) → take {A = V} n [] ≡ []
  take-nil zero = refl
  take-nil (suc n) = refl

  length-take_le : (n : ℕ) (vs : List V) → length (take n vs) ≤ n
  length-take_le n vs = omega (arith, length-take n vs)

unfoldable pub sum : List ℕ → ℕ
sum [] = 0
sum (n ∷ ns) = n + sum ns

plus_zero : (j : ℕ) → 0 + j ≡ j
plus_zero j = omega arith

module _ {V L : Type 0} (empty : V) (lua_of : V → L) (room : ℕ) where
  abbrev to_lua : V → Result L
  to_lua v = ok (lua_of v)

  convert-map :
      (us : List V) (values : ℕ → V) (i : ℕ)
      → ((j : ℕ) (v : V) → get_elem? us j ≡ some v → values (i + j) ≡ v)
      → convert (list_next empty) to_lua values i (length us) ≡ ok (map lua_of us)
  unfolding convert
  convert-map [] values i f = refl
  convert-map (u ∷ us) values i f =
      let first : values i ≡ u = ap values (omega arith) ∙ f 0 u refl in
      let rest = convert-map us values (suc i) (λ j v e. ap values (omega arith) ∙ f (suc j) v e) in
      rw (convert, rest, first) refl

  -- The calls of Next with some numbers, one after the other, and all values that they return.
  unfoldable pub next_all : List ℕ → Run (World (List V)) (List L)
  unfolding next
  next_all [] = pure []
  next_all (n ∷ ns) = next (list_next empty) to_lua true true room (some (some n)) >>= λ c.
      next_all ns >>= λ ls. pure (elim c [ returned vs ↦ vs ++ ls | lua_failed ↦ ls ])

  fetch-take :
      (n : ℕ) (w : World (List V))
      → n ≤ room
      → n < 2 ^ 31
      → fetch (list_next empty) to_lua room n w
        ≡ (ok (returned (map lua_of (take n w.server))), record w { server = drop n w.server })
  unfolding fetch protected_next list_next
  fetch-take n w h small =
      let vs = w.server in
      let few = length-take_le n vs in
      rw
        (
          ltb-false n (length (take n vs)) few,
          ltb-false (2 ^ 31 - 1) (length (take n vs)) (omega (arith, few, small)),
          ltb-false room (length (take n vs)) (omega (arith, few, h)),
          convert-map (take n vs) (λ i. or_empty empty (get_elem? vs i)) 0
              (λ j v e.
                ap (λ k. or_empty empty (get_elem? vs k)) (plus_zero j)
                ∙ ap (or_empty empty) (get_elem?-take n j vs v e)),
        )
        refl

  fetch_with_context-take :
      (n : ℕ) (w : World (List V))
      → n ≤ room
      → n < 2 ^ 31
      → fetch_with_context (list_next empty) to_lua room n (record w { live = [] }) ≡ (
        ok (returned (map lua_of (take n w.server))),
        record w { server = drop n w.server; live = [] },
      )
  fetch_with_context-take n w h small =
      let v : World (List V) = record w { live = upto 0 n; arrays = w.arrays + 1 } in
      let start : init_variants 0 n (record w { live = []; arrays = w.arrays + 1 }) ≡ v =
        init_variants-upto 0 n (record w { live = []; arrays = w.arrays + 1 }) in
      let back : w.arrays + 1 - 1 ≡ w.arrays = omega arith in
      rw
        (
          block_of (list_next empty) to_lua room n (record w { live = [] }),
          start,
          fetch-take n v h small,
          leave_context-upto n (ok (returned (map lua_of (take n w.server))))
              (record v { server = drop n w.server }) (λ e. cc),
          back,
        )
        refl

  next-take :
      (n : ℕ) (w : World (List V))
      → n ≤ room
      → n < 2 ^ 31
      → next (list_next empty) to_lua true true room (some (some n)) (record w { live = [] }) ≡ (
        ok (returned (map lua_of (take n w.server))),
        record w { server = drop n w.server; live = [] },
      )
  unfolding next continue requested
  next-take zero w h small = refl
  next-take (suc n) w h small =
      let some_wanted : (suc n == 0) ≡ false = ground arith in
      rw (some_wanted, fetch_with_context-take (suc n) w h small) refl

  map-take :
      (a b : ℕ) (vs : List V)
      → map lua_of (take a vs) ++ map lua_of (take b (drop a vs)) ≡ map lua_of (take (a + b) vs)
  map-take zero b vs = rw (plus_zero b) refl
  map-take (suc a) b [] = rw (take-nil b, take-nil (suc a + b)) refl
  map-take (suc a) b (v ∷ vs) =
      let e : suc a + b ≡ suc (a + b) = omega arith in rw e (ap (◌∷◌ (lua_of v)) (map-take a b vs))

  -- Where a server enumerates a list of values that all can be converted, and the stack has room,
  -- calls of Next with some numbers return, together, the first values of the list, as many as the
  -- numbers say or as there are, converted and in their order, and leave the rest to the server and
  -- nothing of the arrays.
  pub next_all-take :
      (ns : List ℕ) (w : World (List V))
      → sum ns ≤ room
      → sum ns < 2 ^ 31
      → next_all ns (record w { live = [] }) ≡ (
        ok (map lua_of (take (sum ns) w.server)),
        record w { server = drop (sum ns) w.server; live = [] },
      )
  unfolding next_all continue sum
  next_all-take [] w h small = refl
  next_all-take (n ∷ ns) w h small =
      rw
        (
          next-take n w (omega (arith, h)) (omega (arith, small)),
          next_all-take ns (record w { server = drop n w.server }) (omega (arith, h))
              (omega (arith, small)),
          map-take n (sum ns) w.server,
          drop-drop (sum ns) n w.server,
        )
        refl
