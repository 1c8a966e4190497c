-- ===== src/ComEnumerator/Laws.antt =====
-- What the wrapper of a COM enumerator promises (src/library/tLuaCOMEnumerator.cpp).
use luacom.Prelude.{
  ℕ, zero, suc, ◌+◌, ◌-◌, ◌≡◌, ◌≢◌, refl, ap, ◌∙◌, Bool, true, false, not, ◌||◌, Option, none, some,
  List, [], ◌∷◌, ◌++◌, append_assoc, append-nil, arith, ◌==◌, ==_refl, ltb, if◌then◌else◌,
  Bool-cases, inl, inr,
}
use luacom.Prelude.Result.{Result, ok, throw, fault}
use luacom.Prelude.Run.{Run, continue}
use luacom.ComEnumerator.{
  Called, Fetched, World, take_out, init_variants, release_variants, destroy_context, leave_context,
  convert, protected_next, fetch, requested, fetch_with_context, next,
}

-- The indices from `i` on.
unfoldable pub upto : ℕ → ℕ → List ℕ
upto i zero = []
upto i (suc n) = i ∷ upto (suc i) n

module _ {S : Type 0} where
  pub init_variants-upto :
      (i n : ℕ) (w : World S) → init_variants i n w ≡ record w { live = w.live ++ upto i n }
  unfolding init_variants upto
  init_variants-upto i zero w = rw (append-nil w.live) refl
  init_variants-upto i (suc n) w =
      init_variants-upto (suc i) n (record w { live = w.live ++ i ∷ [] })
      ∙ ap (λ l. record w { live = l }) (append_assoc w.live (i ∷ []) (upto (suc i) n))

  release_variants-upto :
      (i n : ℕ) (w : World S)
      → release_variants i n (record w { live = upto i n }) ≡ (ok tt, record w { live = [] })
  unfolding release_variants take_out upto
  release_variants-upto i zero w = refl
  release_variants-upto i (suc n) w =
      rw (release_variants, take_out, ==_refl i) (release_variants-upto (suc i) n w)

  destroy_context-upto :
      (n : ℕ) (w : World S)
      → destroy_context n (record w { live = upto 0 n })
        ≡ (ok tt, record w { live = []; arrays = w.arrays - 1 })
  unfolding destroy_context continue
  destroy_context-upto n w = rw (release_variants-upto 0 n w) refl

  pub leave_context-upto :
      {A : Type 0} (n : ℕ) (r : Result A) (w : World S)
      → r ≢ fault
      → leave_context n r (record w { live = upto 0 n })
        ≡ (r, record w { live = []; arrays = w.arrays - 1 })
  unfolding leave_context continue
  leave_context-upto n (ok a) w h = rw (destroy_context-upto n w) refl
  leave_context-upto n (throw e) w h = rw (destroy_context-upto n w) refl
  leave_context-upto n fault w h = absurd (h refl)

module _ {S V L : Type 0} (server_next : S → ℕ → Fetched V × S) (com_to_lua : V → Result L) where
  pub block_of :
      (room n : ℕ) (w : World S)
      → fetch_with_context server_next com_to_lua room n w ≡ (
          let v = init_variants 0 n (record w { arrays = w.arrays + 1 }) in
          leave_context n
            (fetch server_next com_to_lua room n v).0
            (fetch server_next com_to_lua room n v).1)
  unfolding fetch_with_context
  block_of room n w = refl

module _ {S V L : Type 0} (server_next : S → ℕ → Fetched V × S) (com_to_lua : V → Result L)
    (no_fault : (v : V) → com_to_lua v ≢ fault) where
  convert-ne-fault : (values : ℕ → V) (i n : ℕ) → convert server_next com_to_lua values i n ≢ fault
  unfolding convert
  convert-ne-fault values i zero = λ e. cc
  convert-ne-fault values i (suc n) =
      λ e. ground (arith, no_fault (values i), convert-ne-fault values (suc i) n)

  fetch-ne-fault : (room n : ℕ) (w : World S) → (fetch server_next com_to_lua room n w).0 ≢ fault
  unfolding fetch protected_next
  fetch-ne-fault room n w e = ground (
    arith,
    e,
    convert-ne-fault ((server_next w.server n).0).values 0 ((server_next w.server n).0).fetched,
  )

  fetch-state :
      (room n : ℕ) (w : World S)
      → (fetch server_next com_to_lua room n w).1 ≡ record w { server = (server_next w.server n).1 }
  unfolding fetch
  fetch-state room n w = elim (Bool-cases (ltb n ((server_next w.server n).0).fetched)) [
    | inl e ↦ rw (fetch, e) refl
    | inr e ↦ elim (Bool-cases ((server_next w.server n).0).failed) [
      | inl f ↦ rw (fetch, e, f) refl
      | inr f ↦ rw (fetch, e, f) refl
    ]
  ]

  -- Nothing of an array is left.
  abbrev Released : World S → Result (Called L) × World S → Type 0
  Released w o = (o.0 ≢ fault) × (o.1.live ≡ []) × (o.1.arrays ≡ w.arrays)

  if-Released :
      (w : World S) (b : Bool) (x y : Run (World S) (Called L))
      → Released w (x w)
      → Released w (y w)
      → Released w ((if b then x else y) w)
  if-Released w true x y h k = h
  if-Released w false x y h k = k

  fetched-Released :
      (room n : ℕ) (w : World S)
      → w.live ≡ []
      → Released w (fetch_with_context server_next com_to_lua room n w)
  fetched-Released room n w h =
      let v : World S = record w { live = upto 0 n; arrays = w.arrays + 1 } in
      let start : init_variants 0 n (record w { arrays = w.arrays + 1 }) ≡ v =
        init_variants-upto 0 n (record w { arrays = w.arrays + 1 })
        ∙ ap (λ l. record w { live = l ++ upto 0 n; arrays = w.arrays + 1 }) h in
      let o = fetch server_next com_to_lua room n v in
      let x : World S = record v { server = (server_next w.server n).1 } in
      let sound : o.0 ≢ fault = fetch-ne-fault room n v in
      rw
        (
          block_of server_next com_to_lua room n w,
          start,
          fetch-state room n v,
          leave_context-upto n (o.0) x sound,
        )
        (sound, refl, omega arith)

  some-Released :
      (stack memory : Bool) (room n : ℕ) (w : World S)
      → w.live ≡ []
      → Released w (next server_next com_to_lua stack memory room (some (some n)) w)
  unfolding next continue requested
  some-Released stack memory room n w h =
      if-Released w (n == 0) _ _ (λ e. cc, h, refl)
        (if-Released w (not stack || not memory) _ _ (λ e. cc, h, refl)
          (fetched-Released room n w h))

  -- A call of Next, whatever its parameter and the server do, and where the conversion gives a value
  -- or throws, leaves the array and each of its VARIANTs released, and releases none that is not
  -- initialised.
  pub next-released :
      (stack memory : Bool) (room : ℕ) (param : Option (Option ℕ)) (w : World S)
      → w.live ≡ []
      → let o = next server_next com_to_lua stack memory room param w in
        (o.0 ≢ fault) × (o.1.live ≡ []) × (o.1.arrays ≡ w.arrays)
  unfolding next continue requested
  next-released stack memory room none w h = some-Released stack memory room 1 w h
  next-released stack memory room (some none) w h = (λ e. cc, h, refl)
  next-released stack memory room (some (some n)) w h = some-Released stack memory room n w h
