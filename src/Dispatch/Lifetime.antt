-- ===== src/Dispatch/Lifetime.antt =====
-- What a tLuaDispatch holds from its construction to its last Release.
use luacom.Prelude.{
  ℕ, suc, ◌+◌, ◌-◌, ◌≡◌, ◌≢◌, refl, subst, ap, ◌∙◌, Bool, true, false, not, List, [], ◌∷◌, ◌++◌,
  reverse, arith, ==_refl, if◌then◌else◌,
}
use mathlib.Core.List.{reverse-cons}
use luacom.Prelude.Result.{ok_eq, Error, Result, ok, throw, fault, internal_error, malloc_error}
use luacom.Prelude.Run.{Run, continue, ◌>>◌, lift, when}
use luacom.Dispatch.{FuncInfo}
use luacom.Dispatch.Object.{
  Held, without, FuncAnswer, Building, Answers, holding, take_desc, take_string, free_string,
  release_desc, load_function, load_functions, release_functions, give_up, Server, built, construct,
}
use luacom.Dispatch.Interfaces.{destroy}

abbrev pub plus_if : Bool → ℕ → ℕ
plus_if true n = n + 1
plus_if false n = n

add_sub : (n : ℕ) → n + 1 - 1 ≡ n
add_sub n = omega arith

module _ {V : Type 0} where
  abbrev pub with_function : FuncInfo V → Held → Held
  with_function f h = record h { func_descs = f.index ∷ h.func_descs; names = h.names + 1 }

  -- What is held for functions, beside the rest; the last function comes first.
  abbrev pub with_functions : List (FuncInfo V) → Held → Held
  with_functions [] h = h
  with_functions (f ∷ fs) h = with_functions fs (with_function f h)

  -- Outcomes after which the functions, and nothing else, are held beside `h`.
  abbrev Kept : Held → Result (Unit {0}) × Building V → Type 0
  Kept h o = (o.1.held ≡ with_functions o.1.funcs h) × (o.0 ≢ fault)

  if-Kept :
      (h : Held) (b : Bool) (m n : Run (Building V) (Unit {0})) (s : Building V)
      → Kept h (m s)
      → Kept h (n s)
      → Kept h ((if b then m else n) s)
  if-Kept h true m n s k l = k
  if-Kept h false m n s k l = l

  with_functions-append :
      (fs : List (FuncInfo V)) (f : FuncInfo V) (h : Held)
      → with_function f (with_functions fs h) ≡ with_functions (fs ++ f ∷ []) h
  with_functions-append [] f h = refl
  with_functions-append (g ∷ fs) f h = with_functions-append fs f (with_function g h)

  unnamed-Kept :
      (h : Held) (i : ℕ) (stray : Bool) (b : Building V)
      → b.held ≡ with_functions b.funcs h
      → let m : Run (Building V) (Unit {0}) =
          when stray (holding take_string >> holding free_string)
          >> holding (release_desc i)
          >> lift (throw internal_error) in
        Kept h ((holding (take_desc i) >> m) b)
  unfolding release_desc without continue
  unnamed-Kept h i true b e = (rw (==_refl i, add_sub b.held.strings) e, λ f. cc)
  unnamed-Kept h i false b e = (rw (==_refl i) e, λ f. cc)

  load_function-Kept :
      (h : Held) (i : ℕ) (a : FuncAnswer V) (b : Building V)
      → b.held ≡ with_functions b.funcs h
      → Kept h (load_function i a b)
  unfolding load_function release_desc without continue
  load_function-Kept h i a b e =
      if-Kept h (not a.described) _ _ b (e, λ f. cc)
        (if-Kept h a.restricted _ _ _ (rw (==_refl i) e, λ f. cc)
          (if-Kept h (not a.named) _ _ _ (unnamed-Kept h i a.stray_text b e) (
            if-Kept h (not a.sized) _ _ _ (rw (==_refl i, add_sub b.held.strings) e, λ f. cc)
              (if-Kept h (not a.allocated) _ _ _ (rw (==_refl i, add_sub b.held.strings) e, λ f. cc)
                (if-Kept h (not a.converted) _ _ _
                  (rw (==_refl i, add_sub b.held.strings, add_sub b.held.names) e, λ f. cc)
                  (
                    rw (add_sub b.held.strings) (
                        ap (with_function (record a.info { index = i })) e
                        ∙ with_functions-append b.funcs (record a.info { index = i }) h),
                    λ f. cc,
                  ))))))

  continue-Kept :
      (h : Held) (r : Result (Unit {0})) (t : Building V) (next : Run (Building V) (Unit {0}))
      → Kept h (r, t)
      → ((b : Building V) → b.held ≡ with_functions b.funcs h → Kept h (next b))
      → Kept h (continue r t (λ _. next))
  unfolding continue
  continue-Kept h (ok u) t next k f = f t k.0
  continue-Kept h (throw d) t next k f = k
  continue-Kept h fault t next k f = k

  load_functions-Kept :
      (h : Held) (i : ℕ) (as' : List (FuncAnswer V)) (b : Building V)
      → b.held ≡ with_functions b.funcs h
      → Kept h (load_functions i as' b)
  unfolding load_functions continue
  load_functions-Kept h i [] b e = (e, λ f. cc)
  load_functions-Kept h i (a ∷ as') b e =
      continue-Kept h (load_function i a b).0 (load_function i a b).1 _
        (load_function-Kept h i a b e) (load_functions-Kept h (suc i) as')

  release_functions-append :
      (fs gs : List (FuncInfo V)) (h : Held)
      → release_functions (fs ++ gs) h ≡ release_functions gs (release_functions fs h)
  unfolding release_functions
  release_functions-append [] gs h = refl
  release_functions-append (f ∷ fs) gs h = release_functions-append fs gs _

  release_functions-reverse :
      (fs : List (FuncInfo V)) (h : Held) → release_functions (reverse fs) (with_functions fs h) ≡ h
  unfolding release_functions release_desc without
  release_functions-reverse [] h = refl
  release_functions-reverse (f ∷ fs) h =
      rw
        (
          reverse-cons,
          release_functions-append (reverse fs) (f ∷ []) (with_functions fs (with_function f h)),
          release_functions-reverse fs (with_function f h),
          ==_refl f.index,
          add_sub h.names,
          release_functions,
        )
        refl

-- What an object holds beside the rest.
abbrev pub owned : {V : Type 0} → Server V → Held → Held
owned s h = with_functions s.funcs (record h {
  type_infos = h.type_infos + 1;
  arrays = h.arrays + 1;
  handlers = h.handlers + 1;
  table_locks = h.table_locks + 1;
  coclass_infos = plus_if s.has_class_info h.coclass_infos;
  containers = plus_if s.has_container h.containers;
})

plus_if-minus : (b : Bool) (n : ℕ) → (if b then plus_if b n - 1 else plus_if b n) ≡ n
plus_if-minus true n = omega arith
plus_if-minus false n = refl

module _ {V : Type 0} where
  pub destroy-owned : (s : Server V) (h : Held) → destroy s (owned s h) ≡ h
  unfolding destroy
  destroy-owned s h =
      rw
        (
          release_functions-reverse s.funcs,
          add_sub h.type_infos,
          add_sub h.arrays,
          add_sub h.handlers,
          add_sub h.table_locks,
          plus_if-minus s.has_class_info h.coclass_infos,
          plus_if-minus s.has_container h.containers,
        )
        refl

  -- An outcome of the constructor that holds what it should.
  abbrev pub Balanced : Held → Result (Server V) × Held → Type 0
  Balanced h o =
      ((e : Error) → o.0 ≡ throw e → o.1 ≡ h)
      × ((s : Server V) → o.0 ≡ ok s → (o.1 ≡ owned s h) × (s.refs ≡ 0))
      × (o.0 ≢ fault)

  if-Balanced :
      (h : Held) (b : Bool) (x y : Result (Server V) × Held)
      → Balanced h x
      → Balanced h y
      → Balanced h (if b then x else y)
  if-Balanced h true x y k l = k
  if-Balanced h false x y k l = l

  thrown-Balanced : (h : Held) (e : Error) (g : Held) → g ≡ h → Balanced h (throw e, g)
  thrown-Balanced h e g k = (λ d i. k, λ s i. absurd cc, λ i. absurd cc)

  built-Balanced :
      (h : Held) (r : Result (Unit {0})) (b : Building V)
      → Kept
          (record h {
            type_infos = h.type_infos + 1;
            arrays = h.arrays + 1;
            handlers = h.handlers + 1;
            table_locks = h.table_locks + 1;
          })
          (r, b)
      → Balanced h (built r b)
  unfolding built give_up
  built-Balanced h (ok t) b k = (
    λ e i. absurd cc,
    λ s i. subst (λ (z : Server V). (b.held ≡ owned z h) × (z.refs ≡ 0)) (ok_eq i) (k.0, refl),
    λ i. absurd cc,
  )
  built-Balanced h (throw e) b k = thrown-Balanced h e _ (
      rw
        (
          k.0,
          release_functions-reverse b.funcs,
          add_sub h.type_infos,
          add_sub h.arrays,
          add_sub h.handlers,
          add_sub h.table_locks,
        )
        refl)
  built-Balanced h fault b k = absurd (k.1 refl)

  -- The constructor, whatever the system answers at any point, either throws, and then it holds
  -- nothing more than before, or makes an object without references, and then it holds what this
  -- object owns and nothing more.
  pub construct-Balanced : (a : Answers V) (h : Held) → Balanced h (construct a h)
  unfolding construct give_up release_functions
  construct-Balanced a h =
      if-Balanced h (not a.handler) _ _
        (thrown-Balanced h malloc_error _ (rw (add_sub h.type_infos, add_sub h.table_locks) refl))
        (if-Balanced h (not a.attributes) _ _
          (thrown-Balanced h internal_error _
            (rw (add_sub h.type_infos, add_sub h.table_locks, add_sub h.handlers) refl))
          (if-Balanced h (not a.array) _ _
            (thrown-Balanced h malloc_error _
              (rw (add_sub h.type_infos, add_sub h.table_locks, add_sub h.handlers) refl))
            (built-Balanced h _ _ (load_functions-Kept _ 0 a.functions _ refl))))
