-- ===== src/Dispatch/Calls.antt =====
-- What Invoke makes of a method call, of the write and the read of a property, and of a call that may
-- be a method call or a read.
use luacom.Prelude.{
  ℕ, ◌≡◌, ◌≢◌, refl, sym, ap, ◌∙◌, Bool, true, false, some, List, [], ◌∷◌, map, if◌then◌else◌,
  length,
}
use luacom.Prelude.Result.{Result, ok}
use luacom.Prelude.Run.{Run, continue, handle, pure}
use luacom.Com.{HResult, s_ok, disp_e_membernotfound}
use luacom.TypeDesc.{plain}
use luacom.DispParams.{Conversions, Arg, value, DispParams, fill_disp_params}
use luacom.DispParams.RoundTrip.{AllCarried, push_lua_args-fill_disp_params}
use luacom.Dispatch.{FuncInfo}
use luacom.Dispatch.Session.{returned, Lua, Message, Session, Request, find_member}
use luacom.Dispatch.Invoke.{
  or_nil, property_get, after_call, store_results, store_outs, call_method, dispatch_flags, invoke,
  is_s_ok,
}

-- A request with some arguments, whose result is wanted.
abbrev pub asking : {V : Type 0} → ℕ → ℕ → List (Arg V) → Bool → Request V
asking memid flags args wants_info = record {
  memid = memid;
  null_iid = true;
  flags = flags;
  params = record { args = args; named = [] };
  wants_info = wants_info;
  wants_result = true;
}

module _ {W V L : Type 0} (lua : Lua W L) (c : Conversions V L)
    (make_text : Message → Result (Unit {0}))
    (set_out_values : FuncInfo V → DispParams V → List L → W → Result (Unit {0}) × W)
    (table : L) where
  map-or_nil : (ls : List L) → map (or_nil lua c make_text set_out_values table) (map some ls) ≡ ls
  map-or_nil [] = refl
  map-or_nil (l ∷ ls) = ap (λ k. l ∷ k) (map-or_nil ls)

  -- Let a Lua program call a method of an object that a Lua table implements, with values that the
  -- method's parameters, of a fixed number that is not 0, carry. Then the arguments are made, and
  -- Invoke calls the function of the table that has the method's name, with the table and these
  -- values in their order; if it returns one value, and the caller wants it, that value is the
  -- result, converted, and Invoke succeeds.
  pub invoke-fill_disp_params :
      (funcs : List (FuncInfo V)) (f : FuncInfo V) (memid : ℕ) (ls : List L) (wants_info : Bool)
      (s : Session W V) (m l : L) (w w' : W) (v : V)
      → AllCarried c f.desc.params ls
      → length f.desc.params ≢ 0
      → f.desc.vararg ≡ false
      → find_member memid 1 funcs ≡ some f
      → f.is_void ≡ false
      → lua.get table (lua.name f.name) s.world ≡ (returned (m ∷ []), w)
      → lua.is_function m ≡ true
      → lua.call m (table ∷ ls) w ≡ (returned (l ∷ []), w')
      → c.from_lua l (plain f.result) ≡ ok v
      → (d : DispParams V) × (fill_disp_params c (some f.desc) (map some ls) false ≡ ok d)
        × (invoke lua c make_text set_out_values table funcs
              (record {
                memid = memid;
                null_iid = true;
                flags = 1;
                params = d;
                wants_info = wants_info;
                wants_result = true;
              })
              s
            ≡ (ok s_ok, record s { world = w'; retval = some (value v) }))
  unfolding invoke dispatch_flags call_method after_call store_results store_outs continue handle
  invoke-fill_disp_params funcs f memid ls wants_info s m l w w' v carried some_params fixed found
        not_void got is_fun called converted =
      let (d, e, p) = push_lua_args-fill_disp_params c f.desc.params ls carried some_params in
      (
        d,
        ap
              (λ (b : Bool).
                fill_disp_params c (some (record f.desc { vararg = b })) (map some ls) false)
              fixed
            ∙ e,
        rw (found, got, is_fun, p, map-or_nil ls, called, not_void, converted) refl,
      )

  succeeded :
      (o : Result HResult × Session W V) (other : Run (Session W V) HResult)
      → o.0 ≡ ok s_ok
      → continue o.0 o.1
          (λ r. if is_s_ok lua c make_text set_out_values table r then pure s_ok else other)
        ≡ o
  unfolding continue
  succeeded o other e =
      ap
        (λ r.
          continue r o.1
            (λ r. if is_s_ok lua c make_text set_out_values table r then pure s_ok else other))
        e
      ∙ ap (λ r. (r, o.1)) (sym e)

  call_method-refused :
      (f : FuncInfo V) (q : Request V) (s : Session W V) (m : L)
      → lua.get table (lua.name f.name) s.world ≡ (returned (m ∷ []), s.world)
      → lua.is_function m ≡ false
      → call_method lua c make_text set_out_values table f q s ≡ (ok disp_e_membernotfound, s)
  unfolding call_method continue
  call_method-refused f q s m got h = rw (got, h) refl

  refused :
      (o : Result HResult × Session W V) (other : Run (Session W V) HResult) (s : Session W V)
      → o ≡ (ok disp_e_membernotfound, s)
      → continue o.0 o.1
          (λ r. if is_s_ok lua c make_text set_out_values table r then pure s_ok else other)
        ≡ other s
  unfolding continue
  refused o other s e = rw e refl

  -- A call that may be a method call or the read of a property is what the method call is where
  -- that succeeds, and what the read is where the member is no function, if reading the member
  -- leaves Lua as it was.
  pub dispatch_flags-either :
      (f : FuncInfo V) (q : Request V) (s : Session W V) (m : L)
      → q.flags ≡ 3
      → ((call_method lua c make_text set_out_values table f q s).0 ≡ ok s_ok
          → dispatch_flags lua c make_text set_out_values table f q s
            ≡ call_method lua c make_text set_out_values table f q s)
        × (lua.get table (lua.name f.name) s.world ≡ (returned (m ∷ []), s.world)
            → lua.is_function m ≡ false
            → dispatch_flags lua c make_text set_out_values table f q s
              ≡ property_get lua c make_text set_out_values table f q s)
  unfolding dispatch_flags
  dispatch_flags-either f q s m flags = (
    λ e.
        rw (flags, dispatch_flags)
          (succeeded (call_method lua c make_text set_out_values table f q s)
            (property_get lua c make_text set_out_values table f q) e),
    λ got h.
        rw (flags, dispatch_flags)
          (refused (call_method lua c make_text set_out_values table f q s)
            (property_get lua c make_text set_out_values table f q) s
            (call_method-refused f q s m got h)),
  )
