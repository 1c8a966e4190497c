-- ===== src/ProxyCall/Loop.antt =====
-- A call from Lua, through the proxy (src/library/tLuaCOM.cpp), to an object that a Lua table
-- implements (src/library/tLuaDispatch.cpp), and back.
use luacom.Prelude.{
  ℕ, ◌≡◌, ◌≢◌, refl, sym, ap, ◌∙◌, Bool, true, false, none, some, List, [], ◌∷◌, map, length,
}
use luacom.Prelude.Result.{Result, ok, throw, fault}
use luacom.Com.{HResult, s_ok, disp_e_exception}
use luacom.TypeDesc.{plain}
use luacom.DispParams.{Conversions, value, DispParams, fill_disp_params, push_out_values}
use luacom.DispParams.RoundTrip.{AllCarried, push_out_values-AllCarried}
use luacom.Dispatch.{FuncInfo}
use luacom.Dispatch.Session.{returned, Lua, Message, Session, find_member}
use luacom.Dispatch.Invoke.{invoke}
use luacom.Dispatch.Calls.{invoke-fill_disp_params}
use luacom.ProxyCall.{
  Answer, succeeded, excepted, refused, values, return_values, answered, filled, call_with_dispatch,
}

module _ {W V L : Type 0} (lua : Lua W L) (c : Conversions V L)
    (make_text : Message → Result (Unit {0}))
    (set_out_values : FuncInfo V → DispParams V → List L → W → Result (Unit {0}) × W)
    (table : L) where
  -- What the caller of Invoke sees, with no output arguments.
  abbrev pub answer_of : Result HResult → Session W V → DispParams V → Answer V
  answer_of (ok s_ok) s d = succeeded (elim s.retval [ none ↦ value c.empty | some a ↦ a ]) d
  answer_of (ok disp_e_exception) s d =
      excepted (record { deferred = none; described = true; code = 1000; scode = 0 })
  answer_of (ok _) s d = refused
  answer_of (throw e) s d = refused
  answer_of fault s d = refused

  -- A server that is asked to call the method with a number.
  abbrev pub serve : List (FuncInfo V) → ℕ → DispParams V → W → Answer V × W
  serve funcs memid d w =
      let (r, s) =
        invoke lua c make_text set_out_values table funcs
          (record {
            memid = memid;
            null_iid = true;
            flags = 1;
            params = d;
            wants_info = true;
            wants_result = true;
          })
          (record { world = w; info = none; retval = none }) in
      (answer_of r s d, s.world)

  -- Let a Lua program call a method of an object that a Lua table implements, with values that the
  -- method's parameters, of a fixed number that is not 0, carry, and let the table's function of
  -- that name return one value, whose conversion to COM converts back. Then the program gets that
  -- value back, and nothing else happens than the look-up of the function and its call with the
  -- table and these values.
  pub call_with_dispatch-serve :
      (funcs : List (FuncInfo V)) (f : FuncInfo V) (memid : ℕ) (ls : List L) (m l : L) (w u w' : W)
      (v : V)
      → AllCarried c f.desc.params ls
      → length f.desc.params ≢ 0
      → f.desc.vararg ≡ false
      → find_member memid 1 funcs ≡ some f
      → f.is_void ≡ false
      → lua.get table (lua.name f.name) w ≡ (returned (m ∷ []), u)
      → lua.is_function m ≡ true
      → lua.call m (table ∷ ls) u ≡ (returned (l ∷ []), w')
      → c.from_lua l (plain f.result) ≡ ok v
      → c.out_to_lua v ≡ ok l
      → call_with_dispatch c (serve funcs memid) (some f.desc) true true false (map some ls) w
        ≡ (values (l ∷ []), w')
  unfolding call_with_dispatch filled answered return_values
  call_with_dispatch-serve funcs f memid ls m l w u w' v carried some_params fixed found not_void
        got is_fun called converted back =
      let (d, e, p) =
        invoke-fill_disp_params lua c make_text set_out_values table funcs f memid ls true
          (record { world = w; info = none; retval = none }) m l u w' v carried some_params fixed
          found not_void got is_fun called converted in
      let same = λ (b : Bool). record f.desc { vararg = b } in
      let e' =
        sym (ap (λ (b : Bool). fill_disp_params c (some (same b)) (map some ls) false) fixed) ∙ e in
      let o =
        ap (λ (b : Bool). push_out_values c d (some (same b))) fixed
        ∙ push_out_values-AllCarried c f.desc.params ls d carried some_params e' in
      let served : serve funcs memid d w ≡ (succeeded (value v) d, w') =
        ap (λ (z : Result HResult × Session W V). (answer_of z.0 z.1 d, z.1.world)) p in
      rw e (
        ap (λ (z : Answer V × W). (answered c (serve funcs memid) (some f.desc) true true z.0, z.1))
          served
        ∙ rw (back, o) refl)
