-- ===== src/Dispatch/Invoke.antt =====
-- Invoke of tLuaDispatch (src/library/tLuaDispatch.cpp) and its helpers: property reads, property
-- writes and method calls on the table.
use luacom.Prelude.{
  Bool, true, false, not, ◌&&◌, ◌||◌, Option, none, some, List, [], ◌∷◌, ◌==◌, ltb, if◌then◌else◌,
  length, map, reverse,
}
use luacom.Prelude.Result.{Result, ok, throw, fault, com_exception, is_luacom_exception}
use luacom.Prelude.Run.{Run, ◌>>=◌, ◌>>◌, pure, lift, modify, when, catch}
use luacom.Com.{
  HResult, s_ok, e_invalidarg, disp_e_unknowninterface, disp_e_membernotfound, disp_e_exception,
}
use luacom.Variant.{vt_variant}
use luacom.TypeDesc.{plain}
use luacom.DispParams.{
  Conversions, Arg, value, reference, blank, DispParams, held, to_by_ref, push_lua_args,
}
use luacom.Dispatch.{FuncInfo}
use luacom.Dispatch.Session.{
  Called, returned, failed, Lua, Message, no_putref, no_parametrized_put, too_many_parameters,
  lua_text, lua_error, thrown, described, undescribed, Session, Request, find_member, nth_arg,
  map_result,
}

-- `table` is the implementation. `make_text` is string2bstr for the source and the description;
-- `set_out_values` is the method of that name of the type handler.
module _ {W V L : Type 0} (lua : Lua W L) (c : Conversions V L)
    (make_text : Message → Result (Unit {0}))
    (set_out_values : FuncInfo V → DispParams V → List L → W → Result (Unit {0}) × W)
    (table : L) where
  abbrev pub on_world : {A : Type 0} → (W → A × W) → Run (Session W V) A
  on_world f s = let (a, w) = f s.world in (ok a, record s { world = w })

  abbrev pub get_member : L → L → Run (Session W V) L
  get_member t k = on_world (lua.get t k) >>= λ r. elim r [
    | failed e ↦ lift (throw com_exception)
    | returned [] ↦ pure lua.nil
    | returned (l ∷ ls) ↦ pure l
  ]

  abbrev pub set_member : L → L → L → Run (Session W V) (Unit {0})
  set_member t k l = on_world (lua.set t k l) >>= λ r. elim r [
    | failed e ↦ lift (throw com_exception)
    | returned ls ↦ pure tt
  ]

  -- com2lua of an argument.
  abbrev pub arg_to_lua : Arg V → Result L
  arg_to_lua a = c.out_to_lua (held c a)

  -- The loop `while(i--)` that pushes the arguments.
  abbrev pub plain_args : DispParams V → Result (List L)
  plain_args d = map_result arg_to_lua (reverse d.args)

  unfoldable pub describe : Message → Result (Unit {0}) → Run (Session W V) (Unit {0})
  describe m (ok t) = modify (λ s. record s { info = some (described m) })
  describe m (throw e) =
      if is_luacom_exception e
      then modify (λ s. record s { info = some (undescribed e) })
      else lift (throw e)
  describe m fault = lift fault

  unfoldable pub fill_exception_info : Bool → Message → Run (Session W V) (Unit {0})
  unfolding describe
  fill_exception_info given m = when given (describe m (make_text m))

  abbrev pub raise : Request V → Message → Run (Session W V) HResult
  raise q m = fill_exception_info q.wants_info m >> pure disp_e_exception

  abbrev pub write_result : Arg V → Run (Session W V) (Unit {0})
  write_result a = modify (λ s. record s { retval = some a })

  -- setRetval
  unfoldable pub set_retval : FuncInfo V → L → Run (Session W V) (Unit {0})
  unfolding to_by_ref
  set_retval f l = when (not f.is_void) (do
    v ← lift (c.from_lua l (plain f.result))
    write_result (value c.empty)
    lift (c.allocate (plain vt_variant))
    write_result (blank (plain vt_variant))
    w ← lift (to_by_ref c (plain vt_variant) v)
    write_result (reference (plain vt_variant) w))

  -- The part of propertyget after a function was called, if it had to be.
  unfoldable pub read_member : FuncInfo V → Request V → L → Run (Session W V) HResult
  unfolding set_retval
  read_member f q member = do
    l ←
        (if not (length q.params.args == 0) && lua.is_table member
          then (lift (nth_arg q.params 0) >>= λ a. lift (arg_to_lua a) >>= λ k. get_member member k)
          else pure member)
    when q.wants_result (set_retval f l)
    pure s_ok

  -- A failed call has popped the function: where it has no text, which counts as no error, the
  -- member is read where nothing stands.
  unfoldable pub after_read : FuncInfo V → Request V → Called L → Run (Session W V) HResult
  unfolding read_member
  after_read f q (failed (some e)) = raise q (lua_text e)
  after_read f q (failed none) = read_member f q lua.missing
  after_read f q (returned []) = read_member f q lua.nil
  after_read f q (returned (l ∷ rest)) = read_member f q l

  unfoldable pub property_get : FuncInfo V → Request V → Run (Session W V) HResult
  unfolding read_member after_read
  property_get f q = get_member table (lua.name f.name) >>= λ m.
      if lua.is_nil m
      then pure disp_e_membernotfound
      else if lua.is_function m
      then (lift (plain_args q.params) >>= λ ls.
          on_world (lua.call m (table ∷ ls)) >>= after_read f q)
      else read_member f q m

  -- Here too an error without a text counts as none.
  unfoldable pub after_write : Request V → Called L → Run (Session W V) HResult
  after_write q (failed (some e)) = raise q (lua_text e)
  after_write q (failed none) = pure s_ok
  after_write q (returned ls) = pure s_ok

  unfoldable pub property_put : FuncInfo V → Request V → Run (Session W V) HResult
  unfolding after_write
  property_put f q = get_member table (lua.name f.name) >>= λ m.
      if lua.is_function m
      then (lift (plain_args q.params) >>= λ ls.
          on_world (lua.call m (table ∷ ls)) >>= after_write q)
      else if length q.params.args == 1
      then (lift (nth_arg q.params 0) >>= λ a.
          lift (arg_to_lua a) >>= λ l. set_member table (lua.name f.name) l >> pure s_ok)
      else if length q.params.args == 2
      then (if lua.is_table m || lua.is_userdata m
          then (lift (nth_arg q.params 0) >>= λ a. lift (arg_to_lua a) >>= λ k.
              lift (nth_arg q.params 1) >>= λ b.
              lift (arg_to_lua b) >>= λ l. set_member m k l >> pure s_ok)
          else raise q no_parametrized_put)
      else raise q too_many_parameters

  -- The values that a parameter is pushed as; `none` is nil.
  abbrev pub or_nil : Option L → L
  or_nil none = lua.nil
  or_nil (some l) = l

  -- What a method's return values become: the first one the result, if one is wanted, and the rest
  -- the output arguments.
  unfoldable pub store_outs : FuncInfo V → Request V → List L → Run (Session W V) HResult
  store_outs f q [] = pure s_ok
  store_outs f q (l ∷ ls) =
      (λ s. let (r, w) = set_out_values f q.params (l ∷ ls) s.world in (r, record s { world = w }))
      >> pure s_ok

  unfoldable pub store_results : FuncInfo V → Request V → List L → Run (Session W V) HResult
  unfolding store_outs
  store_results f q [] = pure s_ok
  store_results f q (l ∷ ls) =
      if q.wants_result && not f.is_void
      then (lift (c.from_lua l (plain f.result)) >>= λ v.
          write_result (value v) >> store_outs f q ls)
      else store_outs f q (l ∷ ls)

  unfoldable pub after_call : FuncInfo V → Request V → Called L → Run (Session W V) HResult
  unfolding store_results
  after_call f q (failed e) = raise q (lua_error e)
  after_call f q (returned ls) = store_results f q ls

  unfoldable pub call_method : FuncInfo V → Request V → Run (Session W V) HResult
  unfolding after_call push_lua_args
  call_method f q = get_member table (lua.name f.name) >>= λ m.
      if not (lua.is_function m)
      then pure disp_e_membernotfound
      else (lift (push_lua_args c q.params f.desc.params) >>= λ ls.
          on_world (lua.call m (table ∷ map or_nil ls)) >>= after_call f q)

  abbrev pub is_s_ok : HResult → Bool
  is_s_ok s_ok = true
  is_s_ok _ = false

  -- The switch over wFlags.
  unfoldable pub dispatch_flags : FuncInfo V → Request V → Run (Session W V) HResult
  unfolding call_method property_get property_put fill_exception_info
  dispatch_flags f q =
      if q.flags == 1
      then call_method f q
      else if q.flags == 3
      then (call_method f q >>= λ r. if is_s_ok r then pure s_ok else property_get f q)
      else if q.flags == 2
      then property_get f q
      else if q.flags == 4
      then property_put f q
      else if q.flags == 8
      then raise q no_putref
      else pure disp_e_membernotfound

  unfoldable pub invoke : List (FuncInfo V) → Request V → Run (Session W V) HResult
  unfolding find_member dispatch_flags
  invoke funcs q =
      if ltb 15 q.flags
      then pure e_invalidarg
      else if not q.null_iid
      then pure disp_e_unknowninterface
      else elim (find_member q.memid q.flags funcs) [
        | none ↦ pure disp_e_membernotfound
        | some f ↦
            catch (dispatch_flags f q)
              (λ e. if is_luacom_exception e then raise q (thrown e) else lift (throw e))
      ]
