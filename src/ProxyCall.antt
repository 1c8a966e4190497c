-- ===== src/ProxyCall.antt =====
-- A call of a COM object from Lua (src/library/tLuaCOM.cpp): callWithDispatch, with what
-- protectedCall catches.
pub mod Loop
use luacom.Prelude.{
  ℕ, Bool, true, false, Option, none, some, List, [], ◌∷◌, ◌++◌, ◌==◌, not, if◌then◌else◌,
}
use luacom.Prelude.Result.{Error, Result, ok, throw, fault, ◌>>=◌}
use luacom.DispParams.{
  Conversions, FuncDesc, Arg, DispParams, held, fill_disp_params, push_out_values,
}

-- What is read of EXCEPINFO: whether pfnDeferredFillIn is given, and then whether it succeeds,
-- whether there is a description, wCode and scode.
pub record Excepted : Type 0 where
  pub deferred : Option Bool
  pub described : Bool
  pub code : ℕ
  pub scode : ℕ

-- What IDispatch::Invoke answers: a result, with the arguments as they are then, or
-- DISP_E_EXCEPTION, or another failure.
pub data Answer (V : Type 0) : Type 0 where
  succeeded : Arg V → DispParams V → Answer V
  excepted : Excepted → Answer V
  refused : Answer V

-- The text of a tLuaCOMException.
pub data Text : Type 0 where
  description unknown_exception result_text : Text
  code_text : ℕ → Text

-- What the caller in Lua gets: values, or the exception of one of the conversions, or one that the
-- call's answer makes.
pub data Reply (L : Type 0) : Type 0 where
  values : List L → Reply L
  conversion : Error → Reply L
  com_error com_exception : Text → Reply L
  undefined : Reply L

abbrev pub reply : {L : Type 0} → Result (List L) → Reply L
reply (ok ls) = values ls
reply (throw e) = conversion e
reply fault = undefined

unfoldable pub exception_text : Excepted → Text
exception_text e =
    if e.described
    then description
    else if not (e.code == 0)
    then code_text e.code
    else if not (e.scode == 0)
    then code_text e.scode
    else unknown_exception

unfoldable pub raise_excepted : {L : Type 0} → Excepted → Reply L
unfolding exception_text
raise_excepted e = elim e.deferred [
  | none ↦ com_exception (exception_text e)
  | some b ↦ if b then com_exception (exception_text e) else com_error result_text
]

module _ {W V L : Type 0} (c : Conversions V L) (invoke : DispParams V → W → Answer V × W) where
  -- The return values: `returns` says whether the function has a result, or nothing is known of
  -- it, and `is_call` whether it is called as a method.
  unfoldable pub return_values :
      Option (FuncDesc V) → Bool → Bool → Arg V → DispParams V → Result (List L)
  unfolding push_out_values
  return_values f returns is_call result d =
      (if returns then (c.out_to_lua (held c result) >>= λ l. ok (l ∷ [])) else ok []) >>= λ first.
      (if is_call then push_out_values c d f else ok []) >>= λ outs. ok (first ++ outs)

  unfoldable pub answered : Option (FuncDesc V) → Bool → Bool → Answer V → Reply L
  unfolding return_values raise_excepted
  answered f returns is_call (succeeded result d) = reply (return_values f returns is_call result d)
  answered f returns is_call (excepted e) = raise_excepted e
  answered f returns is_call refused = com_error result_text

  unfoldable pub filled :
      Option (FuncDesc V) → Bool → Bool → Result (DispParams V) → W → Reply L × W
  unfolding answered
  filled f returns is_call (throw e) w = (conversion e, w)
  filled f returns is_call fault w = (undefined, w)
  filled f returns is_call (ok d) w = let (a, v) = invoke d w in (answered f returns is_call a, v)

  -- callWithDispatch; `put` says whether a property is set.
  unfoldable pub call_with_dispatch :
      Option (FuncDesc V) → Bool → Bool → Bool → List (Option L) → W → Reply L × W
  unfolding filled
  call_with_dispatch f returns is_call put ls w =
      filled f returns is_call (fill_disp_params c f ls put) w
