-- ===== src/Dispatch/Answers.antt =====
-- What Invoke answers, whatever Lua and the conversions do.
use luacom.Prelude.{◌≡◌, ◌≢◌, true, none, List}
use luacom.Prelude.Result.{Error, Result, ok, throw, std_exception}
use luacom.Prelude.Run.{Run}
use luacom.Com.{HResult, disp_e_exception}
use luacom.DispParams.{Conversions, DispParams}
use luacom.Dispatch.{FuncInfo}
use luacom.Dispatch.Session.{Lua, Message, Session, Request}

module _ {W V : Type 0} (q : Request V) where
  -- An answer that speaks of an exception comes with a description of it, if one is wanted.
  pub record Informs (m : Run (Session W V) HResult) : Type 0 where
    pub informs :
        (s : Session W V)
        → (m s).0 ≡ ok disp_e_exception
        → q.wants_info ≡ true
        → (m s).1.info ≢ none

module _ {W V L : Type 0} (lua : Lua W L) (c : Conversions V L)
    (make_text : Message → Result (Unit {0}))
    (set_out_values : FuncInfo V → DispParams V → List L → W → Result (Unit {0}) × W)
    (table : L) where
  -- No exception but one that is no tLuaCOMException, and an answer that speaks of one comes with its
  -- description.
  abbrev pub Settled : Request V → Result HResult × Session W V → Type 0
  Settled q o =
      ((e : Error) → o.0 ≡ throw e → e ≡ std_exception)
      × (o.0 ≡ ok disp_e_exception → q.wants_info ≡ true → o.1.info ≢ none)
