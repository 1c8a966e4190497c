-- ===== src/Examples/Servers.antt =====
-- A Lua table as a COM object (src/library/tLuaDispatch.cpp).
use luacom.Prelude.{ℕ, suc, ◌≡◌, refl, true, false, some, none, List, [], ◌∷◌, ◌==◌, arith}
use luacom.Prelude.Result.{Result, ok}
use luacom.Prelude.Run.{continue}
use luacom.Com.{s_ok}
use luacom.Variant.{vt_i4}
use luacom.DispParams.{value, DispParams, fill_disp_params}
use luacom.Dispatch.{FuncInfo, invoke_func, invoke_propertyget, invoke_propertyput}
use luacom.Dispatch.Session.{returned, failed, Lua, Message, Session, Request, find_member}
use luacom.Dispatch.Invoke.{invoke}
use luacom.Dispatch.Calls.{invoke-fill_disp_params}
use luacom.Dispatch.Object.{
  Held, FuncAnswer, Answers, Server, construct, created, load_functions, load_function,
  release_desc, built,
}
use luacom.Dispatch.Interfaces.{iunknown, query_interface, release, has_interface, add_ref}
use luacom.Dispatch.Lifetime.{Balanced, construct-Balanced}
use luacom.Dispatch.Reached.{Reached, begun, queried, released, Reached-release}
use luacom.ProxyCall.{values, call_with_dispatch}
use luacom.ProxyCall.Loop.{serve, call_with_dispatch-serve}
use luacom.Examples.Calls.{shifted, in_param, two_carried}

-- The table is 100, its one member the function 50, and the world counts the calls.
abbrev lua : Lua ℕ ℕ
lua = record {
  nil = 0;
  missing = 1;
  is_nil = λ l. l == 0;
  is_function = λ l. l == 50;
  is_table = λ l. l == 100;
  is_userdata = λ l. false;
  name = λ n. n;
  get = λ t k w. (returned (50 ∷ []), w);
  set = λ t k l w. (returned [], w);
  call = λ f ls w. (returned (7 ∷ []), suc w);
}

-- The same with a function that fails without a text, and with a member that is no function.
abbrev failing : Lua ℕ ℕ
failing = record lua { call = λ f ls w. (failed none, suc w) }

abbrev holding_value : Lua ℕ ℕ
holding_value = record lua { is_function = λ l. false }

abbrev make_text : Message → Result (Unit {0})
make_text m = ok tt

abbrev set_out_values : FuncInfo ℕ → DispParams ℕ → List ℕ → ℕ → Result (Unit {0}) × ℕ
set_out_values f d ls w = (ok tt, w)

abbrev function : FuncInfo ℕ
function = record {
  index = 0;
  memid = 1;
  invkind = invoke_func;
  name = 5;
  is_void = false;
  result = vt_i4;
  desc = record { params = in_param ∷ in_param ∷ []; vararg = false };
}

abbrev start : Session ℕ ℕ
start = record { world = 0; info = none; retval = none }

abbrev request : ℕ → Request ℕ
request flags = record {
  memid = 1;
  null_iid = true;
  flags = flags;
  params = record { args = value 11 ∷ []; named = [] };
  wants_info = true;
  wants_result = true;
}

invoke-fill_disp_params_example :
    (d : DispParams ℕ) × (fill_disp_params shifted
        (some function.desc)
        (some 10 ∷ some 20 ∷ [])
        false
      ≡ ok d)
    × (invoke lua shifted make_text set_out_values 100
          (function ∷ [])
          (record {
            memid = 1;
            null_iid = true;
            flags = 1;
            params = d;
            wants_info = true;
            wants_result = true;
          })
          start
        ≡ (ok s_ok, record start { world = 1; retval = some (value 8) }))
unfolding find_member
invoke-fill_disp_params_example =
    invoke-fill_disp_params lua shifted make_text set_out_values 100 (function ∷ []) function 1
      (10 ∷ 20 ∷ []) true start 50 7 0 1 8 two_carried (λ e. absurd (omega arith)) refl refl refl
      refl refl refl refl

-- A table with one member, which is the world.
abbrev storing : Lua ℕ ℕ
storing = record lua { get = λ t k w. (returned (w ∷ []), w); set = λ t k l w. (returned [], l) }

abbrev reader : FuncInfo ℕ
reader = record function { invkind = invoke_propertyget }

abbrev writer : FuncInfo ℕ
writer = record function { invkind = invoke_propertyput }

abbrev nothing_held : Held
nothing_held = record {
  type_infos = 3;
  coclass_infos = 0;
  func_descs = [];
  strings = 0;
  names = 0;
  arrays = 0;
  handlers = 0;
  table_locks = 0;
  containers = 0;
}

abbrev answer : FuncAnswer ℕ
answer = record {
  described = true;
  restricted = false;
  named = true;
  stray_text = false;
  sized = true;
  allocated = true;
  converted = true;
  info = function;
}

-- The second name cannot be converted.
abbrev second_fails : Answers ℕ
second_fails = record {
  handler = true;
  attributes = true;
  array = true;
  functions = answer ∷ record answer { converted = false } ∷ [];
}

construct-Balanced_example : Balanced nothing_held (construct second_fails nothing_held)
construct-Balanced_example = construct-Balanced second_fails nothing_held

abbrev all_given : Answers ℕ
all_given = record { handler = true; attributes = true; array = true; functions = answer ∷ [] }

abbrev fresh : Server ℕ
fresh = record { refs = 1; funcs = function ∷ []; has_class_info = false; has_container = false }

abbrev held_by_fresh : Held
held_by_fresh = record {
  type_infos = 4;
  coclass_infos = 0;
  func_descs = 0 ∷ [];
  strings = 0;
  names = 1;
  arrays = 1;
  handlers = 1;
  table_locks = 1;
  containers = 0;
}

fresh-Reached : Reached all_given nothing_held 1 fresh held_by_fresh
unfolding created construct built load_functions load_function release_desc continue
fresh-Reached = begun fresh held_by_fresh refl

-- A reference more, and one less.
used-Reached : Reached all_given nothing_held 1 fresh held_by_fresh
unfolding query_interface has_interface add_ref release
used-Reached =
    released 1 (record fresh { refs = 2 }) fresh held_by_fresh held_by_fresh
      (queried 1 fresh held_by_fresh true iunknown fresh-Reached (omega arith)) refl

abbrev out : ℕ
out = 1

Reached-release_example :
    (fresh.refs ≡ out) × (out ≡ 1 → release fresh held_by_fresh ≡ (none, nothing_held))
Reached-release_example =
    Reached-release all_given nothing_held out fresh held_by_fresh used-Reached

call_with_dispatch-serve_example :
    call_with_dispatch shifted
      (serve lua shifted make_text set_out_values 100 (function ∷ []) 1)
      (some function.desc)
      true
      true
      false
      (some 10 ∷ some 20 ∷ [])
      0
    ≡ (values (7 ∷ []), 1)
unfolding find_member
call_with_dispatch-serve_example =
    call_with_dispatch-serve lua shifted make_text set_out_values 100 (function ∷ []) function 1
      (10 ∷ 20 ∷ []) 50 7 0 0 1 8 two_carried (λ e. absurd (omega arith)) refl refl refl refl refl
      refl refl refl
