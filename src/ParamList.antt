-- ===== src/ParamList.antt =====
-- tLuaObjList (src/library/tLuaObjList.cpp): a range of stack indices that holds parameters.
use luacom.Prelude.{ℕ, ◌+◌, ◌<◌, ◌≡◌, ◌↔◌, ltb, if◌then◌else◌, arith}
use luacom.Prelude.Int.{ℤ, pos, negsuc}
use luacom.Prelude.Result.{Result, ok, throw, parameter_out_of_range}

pub record ParamList : Type 0 where
  pub first_param : ℕ
  pub num_params : ℕ

-- The constructor, whose CHECKPARAM refuses negative arguments.
unfoldable pub new_param_list : ℤ → ℤ → Result ParamList
new_param_list (pos first) (pos num) = ok (record { first_param = first; num_params = num })
new_param_list (pos first) (negsuc num) = throw parameter_out_of_range
new_param_list (negsuc first) num = throw parameter_out_of_range

-- The stack index of a parameter, or 0 for one that is missing.
unfoldable pub get_param : ParamList → ℤ → Result ℕ
get_param ps (negsuc i) = throw parameter_out_of_range
get_param ps (pos i) = if ltb i ps.num_params then ok (ps.first_param + i) else ok 0

abbrev pub get_num_params : ParamList → ℕ
get_num_params ps = ps.num_params

-- A list made for so many parameters from a stack index on answers a parameter's index exactly
-- where it has that parameter, and the index is in its range.
pub get_param-new_param_list :
    (first num i : ℕ) (ps : ParamList)
    → 0 < first
    → new_param_list (pos first) (pos num) ≡ ok ps
    → (get_num_params ps ≡ num) × ((get_param ps (pos i) ≡ ok (first + i)) ↔ (i < num))
unfolding new_param_list get_param
get_param-new_param_list first num i ps h e = ground (arith, e)
