-- ===== src/Examples/Calls.antt =====
-- Calls between Lua and COM (src/library/tLuaCOMTypeHandler.cpp).
use luacom.Prelude.{
  ℕ, suc, ◌-◌, ◌≡◌, refl, true, false, Option, some, none, [], ◌∷◌, ◌==◌, if◌then◌else◌, arith,
}
use luacom.Prelude.Result.{ok}
use luacom.Variant.{vt_i4}
use luacom.TypeDesc.{
  pointer, safearray, userdefined, TypeKind, dispatch, alias, plain, process_typedesc,
}
use luacom.TypeDesc.Meaning.{
  is_dispatch, points_to, array_of, type_of, Means, means_pointer, means_array, means_user,
  kind_dispatch, kind_alias, process_typedesc-type_of,
}
use luacom.DispParams.{
  Conversions, Param, FuncDesc, Arg, value, DispParams, fill_disp_params, push_lua_args,
}
use luacom.DispParams.RoundTrip.{AllCarried, push_lua_args-fill_disp_params}

-- Reference 3 is an alias of a pointer to reference 4, which is a dispatch interface.
abbrev lookup : ℕ → ℕ → Option (ℕ × TypeKind)
lookup i h =
    if h == 3
    then some (i, alias (pointer (userdefined 4)))
    else if h == 4
    then some (8, dispatch)
    else none

abbrev array_of_alias :
    Means lookup 6 0 (safearray (userdefined 3)) (array_of (points_to is_dispatch))
array_of_alias =
    means_array (means_user refl (kind_alias (means_pointer (means_user refl kind_dispatch))))

process_typedesc-type_of_example :
    process_typedesc lookup 9 0 (safearray (userdefined 3))
    ≡ some (type_of (array_of (points_to is_dispatch)))
process_typedesc-type_of_example = process_typedesc-type_of lookup 9 array_of_alias (omega arith)

-- Values of a VARIANT stand one above those of Lua; 0 is the empty one, 999 the missing one.
abbrev pub shifted : Conversions ℕ ℕ
shifted = record {
  from_lua = λ l t. ok (suc l);
  copy = λ v. ok v;
  allocate = λ t. ok tt;
  change = λ v t. ok v;
  empty = 0;
  not_found = 999;
  is_empty = λ v. v == 0;
  is_error = λ v. v == 999;
  to_lua = λ v t. ok (v - 1);
  out_to_lua = λ v. ok (v - 1);
}

abbrev pub in_param : Param ℕ
in_param = record {
  fin = true;
  fout = false;
  fopt = false;
  has_default = false;
  other_flag = false;
  default = 0;
  type = ok (plain vt_i4);
}

abbrev out_param : Param ℕ
out_param = record in_param { fin = false; fout = true }

abbrev with_output : FuncDesc ℕ
with_output = record { params = in_param ∷ out_param ∷ in_param ∷ []; vararg = false }

abbrev filled : DispParams ℕ
filled = record { args = value 21 ∷ Arg.blank (plain vt_i4) ∷ value 11 ∷ []; named = [] }

abbrev pub two_carried : AllCarried shifted (in_param ∷ in_param ∷ []) (10 ∷ 20 ∷ [])
two_carried = (
  record {
    t = plain vt_i4;
    v = 11;
    of_type = refl;
    by_value = refl;
    is_in = refl;
    not_out = refl;
    no_default = refl;
    to_com = refl;
    copied = refl;
    not_empty = refl;
    not_error = refl;
    from_com = refl;
  },
  (
    record {
      t = plain vt_i4;
      v = 21;
      of_type = refl;
      by_value = refl;
      is_in = refl;
      not_out = refl;
      no_default = refl;
      to_com = refl;
      copied = refl;
      not_empty = refl;
      not_error = refl;
      from_com = refl;
    },
    tt,
  ),
)

push_lua_args-fill_disp_params_example :
    (d : DispParams ℕ) × (fill_disp_params shifted
        (some (record { params = in_param ∷ in_param ∷ []; vararg = false }))
        (some 10 ∷ some 20 ∷ [])
        false
      ≡ ok d)
    × (push_lua_args shifted d (in_param ∷ in_param ∷ []) ≡ ok (some 10 ∷ some 20 ∷ []))
push_lua_args-fill_disp_params_example =
    push_lua_args-fill_disp_params shifted (in_param ∷ in_param ∷ []) (10 ∷ 20 ∷ []) two_carried
      (λ e. absurd (omega arith))
