-- ===== src/DispParams.antt =====
-- DISPPARAMS (src/library/tLuaCOMTypeHandler.cpp): how the arguments of a call travel from Lua to
-- COM (fillDispParams), from COM to a Lua function (pushLuaArgs), and back (pushOutValues).
pub mod Order
pub mod RoundTrip
use luacom.Prelude.{
  ℕ, zero, suc, ◌+◌, ◌-◌, Bool, true, false, not, ◌&&◌, ◌||◌, Option, none, some, List, [], ◌∷◌,
  ◌++◌, map, reverse, ◌==◌, ltb, if◌then◌else◌, length, get_elem?, take, replicate,
}
use luacom.Prelude.Int.{ℤ, pos, negsuc}
use luacom.Prelude.Result.{Result, ok, throw, ◌>>=◌, ◌>>◌, internal_error, fault}
use luacom.Variant.{VarType, vt_variant}
use luacom.TypeDesc.{ArgType, plain}

-- The conversions of values, which the loops below call: `V` are the values of a VARIANT and `L`
-- those of Lua. Those that a null pointer or a system call can refuse may throw.
pub record Conversions (V L : Type 0) : Type 0 where
  -- lua2com, or safearray_lua2com where an array is expected.
  pub from_lua : L → ArgType → Result V
  -- VariantCopy.
  pub copy : V → Result V
  -- The memory that initByRefParam takes for a type.
  pub allocate : ArgType → Result (Unit {0})
  -- The conversion of toByRefParam to the type that is expected.
  pub change : V → ArgType → Result V
  -- VT_EMPTY, and VT_ERROR with DISP_E_PARAMNOTFOUND.
  pub empty : V
  pub not_found : V
  pub is_empty : V → Bool
  pub is_error : V → Bool
  -- Coerce and com2lua, with the type checks before them.
  pub to_lua : V → ArgType → Result L
  -- com2lua.
  pub out_to_lua : V → Result L

-- PARAMDESC: the flags, of which `other_flag` stands for those that are not named, the default
-- value, and what processTYPEDESC answers for the type.
pub record Param (V : Type 0) : Type 0 where
  pub fin : Bool
  pub fout : Bool
  pub fopt : Bool
  pub has_default : Bool
  pub other_flag : Bool
  pub default : V
  pub type : Result ArgType

-- FUNCDESC; `vararg` is cParamsOpt == -1.
pub record FuncDesc (V : Type 0) : Type 0 where
  pub params : List (Param V)
  pub vararg : Bool

-- VARIANTARG: a value, or by reference: a value in memory of a type, or memory with no value yet.
pub data Arg (V : Type 0) : Type 0 where
  value : V → Arg V
  reference : ArgType → V → Arg V
  blank : ArgType → Arg V

-- `args` is rgvarg, whose order is the reverse of that of the parameters.
pub record DispParams (V : Type 0) : Type 0 where
  pub args : List (Arg V)
  pub named : List ℤ

module _ {V : Type 0} where
  -- wParamFlags == PARAMFLAG_NONE
  abbrev pub no_flags : Param V → Bool
  no_flags p = not (p.fin || p.fout || p.fopt || p.has_default || p.other_flag)

  -- A parameter for output alone, which takes no value from Lua.
  abbrev pub out_only : Param V → Bool
  out_only p = not p.fin && not (no_flags p) && not p.fopt

  -- What is known of each parameter: nothing without type information, and nothing of the values
  -- that stand for the last parameter of a function with a variable number of arguments.
  unfoldable pub formals : Option (FuncDesc V) → ℕ → List (Option (Param V))
  formals none num = replicate num none
  formals (some f) num =
      let known = length f.params - 1 in
      let total = if ltb (length f.params) num then num else length f.params in
      if f.vararg
      then map some (take known f.params) ++ replicate (total - known) none
      else map some f.params

pub is_variant : VarType → Bool
is_variant vt_variant = true
is_variant _ = false

-- The value at the front of those that are left: nil and a missing one count alike.
abbrev pub first_value : {L : Type 0} → List (Option L) → Option L
first_value [] = none
first_value (v ∷ vs) = v

abbrev pub other_values : {L : Type 0} → List (Option L) → List (Option L)
other_values [] = []
other_values (v ∷ vs) = vs

module _ {V L : Type 0} (c : Conversions V L) where
  -- The value of a parameter: the one from Lua, or a copy of the default, or a sign that it is
  -- missing. The last part says whether it goes by reference, which a missing one never does.
  unfoldable pub in_value : Param V → V → ArgType → Bool → Option L → Result (V × Bool)
  in_value p default t byref (some l) = c.from_lua l t >>= λ v. ok (v, byref)
  in_value p default t byref none =
      if p.has_default
      then (c.copy default >>= λ v. ok (v, byref))
      else if p.fopt && p.fin
      then ok (c.not_found, false)
      else ok (c.empty, byref)

  -- toByRefParam: a VARIANT takes any value, and an array is not converted.
  unfoldable pub to_by_ref : ArgType → V → Result V
  unfolding is_variant
  to_by_ref t v =
      if is_variant t.base && not t.array then ok v else if t.array then ok v else c.change v t

  -- VariantCopy into the array, or initByRefParam and toByRefParam.
  unfoldable pub put_value : ArgType → V × Bool → Result (Arg V)
  unfolding to_by_ref
  put_value t (v, false) = c.copy v >>= λ w. ok (value w)
  put_value t (v, true) = do c.allocate t; w ← to_by_ref t v; ok (reference t w)

  -- One parameter that takes a value, with type information or without.
  unfoldable pub in_arg : Option (Param V) → Option L → Result (Arg V)
  unfolding in_value put_value
  in_arg none none = put_value (plain vt_variant) (c.empty, true)
  in_arg none (some l) =
      c.from_lua l (plain vt_variant) >>= λ v. put_value (plain vt_variant) (v, true)
  in_arg (some p) l = do
    t ← p.type
    default ← (if p.has_default then c.copy p.default else ok c.empty)
    v ← in_value p default (record t { byref = false }) (p.fout || t.byref) l
    put_value (record t { byref = false }) v

  abbrev pub takes_value : Option (Param V) → Bool
  takes_value none = true
  takes_value (some p) = not (out_only p)

  -- An output parameter: memory for its type.
  unfoldable pub out_arg : Option (Param V) → Result (Arg V)
  out_arg none = ok (blank (plain vt_variant))
  out_arg (some p) = do
    t ← p.type
    c.allocate (record t { byref = false })
    ok (blank (record t { byref = false }))

  -- The loop over the parameters, with the values of Lua that are left.
  unfoldable pub fill_args : List (Option (Param V)) → List (Option L) → Result (List (Arg V))
  unfolding in_arg out_arg
  fill_args [] values = ok []
  fill_args (p ∷ ps) values = do
    a ← (if takes_value p then in_arg p (first_value values) else out_arg p)
    as' ← fill_args ps (if takes_value p then other_values values else values)
    ok (a ∷ as')

  -- fillDispParams. `put` says whether the call sets a property, which names the last argument
  -- DISPID_PROPERTYPUT.
  unfoldable pub fill_disp_params :
      Option (FuncDesc V) → List (Option L) → Bool → Result (DispParams V)
  unfolding fill_args formals
  fill_disp_params f values put =
      let whole = fill_args (formals f (length values)) values in
      let named : List ℤ = if put then negsuc 2 ∷ [] else [] in
      elim f [
        | none ↦ whole >>= λ l. ok (record { args = reverse l; named = named })
        | some d ↦
            if length d.params == 0
            then ok (record { args = []; named = [] })
            else whole >>= λ l. ok (record { args = reverse l; named = named })
      ]

-- The index in rgvarg of the argument for a parameter: positional ones in reverse order, and
-- named ones where their name stands.
unfoldable pub named_index : ℕ → ℕ → List ℤ → Option ℕ
named_index arg i [] = none
named_index arg i (negsuc n ∷ ids) = named_index arg (suc i) ids
named_index arg i (pos n ∷ ids) = if n == arg then some i else named_index arg (suc i) ids

unfoldable pub arg_index : ℕ → List ℤ → ℕ → Option ℕ
unfolding named_index
arg_index total named arg =
    if ltb arg (total - length named) then some (total - arg - 1) else named_index arg 0 named

module _ {V L : Type 0} (c : Conversions V L) where
  -- The value that an argument holds, by itself or behind the reference.
  abbrev pub held : Arg V → V
  held (value v) = v
  held (reference t v) = v
  held (blank t) = c.empty

  abbrev pub lacks : (V → Bool) → Arg V → Bool
  lacks test (value v) = test v
  lacks test (reference t v) = false
  lacks test (blank t) = false

  -- What a parameter for input pushes: nothing, nil, or a value. `arg` is `none` where no argument
  -- is found.
  unfoldable pub push_found : Param V → ArgType → Option (Arg V) → Result (List (Option L))
  push_found p t none = ok (none ∷ [])
  push_found p t (some a) =
      if lacks c.is_empty a && no_flags p
      then ok []
      else if lacks c.is_error a || lacks c.is_empty a
      then ok (none ∷ [])
      else (c.to_lua (held a) (record t { byref = false }) >>= λ l. ok (some l ∷ []))

  unfoldable pub push_arg : Param V → Option (Arg V) → Result (List (Option L))
  unfolding push_found
  push_arg p arg = p.type >>= λ t. if p.fin || no_flags p then push_found p t arg else ok []

  -- The argument of the parameter with a number. An index out of range is a read out of bounds,
  -- which cannot be for fewer names than arguments.
  abbrev pub arg_of : DispParams V → ℕ → Option (Arg V)
  arg_of d i = elim (arg_index (length d.args) d.named i) [
    | none ↦ none
    | some k ↦ get_elem? d.args k
  ]

  -- The loop of pushLuaArgs from the parameter `i` on, for a number of arguments; one more than there
  -- are parameters has it read past the end of the descriptions.
  unfoldable pub push_from : DispParams V → ℕ → ℕ → List (Param V) → Result (List (Option L))
  unfolding push_arg arg_index
  push_from d i zero ps = ok []
  push_from d i (suc n) [] = fault
  push_from d i (suc n) (p ∷ ps) = do
    l ← push_arg p (arg_of d i)
    ls ← push_from d (suc i) n ps
    ok (l ++ ls)

  unfoldable pub push_lua_args : DispParams V → List (Param V) → Result (List (Option L))
  unfolding push_from
  push_lua_args d ps = push_from d 0 (length d.args) ps

  -- pushOutValues: the parameters for output, by their flag or since they go by reference, in their
  -- order.
  abbrev pub by_reference : Arg V → Bool
  by_reference (value v) = false
  by_reference (reference t v) = true
  by_reference (blank t) = true

  abbrev flagged_out : List (Option (Param V)) → Bool
  flagged_out [] = false
  flagged_out (none ∷ ps) = false
  flagged_out (some p ∷ ps) = p.fout

  unfoldable pub push_outs : List (Arg V) → List (Option (Param V)) → Result (List L)
  push_outs [] ps = ok []
  push_outs (a ∷ as') ps = do
    l ←
        (if flagged_out ps || by_reference a
          then (c.out_to_lua (held a) >>= λ v. ok (v ∷ []))
          else ok [])
    ls ← push_outs as' (other_values ps)
    ok (l ++ ls)

  unfoldable pub push_out_values : DispParams V → Option (FuncDesc V) → Result (List L)
  unfolding push_outs
  push_out_values d none = push_outs (reverse d.args) []
  push_out_values d (some f) =
      if length d.args == length f.params
      then push_outs (reverse d.args) (map some f.params)
      else throw internal_error
