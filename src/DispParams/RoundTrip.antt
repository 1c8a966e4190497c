-- ===== src/DispParams/RoundTrip.antt =====
-- A call from Lua to Lua: fillDispParams on the caller's side, pushLuaArgs on the other one.
use mathlib.Core.List.{reverse-reverse}
use luacom.Prelude.{
  ==_refl, ℕ, suc, ◌+◌, ◌-◌, ◌<◌, ◌≡◌, ◌≢◌, refl, sym, ap, subst, ◌∙◌, true, false, none, some,
  List, [], ◌∷◌, map, reverse, arith, ◌==◌, length, get_elem?,
}
use luacom.Prelude.Result.{ok_eq, ok}
use luacom.TypeDesc.{ArgType}
use luacom.DispParams.{
  Conversions, Param, Arg, value, DispParams, in_value, put_value, in_arg, fill_args,
  fill_disp_params, arg_index, push_found, push_arg, arg_of, push_from, push_lua_args, push_outs,
  push_out_values,
}
use luacom.DispParams.Order.{length-reverse, get_elem?-reverse}

module _ {V L : Type 0} (c : Conversions V L) where
  -- A value that a parameter for input by value carries: it becomes `v`, which is neither empty nor
  -- an error and copies to itself, and `v` becomes it.
  pub record Carried (p : Param V) (l : L) : Type 0 where
    pub t : ArgType
    pub v : V
    pub of_type : p.type ≡ ok t
    pub by_value : t.byref ≡ false
    pub is_in : p.fin ≡ true
    pub not_out : p.fout ≡ false
    pub no_default : p.has_default ≡ false
    pub to_com : c.from_lua l (record t { byref = false }) ≡ ok v
    pub copied : c.copy v ≡ ok v
    pub not_empty : c.is_empty v ≡ false
    pub not_error : c.is_error v ≡ false
    pub from_com : c.to_lua v (record t { byref = false }) ≡ ok l

  -- Each parameter carries its value.
  abbrev pub AllCarried : List (Param V) → List L → Type 0
  AllCarried [] [] = Unit {0}
  AllCarried [] (l ∷ ls) = ⊥
  AllCarried (p ∷ ps) [] = ⊥
  AllCarried (p ∷ ps) (l ∷ ls) = Carried p l × AllCarried ps ls

  -- What the arguments are.
  abbrev carried : (ps : List (Param V)) (ls : List L) → AllCarried ps ls → List (Arg V)
  carried [] [] h = []
  carried [] (l ∷ ls) h = []
  carried (p ∷ ps) [] h = []
  carried (p ∷ ps) (l ∷ ls) h = value h.0.v ∷ carried ps ls h.1

  length-carried :
      (ps : List (Param V)) (ls : List L) (h : AllCarried ps ls)
      → (length (carried ps ls h) ≡ length ps) × (length ls ≡ length ps)
  length-carried [] [] h = (refl, refl)
  length-carried [] (l ∷ ls) h = absurd h
  length-carried (p ∷ ps) [] h = absurd h
  length-carried (p ∷ ps) (l ∷ ls) h = let (a, b) = length-carried ps ls h.1 in (ap suc a, ap suc b)

  in_arg-Carried :
      (p : Param V) (l : L) (h : Carried p l) → in_arg c (some p) (some l) ≡ ok (value h.v)
  unfolding in_arg in_value put_value
  in_arg-Carried p l h =
      rw (h.of_type, h.no_default, h.not_out, h.by_value, h.to_com, h.copied, in_value) refl

  push_arg-Carried :
      (p : Param V) (l : L) (h : Carried p l) → push_arg c p (some (value h.v)) ≡ ok (some l ∷ [])
  unfolding push_arg push_found
  push_arg-Carried p l h = rw (h.of_type, h.is_in, h.not_empty, h.not_error, h.from_com) refl

  fill_args-AllCarried :
      (ps : List (Param V)) (ls : List L) (h : AllCarried ps ls)
      → fill_args c (map some ps) (map some ls) ≡ ok (carried ps ls h)
  unfolding fill_args
  fill_args-AllCarried [] [] h = refl
  fill_args-AllCarried [] (l ∷ ls) h = absurd h
  fill_args-AllCarried (p ∷ ps) [] h = absurd h
  fill_args-AllCarried (p ∷ ps) (l ∷ ls) h =
      rw (h.0.is_in, in_arg-Carried p l h.0, fill_args-AllCarried ps ls h.1) refl

  push_from-AllCarried :
      (d : DispParams V) (i : ℕ) (ps : List (Param V)) (ls : List L) (h : AllCarried ps ls)
      → ((j : ℕ) → j < length ps → arg_of c d (i + j) ≡ get_elem? (carried ps ls h) j)
      → push_from c d i (length ps) ps ≡ ok (map some ls)
  unfolding push_from
  push_from-AllCarried d i [] [] h g = refl
  push_from-AllCarried d i [] (l ∷ ls) h g = absurd h
  push_from-AllCarried d i (p ∷ ps) [] h g = absurd h
  push_from-AllCarried d i (p ∷ ps) (l ∷ ls) h g =
      let e : i + 0 ≡ i = omega arith in
      let first : arg_of c d i ≡ some (value h.0.v) =
        subst (λ k. arg_of c d k ≡ some (value h.0.v)) e (g 0 (omega arith)) in
      let rest : push_from c d (suc i) (length ps) ps ≡ ok (map some ls) =
        push_from-AllCarried d (suc i) ps ls h.1 (λ j n.
          let f : i + suc j ≡ suc i + j = omega arith in
          subst (λ k. arg_of c d k ≡ get_elem? (carried ps ls h.1) j) f
            (g (suc j) (omega arith))) in
      rw (first, push_arg-Carried p l h.0, rest) refl

  arg_index-reverse :
      (xs : List (Arg V)) (i : ℕ)
      → i < length xs
      → arg_index (length (reverse xs)) [] i ≡ some (length xs - i - 1)
  unfolding arg_index
  arg_index-reverse xs i h = grind (arith, length-reverse xs)

  -- The argument of a parameter of a call without named arguments.
  arg_of-reverse :
      (xs : List (Arg V)) (i : ℕ)
      → i < length xs
      → arg_of c (record { args = reverse xs; named = [] }) i ≡ get_elem? xs i
  arg_of-reverse xs i h =
      ap (λ o. elim o [ none ↦ none | some k ↦ get_elem? (reverse xs) k ])
        (arg_index-reverse xs i h)
      ∙ get_elem?-reverse xs i h

  fill_disp_params-AllCarried :
      (ps : List (Param V)) (ls : List L) (h : AllCarried ps ls)
      → length ps ≢ 0
      → fill_disp_params c (some (record { params = ps; vararg = false })) (map some ls) false
        ≡ ok (record { args = reverse (carried ps ls h); named = [] })
  unfolding fill_disp_params
  fill_disp_params-AllCarried ps ls h n =
      let z : (length ps == 0) ≡ false = grind arith in rw (z, fill_args-AllCarried ps ls h) refl

  push_outs-carried :
      (ps : List (Param V)) (ls : List L) (h : AllCarried ps ls)
      → push_outs c (carried ps ls h) (map some ps) ≡ ok []
  unfolding push_outs
  push_outs-carried [] [] h = refl
  push_outs-carried [] (l ∷ ls) h = absurd h
  push_outs-carried (p ∷ ps) [] h = absurd h
  push_outs-carried (p ∷ ps) (l ∷ ls) h = rw (h.0.not_out, push_outs-carried ps ls h.1) refl

  -- The arguments of such a call hold no output.
  pub push_out_values-AllCarried :
      (ps : List (Param V)) (ls : List L) (d : DispParams V)
      → AllCarried ps ls
      → length ps ≢ 0
      → fill_disp_params c (some (record { params = ps; vararg = false })) (map some ls) false
        ≡ ok d
      → push_out_values c d (some (record { params = ps; vararg = false })) ≡ ok []
  unfolding push_out_values
  push_out_values-AllCarried ps ls d h n e =
      let xs = carried ps ls h in
      let same : record { args = reverse xs; named = [] } ≡ d =
        ok_eq (sym (fill_disp_params-AllCarried ps ls h n) ∙ e) in
      let size : (length (reverse xs) == length ps) ≡ true =
        rw (length-reverse xs, (length-carried ps ls h).0) (==_refl (length ps)) in
      subst
        (λ (d : DispParams V).
          push_out_values c d (some (record { params = ps; vararg = false })) ≡ ok [])
        same (rw (size, reverse-reverse xs) (push_outs-carried ps ls h))

  -- Let a function of a fixed number of parameters have at least one, and each one carry a value.
  -- Then a call with these values succeeds, and passes them to a Lua function that implements it,
  -- each once and in their order.
  pub push_lua_args-fill_disp_params :
      (ps : List (Param V)) (ls : List L)
      → AllCarried ps ls
      → length ps ≢ 0
      → (d : DispParams V) × (fill_disp_params c
            (some (record { params = ps; vararg = false }))
            (map some ls)
            false
          ≡ ok d)
        × (push_lua_args c d ps ≡ ok (map some ls))
  unfolding fill_disp_params push_lua_args
  push_lua_args-fill_disp_params ps ls h n =
      let xs = carried ps ls h in
      let z : (length ps == 0) ≡ false = grind arith in
      let k = (length-carried ps ls h).0 in
      let all : length (reverse xs) ≡ length ps = length-reverse xs ∙ k in
      let d : DispParams V = record { args = reverse xs; named = [] } in
      let held_at = λ (j : ℕ) (m : j < length ps).
        let e : j ≡ 0 + j = omega arith in
        subst (λ (k : ℕ). arg_of c d k ≡ get_elem? xs j) e
          (arg_of-reverse xs j (omega (arith, k))) in
      (
        d,
        rw (z, fill_args-AllCarried ps ls h) refl,
        rw (all) (push_from-AllCarried d 0 ps ls h held_at),
      )
