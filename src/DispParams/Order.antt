-- ===== src/DispParams/Order.antt =====
-- Which value each argument of a call holds, and where the argument stands.
use mathlib.Core.List.{reverse-cons}
use luacom.Prelude.{
  some_eq, ℕ, zero, suc, ◌-◌, ◌<◌, ◌≡◌, refl, sym, ap, subst, ◌∙◌, Bool, true, false, not, Option,
  none, some, List, [], ◌∷◌, reverse, arith, ◌==◌, if◌then◌else◌, length, get_elem?, drop,
  length-append, get_elem?-append_left, get_elem?-append_last, Bool-cases, inl, inr,
}
use luacom.Prelude.Int.{negsuc}
use luacom.Prelude.Result.{ok_eq, Result, ok, ◌>>=◌, >>=-eq-ok}
use luacom.DispParams.{
  Conversions, Param, FuncDesc, Arg, DispParams, formals, first_value, other_values, in_arg,
  takes_value, out_arg, fill_args, fill_disp_params,
}

pub length-reverse {ℓ} : {A : Type ℓ} (xs : List A) → length (reverse xs) ≡ length xs
length-reverse [] = refl
length-reverse (x ∷ xs) =
    ap length (reverse-cons x xs)
    ∙ omega (arith, length-append (reverse xs) (x ∷ []), length-reverse xs)

-- The element of a reversed list that stands as far from its end.
pub get_elem?-reverse {ℓ} :
    {A : Type ℓ} (xs : List A) (i : ℕ)
    → i < length xs
    → get_elem? (reverse xs) (length xs - i - 1) ≡ get_elem? xs i
get_elem?-reverse [] i h = absurd (omega arith)
get_elem?-reverse (x ∷ xs) zero h =
    let e : length (x ∷ xs) - 0 - 1 ≡ length (reverse xs) = omega (arith, length-reverse xs) in
    rw (reverse-cons, e) (get_elem?-append_last (reverse xs) x)
get_elem?-reverse (x ∷ xs) (suc i) h =
    let e : length (x ∷ xs) - suc i - 1 ≡ length xs - i - 1 = omega arith in
    rw (reverse-cons, e)
      (get_elem?-append_left (reverse xs) (x ∷ []) (length xs - i - 1)
          (omega (arith, length-reverse xs))
        ∙ get_elem?-reverse xs i (omega arith))

get_elem?-some-lt {ℓ} :
    {A : Type ℓ} (xs : List A) (i : ℕ) (a : A) → get_elem? xs i ≡ some a → i < length xs
get_elem?-some-lt [] i a e = absurd cc
get_elem?-some-lt (x ∷ xs) zero a e = omega arith
get_elem?-some-lt (x ∷ xs) (suc i) a e = omega (arith, get_elem?-some-lt xs i a e)

module _ {V L : Type 0} (c : Conversions V L) where
  -- How many of the first parameters take a value from Lua.
  unfoldable pub taking : List (Option (Param V)) → ℕ → ℕ
  taking [] i = 0
  taking (p ∷ ps) zero = 0
  taking (p ∷ ps) (suc i) = if takes_value c p then suc (taking ps i) else taking ps i

  -- The values left after some are taken.
  left_after :
      (b : Bool) (values : List (Option L)) (k : ℕ)
      → drop k (if b then other_values values else values) ≡ drop (if b then suc k else k) values
  left_after true [] zero = refl
  left_after true [] (suc k) = refl
  left_after true (v ∷ vs) k = refl
  left_after false values k = refl

  -- What becomes of a parameter, with the values that are left.
  unfoldable pub fill_one : Option (Param V) → List (Option L) → Result (Arg V)
  fill_one p values = if takes_value c p then in_arg c p (first_value values) else out_arg c p

  -- What the loop makes of the parameter with a number.
  fill_args-get_elem? :
      (ps : List (Option (Param V))) (values : List (Option L)) (as' : List (Arg V)) (i : ℕ)
      (p : Option (Param V))
      → fill_args c ps values ≡ ok as'
      → get_elem? ps i ≡ some p
      → (a : Arg V) × (get_elem? as' i ≡ some a) × (fill_one p (drop (taking ps i) values) ≡ ok a)
  unfolding fill_args taking fill_one
  fill_args-get_elem? [] values as' i p e h = absurd cc
  fill_args-get_elem? (q ∷ ps) values as' zero p e h =
      let (a, b, f) = >>=-eq-ok (fill_one q values) _ e in
      let (rest, g, k) =
        >>=-eq-ok (fill_args c ps (if takes_value c q then other_values values else values)) _ f in
      (
        a,
        ap (λ l. get_elem? l 0) (sym (ok_eq k)),
        subst (λ q. fill_one q values ≡ ok a) (some_eq h) b,
      )
  fill_args-get_elem? (q ∷ ps) values as' (suc i) p e h =
      let (a, b, f) = >>=-eq-ok (fill_one q values) _ e in
      let (rest, g, k) =
        >>=-eq-ok (fill_args c ps (if takes_value c q then other_values values else values)) _ f in
      let (d, m, n) =
        fill_args-get_elem? ps (if takes_value c q then other_values values else values) rest i p g
          h in
      (
        d,
        ap (λ l. get_elem? l (suc i)) (sym (ok_eq k)) ∙ m,
        subst (λ l. fill_one p l ≡ ok d) (left_after (takes_value c q) values (taking ps i)) n,
      )

  fill_args-length :
      (ps : List (Option (Param V))) (values : List (Option L)) (as' : List (Arg V))
      → fill_args c ps values ≡ ok as'
      → length as' ≡ length ps
  unfolding fill_args
  fill_args-length [] values as' e = sym (ap length (ok_eq e))
  fill_args-length (p ∷ ps) values as' e =
      let (a, _, f) =
        >>=-eq-ok (if takes_value c p then in_arg c p (first_value values) else out_arg c p) _ e in
      let (rest, g, h) =
        >>=-eq-ok (fill_args c ps (if takes_value c p then other_values values else values)) _ f in
      sym (ap length (ok_eq h)) ∙ ap suc (fill_args-length ps _ rest g)

  -- Without type information, or with a parameter in it.
  abbrev pub may_take : Option (FuncDesc V) → Bool
  may_take none = true
  may_take (some g) = not (length g.params == 0)

  filled :
      (f : Option (FuncDesc V)) (values : List (Option L)) (put : Bool) (d : DispParams V)
      → may_take f ≡ true
      → fill_disp_params c f values put ≡ ok d
      → (as' : List (Arg V)) × (fill_args c (formals f (length values)) values ≡ ok as')
        × (d.args ≡ reverse as')
  unfolding fill_disp_params
  filled none values put d m e =
      let (as', g, k) = >>=-eq-ok (fill_args c (formals none (length values)) values) _ e in
      (as', g, sym (ap DispParams.args (ok_eq k)))
  filled (some f) values put d m e = elim (Bool-cases (length f.params == 0)) [
    | inl z ↦ absurd cc
    | inr z ↦
        let whole : Result (DispParams V) =
          fill_args c (formals (some f) (length values)) values >>= λ l.
          ok (record { args = reverse l; named = if put then negsuc 2 ∷ [] else [] }) in
        let e' : whole ≡ ok d = rw z at e in
        let (as', g, k) = >>=-eq-ok (fill_args c (formals (some f) (length values)) values) _ e' in
        (as', g, sym (ap DispParams.args (ok_eq k)))
  ]

  -- Where the parameters of a call are filled in, of a function without type information or with
  -- a parameter in it, each parameter has an argument, which stands as far
  -- from the end as the parameter from the start, and holds what becomes of the parameter with the
  -- values that are left by those before it that take one: these are as many as precede it, less
  -- the parameters for output alone.
  pub fill_disp_params-get_elem? :
      (f : Option (FuncDesc V)) (values : List (Option L)) (put : Bool) (d : DispParams V) (i : ℕ)
      (p : Option (Param V))
      → may_take f ≡ true
      → fill_disp_params c f values put ≡ ok d
      → get_elem? (formals f (length values)) i ≡ some p
      → (length d.args ≡ length (formals f (length values)))
        × ((a : Arg V) × (get_elem? d.args (length d.args - i - 1) ≡ some a)
            × (fill_one p (drop (taking (formals f (length values)) i) values) ≡ ok a))
  fill_disp_params-get_elem? f values put d i p m e h =
      let (as', g, k) = filled f values put d m e in
      let (a, b, n) = fill_args-get_elem? (formals f (length values)) values as' i p g h in
      (
        rw k (length-reverse as' ∙ fill_args-length _ values as' g),
        (
          a,
          rw (k, length-reverse as') (get_elem?-reverse as' i (get_elem?-some-lt as' i a b) ∙ b),
          n,
        ),
      )
