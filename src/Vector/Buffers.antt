-- ===== src/Vector/Buffers.antt =====
-- The arrays behind a vector: InitVectorFromTable never has more elements than the array it has
-- allocated, whose size it doubles.
use luacom.Prelude.{
  ℕ, suc, ◌+◌, ◌≤◌, ◌<◌, ◌≡◌, refl, ap, sym, Bool, List, [], ◌∷◌, ◌++◌, arith, length,
  length-append, subst,
}
use luacom.Prelude.Result.{ok, check, typeconv_error, >>=-eq-ok}
use luacom.Vector.{ArrayType, Vector, unknown, scalar, vector, Vectors, nil, cons, count, append}
use luacom.Vector.Load.{
  LuaValue, tab, Items, end, raise, then_item, grow, expect_vector, push_child, push_value, Stack,
  load_items,
}
use luacom.Vector.Represents.{push_child-vector, ok-eq}

-- Each array is large enough for its elements, at every level.
mutual
  pub data Fits : Vector → Type 0 where
    unknown_fits : Fits unknown
    scalar_fits :
        {max : ℕ} {ty : ArrayType} {ss : List ℕ}
        → 0 < max
        → length ss ≤ max
        → Fits (scalar max ty ss)
    vector_fits :
        {max : ℕ} {ty : ArrayType} {vs : Vectors}
        → 0 < max
        → count vs ≤ max
        → AllFit vs
        → Fits (vector max ty vs)

  pub data AllFit : Vectors → Type 0 where
    no_more : AllFit nil
    and_more : {v : Vector} {vs : Vectors} → Fits v → AllFit vs → AllFit (cons v vs)

-- After the growth there is room for one more element.
grow-lt : (n max : ℕ) → 0 < max → n ≤ max → n < grow n max
unfolding grow
grow-lt n max p h = ground arith

AllFit-append : (vs : Vectors) (w : Vector) → AllFit vs → Fits w → AllFit (append vs w)
unfolding append
AllFit-append nil w no_more f = and_more f no_more
AllFit-append (cons v vs) w (and_more g a) f = and_more g (AllFit-append vs w a f)

count-append : (vs : Vectors) (w : Vector) → count (append vs w) ≡ suc (count vs)
unfolding count append
count-append nil w = refl
count-append (cons v vs) w = ap suc (count-append vs w)

push_value-Fits :
    (acc acc' : Vector) (x : LuaValue) (s : ℕ) → Fits acc → push_value acc x s ≡ ok acc' → Fits acc'
unfolding push_value
push_value-Fits unknown acc' x s f e =
    subst Fits (ok-eq e) (scalar_fits (omega arith) (omega arith))
push_value-Fits (vector max ty vs) acc' x s f e = cc
push_value-Fits (scalar max ty []) acc' x s f e = cc
push_value-Fits (scalar max ty (t ∷ ss)) acc' x s (scalar_fits p h) e =
    let room = grow-lt (suc (length ss)) max p h in
    subst Fits (ok-eq e) (scalar_fits (omega arith) (omega (arith, length-append ss (s ∷ []))))

push_child-Fits : (acc acc' w : Vector) → Fits acc → Fits w → push_child acc w ≡ ok acc' → Fits acc'
unfolding push_child count
push_child-Fits unknown acc' w f g e =
    subst Fits (ok-eq e) (vector_fits (omega arith) (omega arith) (and_more g no_more))
push_child-Fits (scalar max ty ss) acc' w f g e = cc
push_child-Fits (vector max ty nil) acc' w f g e = cc
push_child-Fits (vector max ty (cons v vs)) acc' w (vector_fits p h (and_more q a)) g e =
    let room = grow-lt (suc (count vs)) max p h in
    subst Fits (sym (push_child-vector max ty v vs w acc' e)) (
      vector_fits (omega arith) (omega (arith, count-append vs w))
        (and_more q (AllFit-append vs w a g)))

-- Whatever the table: a vector that InitVectorFromTable makes, and each of its children, has at
-- most as many elements as its array has room for.
pub load_items-Fits :
    (room : ℕ → Bool) (base : ℕ) (xs : Items) (acc v : Vector) (st st' : Stack)
    → Fits acc
    → load_items room base xs acc st ≡ ok (v, st')
    → Fits v
unfolding load_items
load_items-Fits room base end acc v st st' f e =
    let (_, _, g) = >>=-eq-ok (check (room (length st)) typeconv_error) _ e in
    subst (λ (p : Vector × Stack). Fits p.0) (ok-eq g) f
load_items-Fits room base raise acc v st st' f e = cc
load_items-Fits room base (then_item (tab xs) rest) acc v st st' f e =
    let (_, _, g) = >>=-eq-ok (check (room (length st)) typeconv_error) _ e in
    let (_, _, h) = >>=-eq-ok (expect_vector acc) _ g in
    let ((w, st₁), i, j) = >>=-eq-ok (load_items room base xs unknown (st ++ tab xs ∷ [])) _ h in
    let (acc', k, l) = >>=-eq-ok (push_child acc w) _ j in
    let fw = load_items-Fits room base xs unknown w _ st₁ unknown_fits i in
    load_items-Fits room base rest acc' v st₁ st' (push_child-Fits acc acc' w f fw k) l
load_items-Fits room base (then_item x rest) acc v st st' f e =
    let (_, _, g) = >>=-eq-ok (check (room (length st)) typeconv_error) _ e in
    let (acc', k, l) = >>=-eq-ok (push_value acc x (base + length st + 1)) _ g in
    load_items-Fits room base rest acc' v _ st' (push_value-Fits acc acc' x _ f k) l
