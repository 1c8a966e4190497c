-- ===== src/Vector/Dimensions.antt =====
-- InitVectorFromDimensions and setindex: the matrix that a safearray is copied into.
use luacom.Prelude.{
  ℕ, zero, suc, ◌*◌, ◌≡◌, refl, ap, ◌∙◌, subst, List, [], ◌∷◌, map, Option, some, arith, length,
  replicate, length-set, length-replicate,
}
use luacom.Prelude.Int.{ℤ, pos}
use luacom.Prelude.Result.{ok, >>=-eq-ok}
use luacom.Vector.{
  ArrayType, no_type, Vector, unknown, scalar, vector, Vectors, nil, cons, count, child, set_child,
  get_length, size, size_all, Bound, offset, first_lower, rest_bounds, write_slot, vector_child,
  put_child, set_index, make_children, init_from_dimensions,
}
use luacom.Vector.Shape.{Shape, Every, product}

make_children-Every :
    (P : Vector → Type 0) (n : ℕ) (w : Vector)
    → P w
    → (vs : Vectors) × (make_children n (ok w) ≡ ok vs) × (count vs ≡ n) × Every P vs
unfolding make_children count
make_children-Every P zero w p = (nil, refl, refl, tt)
make_children-Every P (suc n) w p =
    let (vs, e, c, q) = make_children-Every P n w p in (cons w vs, rw e refl, ap suc c, (p, q))

-- InitVectorFromDimensions makes a matrix of the dimensions it is given, of which there is at
-- least one.
pub init_from_dimensions-Shape :
    (n : ℕ) (ds : List ℕ)
    → (v : Vector) × (init_from_dimensions (map pos (n ∷ ds)) ≡ ok v) × Shape (n ∷ ds) v
unfolding init_from_dimensions
init_from_dimensions-Shape n [] = (scalar n no_type (replicate n 0), refl, length-replicate n 0)
init_from_dimensions-Shape n (m ∷ ds) =
    let (w, e, s) = init_from_dimensions-Shape m ds in
    let (vs, f, c, q) = make_children-Every (Shape (m ∷ ds)) n w s in
    (vector n no_type vs, rw (e, f) refl, (c, q))

size_all-Every : (k : ℕ) (vs : Vectors) → Every (λ v. size v ≡ k) vs → size_all vs ≡ count vs * k
unfolding size count
size_all-Every k nil e = omega arith
size_all-Every k (cons v vs) e = omega (arith, size_all-Every k vs e.1, e.0)

Every-map :
    {P Q : Vector → Type 0} (f : (v : Vector) → P v → Q v) (vs : Vectors) → Every P vs → Every Q vs
Every-map f nil e = tt
Every-map f (cons v vs) e = (f v e.0, Every-map f vs e.1)

-- The size of a matrix is the product of its dimensions.
pub size-Shape : (ds : List ℕ) (v : Vector) → Shape ds v → size v ≡ product ds
unfolding size product
size-Shape [] v s = absurd s
size-Shape (n ∷ []) (scalar max ty vals) s = omega (arith, s)
size-Shape (n ∷ []) unknown s = absurd s
size-Shape (n ∷ []) (vector max ty vs) s = absurd s
size-Shape (n ∷ m ∷ ds) unknown s = absurd s
size-Shape (n ∷ m ∷ ds) (scalar max ty vals) s = absurd s
size-Shape (n ∷ m ∷ ds) (vector max ty vs) s =
    size_all-Every (product (m ∷ ds)) vs (Every-map (size-Shape (m ∷ ds)) vs s.1)
    ∙ ap (λ k. k * product (m ∷ ds)) s.0

count-set_child : (vs : Vectors) (i : ℕ) (w : Vector) → count (set_child vs i w) ≡ count vs
unfolding count set_child
count-set_child nil i w = refl
count-set_child (cons v vs) zero w = refl
count-set_child (cons v vs) (suc i) w = ap suc (count-set_child vs i w)

Every-set_child :
    (P : Vector → Type 0) (vs : Vectors) (i : ℕ) (w : Vector)
    → Every P vs
    → P w
    → Every P (set_child vs i w)
unfolding set_child
Every-set_child P nil i w e p = tt
Every-set_child P (cons v vs) zero w e p = (p, e.1)
Every-set_child P (cons v vs) (suc i) w e p = (e.0, Every-set_child P vs i w e.1 p)

child-Every :
    (P : Vector → Type 0) (vs : Vectors) (i : ℕ) (w : Vector)
    → Every P vs
    → child vs i ≡ some w
    → P w
unfolding child
child-Every P nil i w e h = cc
child-Every P (cons v vs) zero w e h = rw (some-eq h) at e.0
  where
    some-eq : some v ≡ some w → v ≡ w
    some-eq h = cc
child-Every P (cons v vs) (suc i) w e h = child-Every P vs i w e.1 h

write_slot-Shape :
    (n i slot : ℕ) (ty : ArrayType) (v w : Vector)
    → Shape (n ∷ []) v
    → write_slot v i slot ty ≡ ok w
    → Shape (n ∷ []) w
write_slot-Shape n i slot ty unknown w s e = absurd s
write_slot-Shape n i slot ty (vector max old vs) w s e = absurd s
write_slot-Shape n i slot ty (scalar max old vals) unknown s e = cc
write_slot-Shape n i slot ty (scalar max old vals) (vector _ _ _) s e = cc
write_slot-Shape n i slot ty (scalar max old vals) (scalar _ _ vals') s e =
    ground (arith, length-set vals i slot)

vector_child-cases :
    (n m i : ℕ) (ds : List ℕ) (v w : Vector)
    → Shape (n ∷ m ∷ ds) v
    → vector_child v i ≡ ok w
    → Shape (m ∷ ds) w × ((w' : Vector) → Shape (m ∷ ds) w' → Shape (n ∷ m ∷ ds) (put_child v i w'))
vector_child-cases n m i ds unknown w s e = absurd s
vector_child-cases n m i ds (scalar max ty vals) w s e = absurd s
vector_child-cases n m i ds (vector max ty vs) w s e = go (child vs i) refl
  where
    go :
        (c : Option Vector)
        → child vs i ≡ c
        → Shape (m ∷ ds) w
          × ((w' : Vector)
              → Shape (m ∷ ds) w'
              → Shape (n ∷ m ∷ ds) (put_child (vector max ty vs) i w'))
    go c f = (
      child-Every (Shape (m ∷ ds)) vs i w s.1 (ground arith),
      λ w' s'. (count-set_child vs i w' ∙ s.0, Every-set_child (Shape (m ∷ ds)) vs i w' s.1 s'),
    )

-- A successful setindex keeps the shape, whatever the bounds and indices.
pub set_index-Shape :
    (ds : List ℕ) (v w : Vector) (slot : ℕ) (ty : ArrayType) (is : List ℤ) (bs : List Bound)
    → Shape ds v
    → length is ≡ length ds
    → set_index v slot ty is bs ≡ ok w
    → Shape ds w
unfolding set_index
set_index-Shape [] v w slot ty is bs s l e = absurd s
set_index-Shape (n ∷ ds) v w slot ty [] bs s l e = absurd (omega arith)
set_index-Shape (n ∷ []) v w slot ty (i ∷ []) bs s l e =
    let (k, _, f) = >>=-eq-ok (offset i (first_lower bs) (get_length v)) _ e in
    write_slot-Shape n k slot ty v w s f
set_index-Shape (n ∷ []) v w slot ty (i ∷ j ∷ is) bs s l e = absurd (omega arith)
set_index-Shape (n ∷ m ∷ ds) v w slot ty (i ∷ []) bs s l e = absurd (omega arith)
set_index-Shape (n ∷ m ∷ ds) v w slot ty (i ∷ j ∷ is) bs s l e =
    let (k, _, f) = >>=-eq-ok (offset i (first_lower bs) (get_length v)) _ e in
    let (c, g, h) = >>=-eq-ok (vector_child v k) _ f in
    let (c', p, q) = >>=-eq-ok (set_index c slot ty (j ∷ is) (rest_bounds bs)) _ h in
    let (sc, keep) = vector_child-cases n m k ds v c s g in
    let sc' = set_index-Shape (m ∷ ds) c c' slot ty (j ∷ is) (rest_bounds bs) sc (omega arith) p in
    subst (Shape (n ∷ m ∷ ds)) (ok-eq q) (keep c' sc')
  where
    ok-eq : {a b : Vector} → ok a ≡ ok b → a ≡ b
    ok-eq h = cc
