-- ===== src/Vector/Shape.antt =====
-- Vectors that are matrices: what the readers of tLuaVector return on them, and what
-- InitVectorFromDimensions and setindex make of them.
use luacom.Prelude.{
  ℕ, zero, suc, ◌*◌, ◌<◌, ◌≡◌, refl, ap, ◌∙◌, List, [], ◌∷◌, map, some, arith, length, get_elem?,
  get_elem?-lt,
}
use luacom.Prelude.Int.{ℤ, pos, ◌-ℤ◌}
use luacom.Prelude.Result.{ok}
use luacom.Vector.{
  ArrayType, Vector, unknown, scalar, vector, Vectors, nil, cons, count, child, get_length,
  get_dimensions, get_nth_dimension, offset, get_index,
}

abbrev pub Every {ℓ} : (Vector → Type ℓ) → Vectors → Type ℓ
Every P nil = Unit
Every P (cons v vs) = P v × Every P vs

-- A matrix with so many elements in each dimension, the outermost first.
abbrev pub Shape : List ℕ → Vector → Type 0
Shape [] v = ⊥
Shape (n ∷ []) (scalar max ty vals) = length vals ≡ n
Shape (n ∷ []) unknown = ⊥
Shape (n ∷ []) (vector max ty vs) = ⊥
Shape (n ∷ m ∷ ds) (vector max ty vs) = (count vs ≡ n) × Every (Shape (m ∷ ds)) vs
Shape (n ∷ m ∷ ds) unknown = ⊥
Shape (n ∷ m ∷ ds) (scalar max ty vals) = ⊥

abbrev pub Positive : List ℕ → Type 0
Positive [] = Unit {0}
Positive (n ∷ ds) = (0 < n) × Positive ds

-- One index for each dimension, below its number of elements.
abbrev pub InRange : List ℕ → List ℕ → Type 0
InRange [] [] = Unit {0}
InRange [] (n ∷ ds) = ⊥
InRange (i ∷ is) [] = ⊥
InRange (i ∷ is) (n ∷ ds) = (i < n) × InRange is ds

unfoldable pub product : List ℕ → ℕ
product [] = 1
product (n ∷ ds) = n * product ds

child-Every :
    {P : Vector → Type 0} (vs : Vectors) (i : ℕ)
    → Every P vs
    → i < count vs
    → (v : Vector) × (child vs i ≡ some v) × P v
unfolding child count
child-Every nil i e h = elim h [ ]
child-Every (cons v vs) zero e h = (v, refl, e.0)
child-Every (cons v vs) (suc i) e h = child-Every vs i e.1 (omega arith)

pub get_length-Shape : (n : ℕ) (ds : List ℕ) (v : Vector) → Shape (n ∷ ds) v → get_length v ≡ n
unfolding get_length
get_length-Shape n [] (scalar max ty vals) s = s
get_length-Shape n [] unknown s = absurd s
get_length-Shape n [] (vector max ty vs) s = absurd s
get_length-Shape n (m ∷ ds) (vector max ty vs) s = s.0
get_length-Shape n (m ∷ ds) unknown s = absurd s
get_length-Shape n (m ∷ ds) (scalar max ty vals) s = absurd s

-- get_Dimensions of a matrix without an empty dimension is the number of its dimensions.
pub get_dimensions-Shape :
    (ds : List ℕ) (v : Vector) → Shape ds v → Positive ds → get_dimensions v ≡ ok (length ds)
unfolding get_dimensions count
get_dimensions-Shape [] v s p = absurd s
get_dimensions-Shape (n ∷ []) unknown s p = absurd s
get_dimensions-Shape (n ∷ []) (vector max ty vs) s p = absurd s
get_dimensions-Shape (n ∷ []) (scalar max ty []) s p = absurd (omega (arith, p.0))
get_dimensions-Shape (n ∷ []) (scalar max ty (x ∷ xs)) s p = refl
get_dimensions-Shape (n ∷ m ∷ ds) unknown s p = absurd s
get_dimensions-Shape (n ∷ m ∷ ds) (scalar max ty vals) s p = absurd s
get_dimensions-Shape (n ∷ m ∷ ds) (vector max ty nil) s p = absurd (omega (arith, p.0, s.0))
get_dimensions-Shape (n ∷ m ∷ ds) (vector max ty (cons v vs)) s p =
    rw (get_dimensions-Shape (m ∷ ds) v s.1.0 p.1) (ap ok (omega arith))

-- get_Nth_Dimension of a matrix without an empty dimension is that dimension, counted from 1.
pub get_nth_dimension-Shape :
    (k d : ℕ) (ds : List ℕ) (v : Vector)
    → Shape ds v
    → Positive ds
    → get_elem? ds k ≡ some d
    → get_nth_dimension v (suc k) ≡ ok d
unfolding get_nth_dimension
get_nth_dimension-Shape k d [] v s p e = absurd s
get_nth_dimension-Shape zero d (n ∷ ds) v s p e = rw (get_length-Shape n ds v s) (cc)
get_nth_dimension-Shape (suc k) d (n ∷ []) v s p e = cc
get_nth_dimension-Shape (suc k) d (n ∷ m ∷ ds) unknown s p e = absurd s
get_nth_dimension-Shape (suc k) d (n ∷ m ∷ ds) (scalar max ty vals) s p e = absurd s
get_nth_dimension-Shape (suc k) d (n ∷ m ∷ ds) (vector max ty nil) s p e =
    absurd (unfold count in omega (arith, p.0, s.0))
get_nth_dimension-Shape (suc k) d (n ∷ m ∷ ds) (vector max ty (cons v vs)) s p e =
    get_nth_dimension-Shape k d (m ∷ ds) v s.1.0 p.1 e

pub offset-zero : (i n : ℕ) → i < n → offset (pos i) (pos 0) n ≡ ok i
unfolding offset ◌-ℤ◌
offset-zero i n h = ground arith

pub get_index-scalar :
    (i s max : ℕ) (ty : ArrayType) (vals : List ℕ)
    → get_elem? vals i ≡ some s
    → get_index (scalar max ty vals) (pos i ∷ []) (pos 0) ≡ ok s
unfolding get_index get_length
get_index-scalar i s max ty vals e =
    rw (offset-zero i (length vals) (get_elem?-lt_length vals i e)) (ground (arith, e))
  where
    get_elem?-lt_length : (xs : List ℕ) (i : ℕ) → get_elem? xs i ≡ some s → i < length xs
    get_elem?-lt_length [] i e = cc
    get_elem?-lt_length (x ∷ xs) zero e = omega arith
    get_elem?-lt_length (x ∷ xs) (suc i) e = omega (arith, get_elem?-lt_length xs i e)

child-lt : (vs : Vectors) (i : ℕ) (w : Vector) → child vs i ≡ some w → i < count vs
unfolding child count
child-lt nil i w e = cc
child-lt (cons v vs) zero w e = omega arith
child-lt (cons v vs) (suc i) w e = omega (arith, child-lt vs i w e)

pub get_index-vector :
    (i max : ℕ) (j : ℤ) (is : List ℤ) (ty : ArrayType) (vs : Vectors) (w : Vector)
    → child vs i ≡ some w
    → get_index (vector max ty vs) (pos i ∷ j ∷ is) (pos 0) ≡ get_index w (j ∷ is) (pos 0)
unfolding get_index get_length
get_index-vector i max j is ty vs w e =
    rw (offset-zero i (count vs) (child-lt vs i w e)) (ground (arith, e))

-- getindex finds a slot at all indices in range of a matrix, if the lower bound is 0.
pub get_index-Shape :
    (ds is : List ℕ) (v : Vector)
    → Shape ds v
    → InRange is ds
    → (s : ℕ) × (get_index v (map pos is) (pos 0) ≡ ok s)
unfolding get_index
get_index-Shape [] is v s r = absurd s
get_index-Shape (n ∷ ds) [] v s r = absurd r
get_index-Shape (n ∷ []) (i ∷ []) unknown s r = absurd s
get_index-Shape (n ∷ []) (i ∷ []) (vector max ty vs) s r = absurd s
get_index-Shape (n ∷ []) (i ∷ []) (scalar max ty vals) s r =
    let (a, e) = get_elem?-lt vals i (omega (arith, r.0)) in (a, get_index-scalar i a max ty vals e)
get_index-Shape (n ∷ []) (i ∷ j ∷ is) v s r = absurd r.1
get_index-Shape (n ∷ m ∷ ds) (i ∷ []) v s r = absurd r.1
get_index-Shape (n ∷ m ∷ ds) (i ∷ j ∷ is) unknown s r = absurd s
get_index-Shape (n ∷ m ∷ ds) (i ∷ j ∷ is) (scalar max ty vals) s r = absurd s
get_index-Shape (n ∷ m ∷ ds) (i ∷ j ∷ is) (vector max ty vs) s r =
    let (w, e, sw) = child-Every vs i s.1 (omega (arith, s.0, r.0)) in
    let (a, f) = get_index-Shape (m ∷ ds) (j ∷ is) w sw r.1 in
    (a, get_index-vector i max (pos j) (map pos is) ty vs w e ∙ f)
