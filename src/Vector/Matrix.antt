-- ===== src/Vector/Matrix.antt =====
-- Which tables InitVectorFromTable accepts: every matrix becomes a vector of its shape.
use luacom.Prelude.{
  ℕ, suc, ◌+◌, ◌<◌, ◌≡◌, refl, sym, ap, ◌∙◌, Bool, true, List, [], ◌∷◌, ◌++◌, arith, ==_refl,
  length, length-append,
}
use luacom.Prelude.Result.{Result, ok}
use luacom.Vector.{
  ArrayType, Vector, unknown, scalar, vector, Vectors, nil, cons, count, append, get_length,
  get_type,
}
use luacom.Vector.Load.{
  tab, num, str, other_value, object, user, Items, end, raise, then_item, expect_vector, last_child,
  push_child, push_value, Stack, load_items,
}
use luacom.Vector.Shape.{Shape, Every, Positive, get_length-Shape}

abbrev pub size_items : Items → ℕ
size_items end = 0
size_items raise = 0
size_items (then_item x xs) = suc (size_items xs)

-- No element is a table, and no metamethod raises an error.
abbrev pub Scalars : Items → Type 0
Scalars end = Unit {0}
Scalars raise = ⊥
Scalars (then_item (tab ys) xs) = ⊥
Scalars (then_item (num n) xs) = Scalars xs
Scalars (then_item (str n) xs) = Scalars xs
Scalars (then_item (other_value n) xs) = Scalars xs
Scalars (then_item (object ys) xs) = Scalars xs
Scalars (then_item (user ys) xs) = Scalars xs

-- Every element is a table of the kind, and no metamethod raises an error.
abbrev pub Tables : (Items → Type 0) → Items → Type 0
Tables P end = Unit {0}
Tables P raise = ⊥
Tables P (then_item (tab ys) xs) = P ys × Tables P xs
Tables P (then_item (num n) xs) = ⊥
Tables P (then_item (str n) xs) = ⊥
Tables P (then_item (other_value n) xs) = ⊥
Tables P (then_item (object ys) xs) = ⊥
Tables P (then_item (user ys) xs) = ⊥

-- The table is a matrix with so many elements in each dimension.
abbrev pub Matrix : List ℕ → Items → Type 0
Matrix [] xs = ⊥
Matrix (n ∷ []) xs = (size_items xs ≡ n) × Scalars xs
Matrix (n ∷ m ∷ ds) xs = (size_items xs ≡ n) × Tables (Matrix (m ∷ ds)) xs

abbrev pub always : ℕ → Bool
always n = true

-- The outcome of a load that succeeds with a vector of the shape.
abbrev pub Loaded : List ℕ → Result (Vector × Stack) → Type 0
Loaded ds r = (v : Vector) × (st : Stack) × (r ≡ ok (v, st)) × Shape ds v

count-append : (vs : Vectors) (w : Vector) → count (append vs w) ≡ suc (count vs)
unfolding count append
count-append nil w = refl
count-append (cons v vs) w = ap suc (count-append vs w)

Every-append :
    (P : Vector → Type 0) (vs : Vectors) (w : Vector) → Every P vs → P w → Every P (append vs w)
unfolding append
Every-append P nil w e p = (p, tt)
Every-append P (cons v vs) w e p = (e.0, Every-append P vs w e.1 p)

last_child-Every :
    (P : Vector → Type 0) (v : Vector) (vs : Vectors) → P v → Every P vs → P (last_child v vs)
unfolding last_child
last_child-Every P v nil p e = p
last_child-Every P v (cons w vs) p e = last_child-Every P w vs e.0 e.1

module _ (base : ℕ) where
  more-Scalars :
      (xs : Items) (n max s : ℕ) (ty : ArrayType) (ss : List ℕ) (st : Stack)
      → Scalars xs
      → suc (length ss) + size_items xs ≡ n
      → Loaded (n ∷ []) (load_items always base xs (scalar max ty (s ∷ ss)) st)
  unfolding load_items push_value
  more-Scalars end n max s ty ss st h e = (scalar max ty (s ∷ ss), st, refl, omega arith)
  more-Scalars raise n max s ty ss st h e = absurd h
  more-Scalars (then_item (tab ys) xs) n max s ty ss st h e = absurd h
  more-Scalars (then_item x xs) n max s ty ss st h e =
      more-Scalars xs n _ s _ _ _ h (omega (arith, length-append ss ((base + length st + 1) ∷ [])))

  load_items-Scalars :
      (xs : Items) (n : ℕ) (st : Stack)
      → Scalars xs
      → size_items xs ≡ n
      → 0 < n
      → Loaded (n ∷ []) (load_items always base xs unknown st)
  unfolding load_items push_value
  load_items-Scalars end n st h e p = absurd (omega arith)
  load_items-Scalars raise n st h e p = absurd h
  load_items-Scalars (then_item (tab ys) xs) n st h e p = absurd h
  load_items-Scalars (then_item x xs) n st h e p = more-Scalars xs n _ _ _ _ _ h (omega arith)

  -- One level up: `loads` is what is known of the children.
  module _ (m : ℕ) (ds : List ℕ)
      (loads : (xs : Items) (st : Stack)
        → Matrix (m ∷ ds) xs
        → Loaded (m ∷ ds) (load_items always base xs unknown st)) where
    more-Tables :
        (xs : Items) (n max : ℕ) (ty : ArrayType) (v : Vector) (vs : Vectors) (st : Stack)
        → Tables (Matrix (m ∷ ds)) xs
        → Shape (m ∷ ds) v
        → Every (Shape (m ∷ ds)) vs
        → suc (count vs) + size_items xs ≡ n
        → Loaded (n ∷ m ∷ ds) (load_items always base xs (vector max ty (cons v vs)) st)
    unfolding load_items push_child expect_vector count append
    more-Tables end n max ty v vs st h s es e =
        (vector max ty (cons v vs), st, refl, (omega arith, (s, es)))
    more-Tables raise n max ty v vs st h s es e = absurd h
    more-Tables (then_item (num _) xs) n max ty v vs st h s es e = absurd h
    more-Tables (then_item (str _) xs) n max ty v vs st h s es e = absurd h
    more-Tables (then_item (other_value _) xs) n max ty v vs st h s es e = absurd h
    more-Tables (then_item (object _) xs) n max ty v vs st h s es e = absurd h
    more-Tables (then_item (user _) xs) n max ty v vs st h s es e = absurd h
    more-Tables (then_item (tab ys) xs) n max ty v vs st h s es e =
        let (w, st', f, sw) = loads ys (st ++ tab ys ∷ []) h.0 in
        let same : get_length w ≡ get_length (last_child v vs) =
          get_length-Shape m ds w sw
          ∙ sym (get_length-Shape m ds _ (last_child-Every (Shape (m ∷ ds)) v vs s es)) in
        rw (f, same, ==_refl (get_length (last_child v vs)))
          (more-Tables xs n _ _ v (append vs w) st' h.1 s (Every-append (Shape (m ∷ ds)) vs w es sw)
            (omega (arith, count-append vs w)))

    load_items-Tables :
        (xs : Items) (n : ℕ) (st : Stack)
        → Tables (Matrix (m ∷ ds)) xs
        → size_items xs ≡ n
        → 0 < n
        → Loaded (n ∷ m ∷ ds) (load_items always base xs unknown st)
    unfolding load_items push_child expect_vector count
    load_items-Tables end n st h e p = absurd (omega arith)
    load_items-Tables raise n st h e p = absurd h
    load_items-Tables (then_item (num _) xs) n st h e p = absurd h
    load_items-Tables (then_item (str _) xs) n st h e p = absurd h
    load_items-Tables (then_item (other_value _) xs) n st h e p = absurd h
    load_items-Tables (then_item (object _) xs) n st h e p = absurd h
    load_items-Tables (then_item (user _) xs) n st h e p = absurd h
    load_items-Tables (then_item (tab ys) xs) n st h e p =
        let (w, st', f, sw) = loads ys (st ++ tab ys ∷ []) h.0 in
        rw f (more-Tables xs n 10 (get_type w) w nil st' h.1 sw tt (omega arith))

  -- Where the Lua stack has room, a table that is a matrix with no empty dimension is accepted,
  -- and the vector has its shape.
  pub load_items-Matrix :
      (ds : List ℕ) (xs : Items) (st : Stack)
      → Matrix ds xs
      → Positive ds
      → Loaded ds (load_items always base xs unknown st)
  load_items-Matrix [] xs st h p = absurd h
  load_items-Matrix (n ∷ []) xs st h p = load_items-Scalars xs n st h.1 h.0 p.0
  load_items-Matrix (n ∷ m ∷ ds) xs st h p =
      load_items-Tables m ds (λ ys st' g. load_items-Matrix (m ∷ ds) ys st' g p.1) xs n st h.1 h.0
        p.0
