-- ===== src/Vector/Ragged.antt =====
-- Tables that are no matrices and that InitVectorFromTable accepts: it compares the number of
-- elements of neighbouring children, and not how deep they are.
use luacom.Prelude.{
  ℕ, ◌<◌, ◌≡◌, refl, sym, ap, ◌∙◌, List, [], ◌∷◌, ◌++◌, arith, ==_refl, if◌then◌else◌,
}
use luacom.Prelude.Int.{pos}
use luacom.Prelude.Result.{ok, fault}
use luacom.Vector.{
  Vector, unknown, scalar, vector, nil, cons, count, child, append, same_type, many, get_length,
  get_type, get_dimensions, get_nth_dimension, get_index,
}
use luacom.Vector.Load.{
  tab, Items, end, then_item, expect_vector, grow, last_child, push_child, Stack, load_items,
}
use luacom.Vector.Shape.{
  Shape, Positive, get_length-Shape, get_index-vector, offset-zero, get_dimensions-Shape,
}
use luacom.Vector.Matrix.{Matrix, always, load_items-Matrix}

-- getindex with one index at a vector of vectors reads `luavals`, which is null.
null_read :
    (n m j : ℕ) (ds : List ℕ) (v : Vector)
    → Shape (n ∷ m ∷ ds) v
    → j < n
    → get_index v (pos j ∷ []) (pos 0) ≡ fault
unfolding get_index
null_read n m j ds unknown s h = absurd s
null_read n m j ds (scalar max ty vals) s h = absurd s
null_read n m j ds (vector max ty vs) s h =
    rw (get_length-Shape n (m ∷ ds) (vector max ty vs) s, offset-zero j n h) refl

-- Where the Lua stack has room: a table of two tables with the same number of elements, the first
-- a row of values and the second a deeper matrix, is accepted. The vector reports two dimensions,
-- those of its first row, and getindex at every element of the second row reads through a null
-- pointer.
pub ragged_null_read :
    (base m k j : ℕ) (ds : List ℕ) (xs ys : Items) (st : Stack)
    → Matrix (m ∷ []) xs
    → Matrix (m ∷ k ∷ ds) ys
    → j < m
    → Positive (k ∷ ds)
    → (v : Vector) × (st' : Stack) × (load_items always base
          (then_item (tab xs) (then_item (tab ys) end))
          unknown
          st
        ≡ ok (v, st'))
      × (get_dimensions v ≡ ok 2)
      × (get_nth_dimension v 1 ≡ ok 2)
      × (get_nth_dimension v 2 ≡ ok m)
      × (get_index v (pos 1 ∷ pos j ∷ []) (pos 0) ≡ fault)
unfolding load_items push_child expect_vector get_dimensions get_nth_dimension append last_child
    count child get_length
ragged_null_read base m k j ds xs ys st hx hy h pk =
    let pm : 0 < m = omega arith in
    let (v, st₁, f, sv) = load_items-Matrix base (m ∷ []) xs (st ++ tab xs ∷ []) hx (pm, tt) in
    let (w, st₂, g, sw) = load_items-Matrix base (m ∷ k ∷ ds) ys (st₁ ++ tab ys ∷ []) hy (pm, pk) in
    let same : get_length w ≡ get_length v =
      get_length-Shape m (k ∷ ds) w sw ∙ sym (get_length-Shape m [] v sv) in
    let both : Vector =
      vector (grow 1 10) (if same_type (get_type w) (get_type v) then get_type v else many)
        (cons v (cons w nil)) in
    (
      both,
      st₂,
      rw (f, g, same, ==_refl (get_length v)) refl,
      rw (get_dimensions-Shape (m ∷ []) v sv (pm, tt)) refl,
      refl,
      ap ok (get_length-Shape m [] v sv),
      get_index-vector 1 _ (pos j) [] _ (cons v (cons w nil)) w refl ∙ null_read m k j ds w sw h,
    )
