-- ===== src/Vector/Access.antt =====
-- Reading a vector that InitVectorFromTable made: `getindex` returns the stack index of the
-- element that the same indices select in the table.
use luacom.Prelude.{
  ℕ, zero, suc, ◌+◌, ◌≡◌, refl, subst, Bool, List, [], ◌∷◌, map, Option, none, some, arith,
  get_elem?,
}
use luacom.Prelude.Int.{pos, ◌-ℤ◌}
use luacom.Prelude.Result.{ok, >>=-eq-ok}
use luacom.Vector.{Vector, scalar, vector, Vectors, child, get_index, offset, child_at}
use luacom.Vector.Load.{
  LuaValue, tab, num, str, other_value, object, user, Items, Stack, init_from_table,
}
use luacom.Vector.Represents.{
  elements, At, Slots, no_slots, next_slot, Represents, nothing, scalars, children, Children,
  no_children, next_child, load_items-Represents,
}

abbrev pub items_of : LuaValue → List LuaValue
items_of (tab ys) = elements ys
items_of (user ys) = []
items_of (num n) = []
items_of (str n) = []
items_of (other_value n) = []
items_of (object ys) = []

-- t[i + 1][j + 1]...
unfoldable pub element_at : List LuaValue → List ℕ → Option LuaValue
element_at xs [] = none
element_at xs (i ∷ []) = get_elem? xs i
element_at xs (i ∷ j ∷ is) = elim (get_elem? xs i) [
  | none ↦ none
  | some x ↦ element_at (items_of x) (j ∷ is)
]

offset-pos : (i n k : ℕ) → offset (pos i) (pos 0) n ≡ ok k → k ≡ i
unfolding offset ◌-ℤ◌
offset-pos i n k h = ground arith

module _ (base : ℕ) where
  slot-Slots :
      (st : Stack) (ss : List ℕ) (xs : List LuaValue) (i s : ℕ)
      → Slots base st ss xs
      → get_elem? ss i ≡ some s
      → (x : LuaValue) × (get_elem? xs i ≡ some x) × At base st s x
  slot-Slots st _ _ i s no_slots e = cc
  slot-Slots st _ _ zero s (next_slot {x} (k, a, b) r) e = (x, refl, (k, ground arith, b))
  slot-Slots st _ _ (suc i) s (next_slot {ss} {xs} a r) e = slot-Slots st ss xs i s r e

  child-Children :
      (st : Stack) (vs : Vectors) (xs : List LuaValue) (i : ℕ) (w : Vector)
      → Children base st vs xs
      → child vs i ≡ some w
      → (x : LuaValue) × (get_elem? xs i ≡ some x) × Represents base st w (items_of x)
  unfolding child
  child-Children st _ _ i w no_children e = cc
  child-Children st _ _ zero w (next_child {v} {ys} r c) e =
      (tab ys, refl, subst (λ u. Represents base st u (elements ys)) (some-eq v e) r)
    where
      some-eq : (u : Vector) → some u ≡ some w → u ≡ w
      some-eq u h = cc
  child-Children st _ _ (suc i) w (next_child {vs} {xs} r c) e = child-Children st vs xs i w c e

  get_index-Represents :
      (st : Stack) (v : Vector) (xs : List LuaValue) (is : List ℕ) (s : ℕ)
      → Represents base st v xs
      → get_index v (map pos is) (pos 0) ≡ ok s
      → (x : LuaValue) × (element_at xs is ≡ some x) × At base st s x
  unfolding get_index element_at
  get_index-Represents st v xs [] s r e = cc
  get_index-Represents st _ xs (i ∷ []) s nothing e =
      let (k, _, f) = >>=-eq-ok (offset (pos i) (pos 0) _) _ e in cc
  get_index-Represents st _ xs (i ∷ []) s (children c) e =
      let (k, _, f) = >>=-eq-ok (offset (pos i) (pos 0) _) _ e in cc
  get_index-Represents st (scalar max ty ss) xs (i ∷ []) s (scalars r) e =
      let (k, o, f) = >>=-eq-ok (offset (pos i) (pos 0) _) _ e in
      slot-Slots st ss xs i s r (ground (arith, offset-pos i _ k o))
  get_index-Represents st _ xs (i ∷ j ∷ is) s nothing e =
      let (k, _, f) = >>=-eq-ok (offset (pos i) (pos 0) _) _ e in cc
  get_index-Represents st _ xs (i ∷ j ∷ is) s (scalars r) e =
      let (k, _, f) = >>=-eq-ok (offset (pos i) (pos 0) _) _ e in cc
  get_index-Represents st (vector max ty vs) xs (i ∷ j ∷ is) s (children c) e =
      let (k, o, f) = >>=-eq-ok (offset (pos i) (pos 0) _) _ e in
      let (w, g, h) = >>=-eq-ok (child_at (vector max ty vs) k) _ f in
      let found : child vs i ≡ some w = ground (arith, offset-pos i _ k o) in
      let (x, p, q) = child-Children st vs xs i w c found in
      let (y, a, b) = get_index-Represents st w (items_of x) (j ∷ is) s q h in
      (y, rw (p, element_at) a, b)

  -- A table that is loaded, whatever its form: where getindex finds a slot at some indices, from
  -- the lower bound 0, these select an element of the table, and the slot holds it.
  pub get_index-init_from_table :
      (room : ℕ → Bool) (xs : Items) (v : Vector) (st st' : Stack) (is : List ℕ) (s : ℕ)
      → init_from_table room base (tab xs) st ≡ ok (v, st')
      → get_index v (map pos is) (pos 0) ≡ ok s
      → (x : LuaValue) × (element_at (elements xs) is ≡ some x)
        × (k : ℕ) × (s ≡ base + k + 1)
        × (get_elem? st' k ≡ some x)
  unfolding init_from_table
  get_index-init_from_table room xs v st st' is s e f =
      let r = (load_items-Represents base room xs Vector.unknown v st st' [] nothing e).0 in
      let (x, a, (k, b, c)) = get_index-Represents st' v (elements xs) is s r f in (x, a, k, b, c)
