-- ===== src/SafeArray/Fill.antt =====
-- safearray_lua2com and safearray_com2lua (src/library/tLuaCOMTypeHandler.cpp): the loops that
-- copy the elements between a vector and a safearray.
use luacom.Prelude.{
  ℕ, zero, suc, ◌≤◌, ◌<◌, ◌≡◌, refl, sym, ap, ◌∙◌, Bool, true, false, List, [], ◌∷◌, ◌++◌, map,
  reverse, Option, none, some, if◌then◌else◌, ◌==◌, Bool-cases, inl, inr,
}
use luacom.Prelude.Int.{ℤ, pos}
use luacom.Prelude.Result.{ok_eq, Result, ok, ◌>>=◌, >>=-eq-ok}
use luacom.Vector.{
  Vector, ArrayType, Bound, first_lower, get_length, get_index, set_index, get_dimensions,
  get_nth_dimension, init_from_dimensions,
}
use luacom.SafeArray.{inc_indices, visit, first_indices, dimensions_from_bounds}
use luacom.SafeArray.Rank.{total, AllInLong}
use luacom.SafeArray.Walk.{place, from_to, visit-places}

-- The loop that initialises the bounds, from the last dimension down to the first.
pub bounds_down : Vector → ℕ → Result (List Bound)
bounds_down v zero = ok []
bounds_down v (suc k) = do
  n ← get_nth_dimension v (suc k)
  bs ← bounds_down v k
  ok (bs ++ record { elements = n; lower = pos 0 } ∷ [])

abbrev pub add_put {ℓ} : {A : Type ℓ} → A → Option (List A) → Option (List A)
add_put a none = none
add_put a (some l) = some (a ∷ l)

-- `lua2com` converts the value in a stack slot.
module _ {A : Type 0} (lua2com : ℕ → Result A) where
  -- The loop over the elements. The result lists what is put in the safearray, with the indices;
  -- `none` means that the fuel ran out.
  unfoldable pub put_elements :
      ℕ → Vector → List ℤ → List Bound → Result (Option (List (List ℤ × A)))
  put_elements zero v indices bounds = ok none
  put_elements (suc fuel) v indices bounds = do
    slot ← get_index v indices (first_lower bounds)
    value ← lua2com slot
    let step = inc_indices indices bounds in
        let rest = put_elements fuel v step.0 bounds in
        if step.1
        then rest >>= (λ l. ok (add_put (indices, value) l))
        else ok (some ((indices, value) ∷ []))

  pub lua2com_elements : ℕ → Vector → Result (Option (List (List ℤ × A)))
  unfolding put_elements bounds_down get_length first_indices
  lua2com_elements fuel v = if get_length v == 0 then ok (some []) else do
    dimensions ← get_dimensions v
    bounds ← bounds_down v dimensions
    put_elements fuel v (first_indices bounds) bounds

-- `get_from_array` pushes an element on the Lua stack: its slot, and the type of the value.
module _ (get_from_array : List ℤ → Result (ℕ × ArrayType)) where
  unfoldable pub set_elements : ℕ → Vector → List ℤ → List Bound → Result (Option Vector)
  set_elements zero v indices bounds = ok none
  set_elements (suc fuel) v indices bounds = do
    got ← get_from_array indices
    w ← set_index v got.0 got.1 indices bounds
    let step = inc_indices indices bounds in
        let rest = set_elements fuel w step.0 bounds in if step.1 then rest else ok (some w)

  -- On bounds that are not empty and whose numbers of elements a long holds, where the Lua stack
  -- has room.
  pub com2lua_vector : ℕ → List Bound → Result (Option Vector)
  unfolding set_elements first_indices dimensions_from_bounds
  com2lua_vector fuel bounds = do
    v ← init_from_dimensions (map pos (dimensions_from_bounds bounds))
    set_elements fuel v (first_indices bounds) bounds

taken {ℓ} : {A : Type ℓ} (x y : A) {r : A} (b : Bool) → b ≡ true → (if b then x else y) ≡ r → x ≡ r
taken x y true t e = e
taken x y false t e = absurd cc

left {ℓ} : {A : Type ℓ} (x y : A) {r : A} (b : Bool) → b ≡ false → (if b then x else y) ≡ r → y ≡ r
left x y true t e = absurd cc
left x y false t e = e

-- The indices of what is put.
abbrev visited : {A : Type 0} → Option (List (List ℤ × A)) → Option (List (List ℤ))
visited none = none
visited (some l) = some (map (λ p. p.0) l)

visited-add_put :
    {A : Type 0} (is : List ℤ) (a : A) (r : Option (List (List ℤ × A)))
    → visited (add_put (is, a) r)
      ≡ elim (visited r) [ none ↦ none | some later ↦ some (is ∷ later) ]
visited-add_put is a none = refl
visited-add_put is a (some l) = refl

module _ {A : Type 0} (lua2com : ℕ → Result A) where
  put_elements-visit :
      (fuel : ℕ) (v : Vector) (is : List ℤ) (bs : List Bound) (r : Option (List (List ℤ × A)))
      → put_elements lua2com fuel v is bs ≡ ok r
      → visit fuel is bs ≡ visited r
  unfolding put_elements visit
  put_elements-visit zero v is bs r e = ap visited (ok_eq e)
  put_elements-visit (suc fuel) v is bs r e =
      let (slot, _, f) = >>=-eq-ok (get_index v is (first_lower bs)) _ e in
      let (value, _, g) = >>=-eq-ok (lua2com slot) _ f in
      elim (Bool-cases (inc_indices is bs).1) [
        | inl more ↦
            let (later, p, q) =
              >>=-eq-ok (put_elements lua2com fuel v (inc_indices is bs).0 bs) _
                (taken _ _ (inc_indices is bs).1 more g) in
            let ih = put_elements-visit fuel v (inc_indices is bs).0 bs later p in
            rw (more, ih) (sym (visited-add_put is value later) ∙ ap visited (ok_eq q))
        | inr last ↦ rw last (ap visited (ok_eq (left _ _ (inc_indices is bs).1 last g)))
      ]

  -- Where the bounds have elements, a long holds them, and the fuel is at least their number, the loop of
  -- safearray_lua2com over a vector, if no conversion or access fails, has put an element at each
  -- place of the safearray, once and in the order of the places: it does not run out of fuel.
  pub put_elements-places :
      (fuel : ℕ) (v : Vector) (bs : List Bound) (r : Option (List (List ℤ × A)))
      → AllInLong (reverse bs)
      → 0 < total (reverse bs)
      → total (reverse bs) ≤ fuel
      → put_elements lua2com fuel v (first_indices bs) bs ≡ ok r
      → (l : List (List ℤ × A)) × (r ≡ some l)
        × (map (λ p. place bs p.0) l ≡ from_to 0 (total (reverse bs)))
  put_elements-places fuel v bs r w h f e =
      let (is, g, m) = visit-places fuel bs w h f in
      let (l, s, same) = put r is (sym (put_elements-visit fuel v (first_indices bs) bs r e) ∙ g) in
      (l, s, sym (map-map l) ∙ (ap (map (place bs)) same ∙ m))
    where
      put :
          (t : Option (List (List ℤ × A))) (is : List (List ℤ))
          → visited t ≡ some is
          → (l : List (List ℤ × A)) × (t ≡ some l) × (map (λ p. p.0) l ≡ is)
      put none is q = absurd cc
      put (some l) is q = (l, refl, cc)

      map-map :
          (k : List (List ℤ × A)) → map (place bs) (map (λ p. p.0) k) ≡ map (λ p. place bs p.0) k
      map-map [] = refl
      map-map (p ∷ k) = ap (◌∷◌ (place bs p.0)) (map-map k)
