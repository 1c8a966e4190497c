-- ===== src/Vector/Represents.antt =====
-- What InitVectorFromTable promises: the vector's slots are those of the table's elements on the
-- Lua stack, element by element and level by level.
use luacom.Prelude.{
  ℕ, zero, suc, ◌+◌, ◌≡◌, refl, sym, subst, Bool, List, [], ◌∷◌, ◌++◌, append_assoc, append-nil,
  some, arith, if◌then◌else◌, length, get_elem?, get_elem?-append_last,
}
use luacom.Prelude.Result.{ok, check, typeconv_error, >>=-eq-ok}
use luacom.Vector.{
  Vector, unknown, scalar, vector, Vectors, nil, cons, append, count, same_type, get_type, many,
  ArrayType,
}
use luacom.Vector.Load.{
  LuaValue, tab, Items, end, raise, then_item, grow, expect_vector, last_child, push_child,
  push_value, Stack, load_items,
}

-- The values that a table yields.
abbrev pub elements : Items → List LuaValue
elements end = []
elements raise = []
elements (then_item x rest) = x ∷ elements rest

-- The later stack holds all that the earlier one held, where it held it.
abbrev pub Extends : Stack → Stack → Type 0
Extends st st' = (k : ℕ) (x : LuaValue) → get_elem? st k ≡ some x → get_elem? st' k ≡ some x

Extends-push : (st : Stack) (x : LuaValue) → Extends st (st ++ x ∷ [])
Extends-push [] x k y h = cc
Extends-push (z ∷ st) x zero y h = h
Extends-push (z ∷ st) x (suc k) y h = Extends-push st x k y h

pub ok-eq {ℓ} : {A : Type ℓ} {a b : A} → ok a ≡ ok b → a ≡ b
ok-eq h = cc

pub push_child-vector :
    (max : ℕ) (ty : ArrayType) (v : Vector) (vs : Vectors) (w acc : Vector)
    → push_child (vector max ty (cons v vs)) w ≡ ok acc
    → acc
      ≡ vector
          (grow (suc (count vs)) max)
          (if same_type (get_type w) (get_type (last_child v vs)) then ty else many)
          (cons v (append vs w))
unfolding push_child
push_child-vector max ty v vs w acc e = ground arith

module _ (base : ℕ) where
  -- The stack index holds the value.
  abbrev pub At : Stack → ℕ → LuaValue → Type 0
  At st s x = (k : ℕ) × (s ≡ base + k + 1) × (get_elem? st k ≡ some x)

  pub data Slots (st : Stack) : List ℕ → List LuaValue → Type 0 where
    no_slots : Slots st [] []
    next_slot :
        {s : ℕ} {x : LuaValue} {ss : List ℕ} {xs : List LuaValue}
        → At st s x
        → Slots st ss xs
        → Slots st (s ∷ ss) (x ∷ xs)

  -- The vector stands for the values: each is the one in the element's slot, or a table that the
  -- element, a child, stands for.
  mutual
    pub data Represents (st : Stack) : Vector → List LuaValue → Type 0 where
      nothing : Represents st unknown []
      scalars :
          {max : ℕ} {ty : ArrayType} {ss : List ℕ} {xs : List LuaValue}
          → Slots st ss xs
          → Represents st (scalar max ty ss) xs
      children :
          {max : ℕ} {ty : ArrayType} {vs : Vectors} {xs : List LuaValue}
          → Children st vs xs
          → Represents st (vector max ty vs) xs

    pub data Children (st : Stack) : Vectors → List LuaValue → Type 0 where
      no_children : Children st nil []
      next_child :
          {v : Vector} {vs : Vectors} {ys : Items} {xs : List LuaValue}
          → Represents st v (elements ys)
          → Children st vs xs
          → Children st (cons v vs) (tab ys ∷ xs)

  Slots-mono :
      {st st' : Stack} {ss : List ℕ} {xs : List LuaValue}
      → Extends st st'
      → Slots st ss xs
      → Slots st' ss xs
  Slots-mono e no_slots = no_slots
  Slots-mono e (next_slot {x} (k, i, h) r) = next_slot (k, i, e k x h) (Slots-mono e r)

  mutual
    Represents-mono :
        {st st' : Stack} {v : Vector} {xs : List LuaValue}
        → Extends st st'
        → Represents st v xs
        → Represents st' v xs
    Represents-mono e nothing = nothing
    Represents-mono e (scalars s) = scalars (Slots-mono e s)
    Represents-mono e (children c) = children (Children-mono e c)

    Children-mono :
        {st st' : Stack} {vs : Vectors} {xs : List LuaValue}
        → Extends st st'
        → Children st vs xs
        → Children st' vs xs
    Children-mono e no_children = no_children
    Children-mono e (next_child r c) = next_child (Represents-mono e r) (Children-mono e c)

  Represents-eq :
      {st : Stack} {v w : Vector} {xs : List LuaValue}
      → v ≡ w
      → Represents st v xs
      → Represents st w xs
  Represents-eq {st} {xs} e r = subst (λ v. Represents st v xs) e r

  Slots-snoc :
      {st : Stack} {ss : List ℕ} {xs : List LuaValue} (s : ℕ) (x : LuaValue)
      → Slots st ss xs
      → At st s x
      → Slots st (ss ++ s ∷ []) (xs ++ x ∷ [])
  Slots-snoc s x no_slots a = next_slot a no_slots
  Slots-snoc s x (next_slot b r) a = next_slot b (Slots-snoc s x r a)

  Children-snoc :
      {st : Stack} {vs : Vectors} {xs : List LuaValue} (w : Vector) (ys : Items)
      → Children st vs xs
      → Represents st w (elements ys)
      → Children st (append vs w) (xs ++ tab ys ∷ [])
  unfolding append
  Children-snoc w ys no_children r = next_child r no_children
  Children-snoc w ys (next_child q c) r = next_child q (Children-snoc w ys c r)

  push_value-Represents :
      {st : Stack} (acc acc' : Vector) (x : LuaValue) (s : ℕ) (ys : List LuaValue)
      → Represents st acc ys
      → At st s x
      → push_value acc x s ≡ ok acc'
      → Represents st acc' (ys ++ x ∷ [])
  unfolding push_value
  push_value-Represents unknown acc' x s _ nothing a e =
      Represents-eq (ok-eq e) (scalars (next_slot a no_slots))
  push_value-Represents (scalar max ty _) acc' x s _ (scalars no_slots) a e = cc
  push_value-Represents (scalar max ty _) acc' x s _ (scalars (next_slot b r)) a e =
      Represents-eq (ok-eq e) (scalars (Slots-snoc s x (next_slot b r) a))
  push_value-Represents (vector max ty vs) acc' x s _ (children c) a e = cc

  push_child-Represents :
      {st : Stack} (acc acc' w : Vector) (xs : Items) (ys : List LuaValue)
      → Represents st acc ys
      → Represents st w (elements xs)
      → push_child acc w ≡ ok acc'
      → Represents st acc' (ys ++ tab xs ∷ [])
  unfolding push_child
  push_child-Represents unknown acc' w xs _ nothing q e =
      Represents-eq (ok-eq e) (children (next_child q no_children))
  push_child-Represents (scalar max ty ss) acc' w xs _ (scalars s) q e = cc
  push_child-Represents (vector max ty _) acc' w xs _ (children no_children) q e = cc
  push_child-Represents (vector max ty (cons v vs)) acc' w xs _ (children (next_child p c)) q e =
      let joined = Children-snoc w xs (next_child p c) q in
      Represents-eq (sym (push_child-vector max ty v vs w acc' e))
        (children (unfold append in joined))

  -- Whatever is read from a table leaves the stack extended, and the vector standing for what it
  -- stood for and the values that the table yields.
  pub load_items-Represents :
      (room : ℕ → Bool) (xs : Items) (acc v : Vector) (st st' : Stack) (ys : List LuaValue)
      → Represents st acc ys
      → load_items room base xs acc st ≡ ok (v, st')
      → Represents st' v (ys ++ elements xs) × Extends st st'
  unfolding load_items
  load_items-Represents room end acc v st st' ys r e =
      let (_, _, f) = >>=-eq-ok (check (room (length st)) typeconv_error) _ e in
      subst (λ (p : Vector × Stack). Represents p.1 p.0 (ys ++ []) × Extends st p.1) (ok-eq f)
        (rw append-nil r, λ k x h. h)
  load_items-Represents room raise acc v st st' ys r e = cc
  load_items-Represents room (then_item (tab xs) rest) acc v st st' ys r e =
      let (_, _, f) = >>=-eq-ok (check (room (length st)) typeconv_error) _ e in
      let (_, _, g) = >>=-eq-ok (expect_vector acc) _ f in
      let ((w, st₁), h, i) = >>=-eq-ok (load_items room base xs unknown (st ++ tab xs ∷ [])) _ g in
      let (acc', j, k) = >>=-eq-ok (push_child acc w) _ i in
      let (q, inner) = load_items-Represents room xs unknown w _ st₁ [] nothing h in
      let first : Extends st st₁ = λ n x p. inner n x (Extends-push st (tab xs) n x p) in
      let r' = push_child-Represents acc acc' w xs ys (Represents-mono first r) q j in
      let (z, later) = load_items-Represents room rest acc' v st₁ st' (ys ++ tab xs ∷ []) r' k in
      (
        subst (Represents st' v) (append_assoc ys (tab xs ∷ []) (elements rest)) z,
        λ n x p. later n x (first n x p),
      )
  load_items-Represents room (then_item x rest) acc v st st' ys r e =
      let (_, _, f) = >>=-eq-ok (check (room (length st)) typeconv_error) _ e in
      let (acc', j, k) = >>=-eq-ok (push_value acc x (base + length st + 1)) _ f in
      let first = Extends-push st x in
      let here : At (st ++ x ∷ []) (base + length st + 1) x =
        (length st, refl, get_elem?-append_last st x) in
      let r' =
        push_value-Represents acc acc' x (base + length st + 1) ys (Represents-mono first r) here
          j in
      let (z, later) = load_items-Represents room rest acc' v _ st' (ys ++ x ∷ []) r' k in
      (
        subst (Represents st' v) (append_assoc ys (x ∷ []) (elements rest)) z,
        λ n y p. later n y (first n y p),
      )
