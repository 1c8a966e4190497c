-- ===== src/TypeInfos/Owned.antt =====
-- What the searches of src/library/tCOMUtil.cpp answer, and the references that they hold.
use luacom.Prelude.{
  ℕ, ◌+◌, ◌≡◌, refl, Bool, true, false, ◌&&◌, Option, none, some, List, [], ◌∷◌, if◌then◌else◌,
  arith, Bool-cases, inl, inr,
}
use luacom.Prelude.{map, Option-cases}
use luacom.Members.{take, drop, one_at}
use luacom.TypeInfos.{
  Kind, dispatch, co_class, other_kind, Refs, com_release, Impl, next, wanted, inspect, turn,
  search, is_single, get_default_interface_type_info, prefer_twin, get_dispatch_type_info, has_kind,
  pick, take_all, find_by_kind, is_co_class, is_dispatch, get_co_class_type_info,
  get_interface_type_info,
}

abbrev pub one_of : Option ℕ → ℕ → ℕ
one_of none x = 0
one_of (some t) x = one_at t x

-- Beside what was held before, a reference to the answer and no other.
abbrev pub Holds : Option ℕ → Refs → Refs → Type 0
Holds r h g = (x : ℕ) → g x ≡ h x + one_of r x

-- The type information of an interface, where the loop looks at it.
abbrev pub offered : Bool → Bool → Impl → Option ℕ
offered source single i = elim i.flags [
  | none ↦ none
  | some flags ↦ if wanted source single flags && i.has_ref && i.succeeded then i.info else none
]

-- The first that passes a test.
unfoldable pub first : (ℕ → Bool) → List ℕ → Option ℕ
first test [] = none
first test (t ∷ ts) = let rest = first test ts in if test t then some t else rest

module _ (kind_of : ℕ → Option Kind) where
  -- The first of the offered type informations that is a dispinterface, or else the last one; those
  -- from the first that has no attributes on do not count.
  unfoldable pub best : List (Option ℕ) → Option ℕ → Option ℕ
  best [] kept = kept
  best (none ∷ l) kept = best l kept
  best (some t ∷ l) kept = elim (kind_of t) [
    | none ↦ kept
    | some dispatch ↦ some t
    | some co_class ↦ best l (some t)
    | some other_kind ↦ best l (some t)
  ]

  -- A type information that was taken and released at once leaves all as it was.
  drop-take : (t : ℕ) (h : Refs) (x : ℕ) → drop t (take t h) x ≡ h x
  drop-take t h x = omega arith

  turn-none :
      (source single : Bool) (flags : Option (Bool × Bool)) (r s : Bool) (info : Option ℕ)
      (kept : Option ℕ) (h₀ h : Refs)
      → let i : Impl = record { flags = flags; has_ref = r; succeeded = s; info = info } in
        offered source single i ≡ none
        → Holds kept h₀ h
        → (g : Refs) × (turn kind_of source single i kept h ≡ next kept g) × Holds kept h₀ g
  unfolding turn com_release
  turn-none source single none r s info kept h₀ h e holds = (h, refl, holds)
  turn-none source single (some f) r s none kept h₀ h e holds = (h, ground arith, holds)
  turn-none source single (some f) r true (some t) kept h₀ h e holds = (h, ground arith, holds)
  turn-none source single (some f) false false (some t) kept h₀ h e holds = (h, ground arith, holds)
  turn-none source single (some f) true false (some t) kept h₀ h e holds =
      elim (Bool-cases (wanted source single f)) [
        | inl w ↦ (drop t (take t h), ground arith, λ x. let q = holds x in omega (arith, q))
        | inr w ↦ (h, ground arith, holds)
      ]

  turn-some :
      (source single : Bool) (i : Impl) (t : ℕ) (kept : Option ℕ) (h : Refs)
      → offered source single i ≡ some t
      → turn kind_of source single i kept h ≡ inspect kind_of t kept (take t h)
  unfolding turn
  turn-some source single i t kept h e = ground arith

  kept-release :
      (kept : Option ℕ) (h₀ h : Refs) (t : ℕ)
      → Holds kept h₀ h
      → Holds (some t) h₀ (com_release kept (take t h))
  unfolding com_release
  kept-release none h₀ h t holds x = let e = holds x in omega (arith, e)
  kept-release (some s) h₀ h t holds x = let e = holds x in omega (arith, e)

  abbrev pub Right : Option ℕ → Refs → Option ℕ × Refs → Type 0
  Right r h₀ o = (o.0 ≡ r) × Holds o.0 h₀ o.1

  search-next :
      (source single : Bool) (i : Impl) (is : List Impl) (kept : Option ℕ) (h₀ h g : Refs)
      → offered source single i ≡ none
      → turn kind_of source single i kept h ≡ next kept g
      → Right
          (best (map (offered source single) is) kept)
          h₀
          (search kind_of source single is kept g)
      → Right
          (best (map (offered source single) (i ∷ is)) kept)
          h₀
          (search kind_of source single (i ∷ is) kept h)
  unfolding search best
  search-next source single i is kept h₀ h g e n right = rw (n, e, search, best) right

  search-inspect :
      (source single : Bool) (i : Impl) (is : List Impl) (t : ℕ) (kept : Option ℕ) (h₀ h : Refs)
      → offered source single i ≡ some t
      → Holds kept h₀ h
      → ((k : Option ℕ) (g : Refs)
          → Holds k h₀ g
          → Right
              (best (map (offered source single) is) k)
              h₀
              (search kind_of source single is k g))
      → Right
          (best (map (offered source single) (i ∷ is)) kept)
          h₀
          (search kind_of source single (i ∷ is) kept h)
  unfolding search best inspect
  search-inspect source single i is t kept h₀ h e holds rest =
      let s = turn-some source single i t kept h e in
      elim (Option-cases (kind_of t)) [
        | inl k ↦
            rw (s, e, search, best, inspect, k) (refl, λ x. let q = holds x in omega (arith, q))
        | inr (dispatch, k) ↦
            rw (s, e, search, best, inspect, k) (refl, kept-release kept h₀ h t holds)
        | inr (co_class, k) ↦
            rw (s, e, search, best, inspect, k)
              (rest (some t) (com_release kept (take t h)) (kept-release kept h₀ h t holds))
        | inr (other_kind, k) ↦
            rw (s, e, search, best, inspect, k)
              (rest (some t) (com_release kept (take t h)) (kept-release kept h₀ h t holds))
      ]

  -- The loop, from any turn on, with what it has kept so far.
  search-best :
      (source single : Bool) (is : List Impl) (kept : Option ℕ) (h₀ h : Refs)
      → Holds kept h₀ h
      → Right
          (best (map (offered source single) is) kept)
          h₀
          (search kind_of source single is kept h)
  unfolding search best
  search-best source single [] kept h₀ h holds = (refl, holds)
  search-best source single (i ∷ is) kept h₀ h holds =
      elim (Option-cases (offered source single i)) [
        | inl e ↦
            let (g, n, more) =
              turn-none source single i.flags i.has_ref i.succeeded i.info kept h₀ h e holds in
            search-next source single i is kept h₀ h g e n
              (search-best source single is kept h₀ g more)
        | inr (t, e) ↦
            search-inspect source single i is t kept h₀ h e holds
              (λ k g more. search-best source single is k h₀ g more)
      ]

  pick-held :
      (is_kind : Kind → Bool) (ts : List ℕ) (f : ℕ) (h₀ h : Refs)
      → ((x : ℕ) → h x ≡ take_all kind_of ts h₀ x + one_at f x)
      → Right (some f) h₀ (pick kind_of is_kind ts (some f) h)
  unfolding pick take_all
  pick-held is_kind [] f h₀ h e = (refl, e)
  pick-held is_kind (t ∷ ts) f h₀ h e =
      pick-held is_kind ts f h₀ (drop t h) (λ x. let q = e x in omega (arith, q))

  pick-first :
      (is_kind : Kind → Bool) (ts : List ℕ) (h₀ h : Refs)
      → ((x : ℕ) → h x ≡ take_all kind_of ts h₀ x)
      → Right (first (has_kind kind_of is_kind) ts) h₀ (pick kind_of is_kind ts none h)
  unfolding pick take_all first
  pick-first is_kind [] h₀ h e = (refl, λ x. let q = e x in omega (arith, q))
  pick-first is_kind (t ∷ ts) h₀ h e = elim (Bool-cases (has_kind kind_of is_kind t)) [
    | inl k ↦
        rw (k, pick, first) (pick-held is_kind ts t h₀ h (λ x. let q = e x in omega (arith, q)))
    | inr k ↦
        rw (k, pick, first)
          (pick-first is_kind ts h₀ (drop t h) (λ x. let q = e x in omega (arith, q)))
  ]

  -- What a coclass offers: nothing where it is not there, or its attributes cannot be read.
  abbrev pub all_offered : Bool → Option (Option (List Impl)) → List (Option ℕ)
  all_offered source none = []
  all_offered source (some none) = []
  all_offered source (some (some is)) = map (offered source (is_single is)) is

  -- GetDefaultInterfaceTypeInfo, whatever the coclass and its interfaces answer, answers the first
  -- dispinterface of those that are offered, or else the last interface, where the first that has no
  -- attributes ends the search; without a coclass whose attributes can be read it answers none. It
  -- holds a reference to its answer and to nothing else.
  pub get_default_interface_type_info-best :
      (source : Bool) (coclass : Option (Option (List Impl))) (h : Refs)
      → let o = get_default_interface_type_info kind_of source coclass h in
        (o.0 ≡ best (all_offered source coclass) none) × ((x : ℕ) → o.1 x ≡ h x + one_of o.0 x)
  unfolding get_default_interface_type_info best
  get_default_interface_type_info-best source none h = (refl, λ x. omega arith)
  get_default_interface_type_info-best source (some none) h = (refl, λ x. omega arith)
  get_default_interface_type_info-best source (some (some is)) h =
      search-best source (is_single is) is none h h (λ x. omega arith)

  prefer_twin-held :
      (t : ℕ) (contained : Bool) (twin : Option ℕ) (h : Refs)
      → let o = prefer_twin kind_of t contained twin (take t h) in Holds o.0 h o.1
  unfolding prefer_twin
  prefer_twin-held t contained none h x = omega arith
  prefer_twin-held t false (some u) h x = omega arith
  prefer_twin-held t true (some u) h x = elim (Option-cases (kind_of u)) [
    | inl k ↦ rw (k, prefer_twin) (omega arith)
    | inr (dispatch, k) ↦ rw (k, prefer_twin) (omega arith)
    | inr (co_class, k) ↦ rw (k, prefer_twin) (omega arith)
    | inr (other_kind, k) ↦ rw (k, prefer_twin) (omega arith)
  ]

  -- GetDispatchTypeInfo, whatever it is told, holds a reference to its answer and to nothing else.
  pub get_dispatch_type_info-held :
      (given : Option ℕ) (contained : Bool) (twin : Option ℕ) (h : Refs)
      → let o = get_dispatch_type_info kind_of given contained twin h in
        (x : ℕ) → o.1 x ≡ h x + one_of o.0 x
  unfolding get_dispatch_type_info
  get_dispatch_type_info-held none contained twin h x = omega arith
  get_dispatch_type_info-held (some t) contained twin h x =
      let q = prefer_twin-held t contained twin h x in
      elim (Option-cases (kind_of t)) [
        | inl k ↦ rw (k, get_dispatch_type_info) (omega arith)
        | inr (dispatch, k) ↦ rw (k, get_dispatch_type_info) (omega arith)
        | inr (co_class, k) ↦ rw (k, get_dispatch_type_info) q
        | inr (other_kind, k) ↦ rw (k, get_dispatch_type_info) q
      ]

  -- GetCoClassTypeInfo by a name answers the first coclass, and GetInterfaceTypeInfo the first
  -- dispinterface, of what FindName has found, and each holds a reference to its answer and to
  -- nothing else of it.
  pub find_by_kind-first :
      (ts : List ℕ) (h : Refs)
      → let c = get_co_class_type_info kind_of (some ts) h in
        let d = get_interface_type_info kind_of (some ts) h in
        ((c.0 ≡ first (has_kind kind_of is_co_class) ts) × ((x : ℕ) → c.1 x ≡ h x + one_of c.0 x))
        × (d.0 ≡ first (has_kind kind_of is_dispatch) ts)
        × ((x : ℕ) → d.1 x ≡ h x + one_of d.0 x)
  unfolding get_co_class_type_info get_interface_type_info find_by_kind
  find_by_kind-first ts h =
      let c = pick-first is_co_class ts h (take_all kind_of ts h) (λ x. refl) in
      let d = pick-first is_dispatch ts h (take_all kind_of ts h) (λ x. refl) in (c, d.0, d.1)
