-- ===== src/Dispatch/Reached.antt =====
-- The states of a tLuaDispatch (src/library/tLuaDispatch.cpp) and of what it holds, from its
-- creation on, and its end.
use luacom.Prelude.{
  some_eq, ℕ, ◌+◌, ◌-◌, ◌^◌, ◌%◌, ◌<◌, ◌≡◌, refl, sym, ap, Bool, true, false, not, none, some, List,
  [], ◌∷◌, arith, ◌==◌, if◌then◌else◌, Bool-cases, inl, inr,
}
use luacom.Prelude.Result.{ok_eq, Result, ok, throw, fault}
use luacom.Com.{HResult, s_ok}
use luacom.Dispatch.{FuncInfo}
use luacom.Dispatch.Object.{Held, Answers, Server, construct, created}
use luacom.Dispatch.Interfaces.{
  DispatchIid, has_interface, add_ref, query_interface, release, set_coclass_info, be_connectable,
}
use luacom.Dispatch.Lifetime.{with_functions, owned, destroy-owned, Balanced, construct-Balanced}

-- How many references are out after a QueryInterface.
abbrev pub handed : HResult → ℕ → ℕ
handed s_ok n = n + 1
handed _ n = n

-- A state that an object made by CreateLuaDispatch comes to while `n` references to it are out:
-- through QueryInterface below the end of the counter, AddRef, Release of a reference that is out,
-- SetCoClassinfo once, BeConnectable once.
pub data Reached {V : Type 0} (a : Answers V) (h : Held) : ℕ → Server V → Held → Type 0 where
  begun :
      (s : Server V) (g : Held)
      → created (construct a h).0 (construct a h).1 ≡ (ok s, g)
      → Reached a h 1 s g
  queried :
      (n : ℕ) (s : Server V) (g : Held) (given : Bool) (riid : DispatchIid)
      → Reached a h n s g
      → n + 1 < 2 ^ 32
      → Reached a h (handed (query_interface given riid s).0 n) (query_interface given riid s).1 g
  added :
      (n : ℕ) (s : Server V) (g : Held)
      → Reached a h n s g
      → n + 1 < 2 ^ 32
      → Reached a h (n + 1) (add_ref s) g
  released :
      (n : ℕ) (s s' : Server V) (g g' : Held)
      → Reached a h (n + 1) s g
      → release s g ≡ (some s', g')
      → Reached a h n s' g'
  classed :
      (n : ℕ) (s : Server V) (g : Held)
      → Reached a h n s g
      → s.has_class_info ≡ false
      → Reached a h n (set_coclass_info s g).0 (set_coclass_info s g).1
  connected :
      (n : ℕ) (s : Server V) (g : Held) (has_source : Bool)
      → Reached a h n s g
      → s.has_container ≡ false
      → Reached a h n (be_connectable has_source s g).0 (be_connectable has_source s g).1

module _ {V : Type 0} where
  with_functions-classes :
      (fs : List (FuncInfo V)) (h : Held)
      → record (with_functions fs h) { coclass_infos = (with_functions fs h).coclass_infos + 1 }
        ≡ with_functions fs (record h { coclass_infos = h.coclass_infos + 1 })
  with_functions-classes [] h = refl
  with_functions-classes (f ∷ fs) h = with_functions-classes fs _

  with_functions-containers :
      (fs : List (FuncInfo V)) (h : Held)
      → record (with_functions fs h) { containers = (with_functions fs h).containers + 1 }
        ≡ with_functions fs (record h { containers = h.containers + 1 })
  with_functions-containers [] h = refl
  with_functions-containers (f ∷ fs) h = with_functions-containers fs _

  -- What holds in a state that is reached.
  pub record Sound (h : Held) (n : ℕ) (s : Server V) (g : Held) : Type 0 where
    pub owns : g ≡ owned s h
    pub counts : s.refs ≡ n
    pub bounded : n < 2 ^ 32

  moved :
      (h : Held) (n : ℕ) (s t : Server V) (g g' : Held)
      → s ≡ t
      → g ≡ g'
      → Sound h n s g
      → Sound h n t g'
  moved h n s t g g' e f k = rw (sym e, sym f) k

  created-Sound :
      (h : Held) (r : Result (Server V)) (f : Held) (s : Server V) (g : Held)
      → Balanced h (r, f)
      → created r f ≡ (ok s, g)
      → Sound h 1 s g
  unfolding created
  created-Sound h (ok z) f s g k e =
      let (o, c) = k.1 z refl in
      moved h 1 (record z { refs = z.refs + 1 }) s f g (ok_eq (ap (λ p. p.0) e)) (ap (λ p. p.1) e)
        (record { owns = o; counts = omega (arith, c); bounded = omega arith })
  created-Sound h (throw d) f s g k e = absurd cc
  created-Sound h fault f s g k e = absurd cc

  begun-Sound :
      (a : Answers V) (h : Held) (s : Server V) (g : Held)
      → created (construct a h).0 (construct a h).1 ≡ (ok s, g)
      → Sound h 1 s g
  begun-Sound a h s g e = created-Sound h _ _ s g (construct-Balanced a h) e

  if-Sound :
      (h : Held) (n : ℕ) (g : Held) (b : Bool) (x y : HResult × Server V)
      → Sound h (handed x.0 n) x.1 g
      → Sound h (handed y.0 n) y.1 g
      → let z = if b then x else y in Sound h (handed z.0 n) z.1 g
  if-Sound h n g true x y k l = k
  if-Sound h n g false x y k l = l

  add_ref-Sound :
      (h : Held) (n : ℕ) (s : Server V) (g : Held)
      → Sound h n s g
      → n + 1 < 2 ^ 32
      → Sound h (n + 1) (add_ref s) g
  unfolding add_ref
  add_ref-Sound h n s g k b = record {
    owns = k.owns;
    counts = omega (arith, k.counts);
    bounded = b;
  }

  query-Sound :
      (h : Held) (n : ℕ) (s : Server V) (g : Held) (given : Bool) (riid : DispatchIid)
      → Sound h n s g
      → n + 1 < 2 ^ 32
      → Sound h (handed (query_interface given riid s).0 n) (query_interface given riid s).1 g
  unfolding query_interface add_ref
  query-Sound h n s g given riid k b =
      if-Sound h n g (not given) _ _ k
        (if-Sound h n g (has_interface riid s) _ _ (add_ref-Sound h n s g k b) k)

  release-Sound :
      (h : Held) (n : ℕ) (s s' : Server V) (g g' : Held)
      → Sound h (n + 1) s g
      → release s g ≡ (some s', g')
      → Sound h n s' g'
  unfolding release
  release-Sound h n s s' g g' k e = elim (Bool-cases (s.refs == 1)) [
    | inl b ↦ absurd cc
    | inr b ↦
        let same = rw b at e in
        moved h n (record s { refs = (s.refs + 2 ^ 32 - 1) % 2 ^ 32 }) s' g g'
          (some_eq (ap (λ p. p.0) same)) (ap (λ p. p.1) same)
          (record {
            owns = k.owns;
            counts = omega (arith, k.counts, k.bounded);
            bounded = omega (arith, k.bounded);
          })
  ]

  set_coclass_info-Sound :
      (h : Held) (n : ℕ) (s : Server V) (g : Held)
      → Sound h n s g
      → s.has_class_info ≡ false
      → Sound h n (set_coclass_info s g).0 (set_coclass_info s g).1
  unfolding set_coclass_info
  set_coclass_info-Sound h n s g k e = record {
    owns = rw (k.owns, e) (with_functions-classes s.funcs _);
    counts = k.counts;
    bounded = k.bounded;
  }

  be_connectable-Sound :
      (h : Held) (n : ℕ) (s : Server V) (g : Held) (has_source : Bool)
      → Sound h n s g
      → s.has_container ≡ false
      → Sound h n (be_connectable has_source s g).0 (be_connectable has_source s g).1
  unfolding be_connectable
  be_connectable-Sound h n s g true k e = record {
    owns = rw (k.owns, e) (with_functions-containers s.funcs _);
    counts = k.counts;
    bounded = k.bounded;
  }
  be_connectable-Sound h n s g false k e = k

  -- In each state that is reached the object owns what it holds, and counts the references that
  -- are out.
  Reached-Sound :
      (a : Answers V) (h : Held) {n : ℕ} {s : Server V} {g : Held}
      → Reached a h n s g
      → Sound h n s g
  Reached-Sound a h (begun s g e) = begun-Sound a h s g e
  Reached-Sound a h (queried n s g given riid r b) =
      query-Sound h n s g given riid (Reached-Sound a h r) b
  Reached-Sound a h (added n s g r b) = add_ref-Sound h n s g (Reached-Sound a h r) b
  Reached-Sound a h (released n s s' g g' r e) = release-Sound h n s s' g g' (Reached-Sound a h r) e
  Reached-Sound a h (classed n s g r e) = set_coclass_info-Sound h n s g (Reached-Sound a h r) e
  Reached-Sound a h (connected n s g has_source r e) =
      be_connectable-Sound h n s g has_source (Reached-Sound a h r) e

  -- In each state that is reached, the counter is the number of the references that are out, and
  -- the Release of the last one ends the object and leaves held exactly what was held before
  -- the object was made.
  pub Reached-release :
      (a : Answers V) (h : Held) (n : ℕ) (s : Server V) (g : Held)
      → Reached a h n s g
      → (s.refs ≡ n) × (n ≡ 1 → release s g ≡ (none, h))
  unfolding release
  Reached-release a h n s g r =
      let k = Reached-Sound a h r in
      (
        k.counts,
        λ e.
            let one : (s.refs == 1) ≡ true = rw (k.counts, e) refl in
            rw (one, k.owns, destroy-owned s h) refl,
      )
