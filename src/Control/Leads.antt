-- ===== src/Control/Leads.antt =====
-- Runs of the control of src/library/tLuaControl.cpp that end without a call through NULL.
use luacom.Prelude.{some_eq, ℕ, ◌≡◌, refl, Bool, true, false, Option, none, some, if◌then◌else◌}
use luacom.Prelude.Result.{ok_eq, Result, ok, throw, fault}
use luacom.Prelude.Run.{Run, continue}
use luacom.Control.{World, is_some, through}

-- A run that ends, without a call through NULL, in a state of which `Q` holds.
abbrev pub Leads : {A : Type 0} → (A → World → Type 0) → Result A × World → Type 0
Leads {A} Q o = (a : A) × (o.0 ≡ ok a) × Q a (o.1)

-- The answer of a run, or a default where there is none.
unfoldable pub answer_or : {A : Type 0} → A → Result A → A
answer_or d (ok a) = a
answer_or d (throw e) = d
answer_or d fault = d

module _ {A : Type 0} where
  pub continue-Leads :
      {B : Type 0} (Q : A → World → Type 0) (R : B → World → Type 0) (r : Result A) (w : World)
      (next : A → Run World B)
      → Leads Q (r, w)
      → ((a : A) (v : World) → Q a v → Leads R (next a v))
      → Leads R (continue r w next)
  unfolding continue
  continue-Leads Q R (ok b) w next (a, e, q) f = f b w (rw (ok_eq e) q)
  continue-Leads Q R (throw d) w next (a, e, q) f = absurd cc
  continue-Leads Q R fault w next (a, e, q) f = absurd cc

  pub if-Leads :
      (Q : A → World → Type 0) (b : Bool) (x y : Run World A) (w : World)
      → (b ≡ true → Leads Q (x w))
      → (b ≡ false → Leads Q (y w))
      → Leads Q ((if b then x else y) w)
  if-Leads Q true x y w f g = f refl
  if-Leads Q false x y w f g = g refl

  -- A weaker conclusion.
  pub Leads-map :
      (Q R : A → World → Type 0) (o : Result A × World)
      → Leads Q o
      → ((a : A) (v : World) → Q a v → R a v)
      → Leads R o
  Leads-map Q R o (a, e, q) f = (a, e, f a (o.1) q)

  pub none-Leads :
      {C : Type 0} (Q : A → World → Type 0) (o : Option C) (m : Run World A) (f : C → Run World A)
      (w : World)
      → o ≡ none
      → Leads Q (m w)
      → Leads Q ((elim o as (λ p. Run World A) [ none ↦ m | some c ↦ f c ]) w)
  none-Leads Q none m f w e h = h
  none-Leads Q (some c) m f w e h = absurd cc

  pub through-Leads :
      (Q : A → World → Type 0) (p : Option ℕ) (w : World) (next : Unit {0} → Run World A)
      → is_some p ≡ true
      → Leads Q (next tt w)
      → Leads Q (continue (through p w).0 (through p w).1 next)
  unfolding through continue
  through-Leads Q none w next e h = absurd cc
  through-Leads Q (some a) w next e h = h

  pub some-Leads :
      {C : Type 0} (Q : A → World → Type 0) (o : Option C) (m : Run World A) (f : C → Run World A)
      (w : World) (c : C)
      → o ≡ some c
      → Leads Q (f c w)
      → Leads Q ((elim o as (λ p. Run World A) [ none ↦ m | some c ↦ f c ]) w)
  some-Leads Q none m f w c e h = absurd cc
  some-Leads Q (some d) m f w c e h = rw (some_eq e) h
