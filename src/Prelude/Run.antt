-- ===== src/Prelude/Run.antt =====
-- Code that changes a state and can throw. The state comes back after a throw too, since what was
-- written stays written.
use mathlib.Core.Bool.{Bool, true, false}
use luacom.Prelude.Result.{Error, Result, ok, throw, fault}

abbrev pub Run : Type 0 → Type 0 → Type 0
Run S A = S → Result A × S

module _ {S : Type 0} where
  unfoldable pub continue : {A B : Type 0} → Result A → S → (A → Run S B) → Result B × S
  continue (ok a) t next = next a t
  continue (throw e) t next = (throw e, t)
  continue fault t next = (fault, t)

  infixl 5 ◌>>=◌ ◌>>◌
  abbrev pub ◌>>=◌ : {A B : Type 0} → Run S A → (A → Run S B) → Run S B
  ◌>>=◌ first next s = let (r, t) = first s in continue r t next

  abbrev pub ◌>>◌ : {A B : Type 0} → Run S A → Run S B → Run S B
  first >> next = first >>= λ _. next

  abbrev pub pure : {A : Type 0} → A → Run S A
  pure a s = (ok a, s)

  -- Code that leaves the state alone.
  abbrev pub lift : {A : Type 0} → Result A → Run S A
  lift r s = (r, s)

  abbrev pub modify : (S → S) → Run S (Unit {0})
  modify f s = (ok tt, f s)

  abbrev pub when : Bool → Run S (Unit {0}) → Run S (Unit {0})
  when true m s = m s
  when false m s = (ok tt, s)

  -- try and catch
  unfoldable pub handle : {A : Type 0} → Result A → S → (Error → Run S A) → Result A × S
  handle (ok a) t handler = (ok a, t)
  handle (throw e) t handler = handler e t
  handle fault t handler = (fault, t)

  abbrev pub catch : {A : Type 0} → Run S A → (Error → Run S A) → Run S A
  catch body handler s = let (r, t) = body s in handle r t handler
