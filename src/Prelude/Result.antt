-- ===== src/Prelude/Result.antt =====
-- Code that throws, mostly a `tLuaCOMException` (library/tLuaCOMException.h), or that reads through a
-- null pointer, which C++ leaves undefined and the model reports as `fault`.
use mathlib.Core.Path.{◌≡◌, refl}
use mathlib.Core.Bool.{Bool, true, false}

-- tLuaCOMException::Errors, and one for every C++ exception of another class, such as std::bad_alloc.
pub data Error : Type 0 where
  internal_error parameter_out_of_range typeconv_error com_error com_exception : Error
  unsupported_feature windows_error luacom_error malloc_error : Error
  std_exception : Error

-- What `catch(tLuaCOMException&)` catches.
unfoldable pub is_luacom_exception : Error → Bool
is_luacom_exception std_exception = false
is_luacom_exception e = true

pub is_luacom_exception-false : (e : Error) → is_luacom_exception e ≡ false → e ≡ std_exception
unfolding is_luacom_exception
is_luacom_exception-false std_exception h = refl
is_luacom_exception-false e h = absurd cc

pub data Result {ℓ} (A : Type ℓ) : Type ℓ where
  ok : A → Result A
  throw : Error → Result A
  fault : Result A

module _ {ℓ κ} {A : Type ℓ} {B : Type κ} where
  -- What follows is left out once something was thrown or went wrong.
  infixl 5 ◌>>=◌
  abbrev pub ◌>>=◌ : Result A → (A → Result B) → Result B
  fault >>= next = fault
  throw code >>= next = throw code
  ok answer >>= next = next answer

  -- A sequence that ends well has a first part that ended well, with an answer that its second
  -- part turned into the last one.
  pub >>=-eq-ok :
      (first : Result A) (next : A → Result B) {last : B}
      → (first >>= next) ≡ ok last
      → (answer : A) × (first ≡ ok answer) × (next answer ≡ ok last)
  >>=-eq-ok fault next ends = cc
  >>=-eq-ok (throw code) next ends = cc
  >>=-eq-ok (ok answer) next ends = (answer, refl, ends)

pub ok_eq {ℓ} : {A : Type ℓ} {a b : A} → ok a ≡ ok b → a ≡ b
ok_eq h = cc

infixl 5 ◌>>◌
abbrev pub ◌>>◌ {κ} : {B : Type κ} → Result (Unit {0}) → Result B → Result B
first >> next = first >>= (λ nothing. next)

-- CHECK(test, code)
abbrev pub check : Bool → Error → Result (Unit {0})
check false code = throw code
check true code = ok tt
