-- ===== src/Decimal/Print.antt =====
-- The digits that are printed: 20 bytes are enough for an integer below 2^64, so the buffer of 32
-- bytes is.
use luacom.Prelude.{
  ℕ, zero, suc, ◌+◌, ◌-◌, ◌*◌, ◌/◌, ◌%◌, ◌^◌, ◌≤◌, ◌<◌, ◌≡◌, refl, ◌≢◌, true, false, List, [], ◌∷◌,
  ◌++◌, Option, some, arith, ◌==◌, append_assoc, Bool-cases, inl, inr,
}
use native.Mathlib.Nat.{pow-suc}
use luacom.Decimal.{is_digit, print_digits}

-- The value that digits stand for, behind those that stand for `acc`.
unfoldable pub value_from : ℕ → List ℕ → ℕ
value_from acc [] = acc
value_from acc (c ∷ cs) = value_from (acc * 10 + (c - b'0')) cs

abbrev pub Digits : List ℕ → Type 0
Digits [] = Unit {0}
Digits (c ∷ cs) = (is_digit c ≡ true) × Digits cs

-- What a print of `value` in front of `text` leaves, of `room` bytes and at most `k` digits.
pub record Printed (value room k : ℕ) (text : List ℕ) (r : Option (List ℕ × ℕ)) : Type 0 where
  pub digits : List ℕ
  pub left : ℕ
  pub outcome : r ≡ some (digits ++ text, left)
  pub nonempty : digits ≢ []
  pub are_digits : Digits digits
  pub stands_for : value_from 0 digits ≡ value
  pub enough : room ≤ left + k

Digits-append : (xs ys : List ℕ) → Digits xs → Digits ys → Digits (xs ++ ys)
Digits-append [] ys d e = e
Digits-append (x ∷ xs) ys d e = (d.0, Digits-append xs ys d.1 e)

value_from-append :
    (c : ℕ) (xs : List ℕ) (acc : ℕ)
    → value_from acc (xs ++ c ∷ []) ≡ value_from acc xs * 10 + (c - b'0')
unfolding value_from
value_from-append c [] acc = refl
value_from-append c (x ∷ xs) acc = value_from-append c xs (acc * 10 + (x - b'0'))

snoc-ne-nil : (xs : List ℕ) (c : ℕ) → (xs ++ c ∷ []) ≢ []
snoc-ne-nil [] c = λ e. cc
snoc-ne-nil (x ∷ xs) c = λ e. cc

print_last :
    (k room value : ℕ) (text : List ℕ)
    → (value / 10 == 0) ≡ true
    → Printed value (suc room) (suc k) text (print_digits (suc room) value text)
unfolding print_digits
print_last k room value text last = record {
  digits = (b'0' + value % 10) ∷ [];
  left = room;
  outcome = rw last refl;
  nonempty = λ e. cc;
  are_digits = ground arith;
  stands_for = unfold value_from in ground arith;
  enough = omega arith;
}

print_more :
    (k room value : ℕ) (text : List ℕ)
    → (value / 10 == 0) ≡ false
    → Printed
        (value / 10)
        room
        k
        ((b'0' + value % 10) ∷ text)
        (print_digits room (value / 10) ((b'0' + value % 10) ∷ text))
    → Printed value (suc room) (suc k) text (print_digits (suc room) value text)
unfolding print_digits
print_more k room value text more p =
    let c = b'0' + value % 10 in
    record {
      digits = p.digits ++ c ∷ [];
      left = p.left;
      outcome = rw (more, append_assoc p.digits (c ∷ []) text) p.outcome;
      nonempty = snoc-ne-nil p.digits c;
      are_digits = Digits-append p.digits (c ∷ []) p.are_digits (ground arith);
      stands_for = omega (arith, value_from-append c p.digits 0, p.stands_for);
      enough = omega (arith, p.enough);
    }

-- A value below 10^(k + 1) is printed in at most k + 1 digits, which stand for it.
pub print_digits-Printed :
    (k room value : ℕ) (text : List ℕ)
    → value < 10 ^ suc k
    → suc k ≤ room
    → Printed value room (suc k) text (print_digits room value text)
print_digits-Printed k zero value text small fits = absurd (omega arith)
print_digits-Printed zero (suc room) value text small fits =
    print_last zero room value text (ground (arith, pow-suc 10 0))
print_digits-Printed (suc k) (suc room) value text small fits =
    elim (Bool-cases (value / 10 == 0)) [
      | inl last ↦ print_last (suc k) room value text last
      | inr more ↦ print_more (suc k) room value text more (
          print_digits-Printed k room (value / 10) ((b'0' + value % 10) ∷ text)
            (omega (arith, pow-suc 10 (suc k))) (omega arith))
    ]
