-- ===== src/Decimal/RoundTrip.antt =====
-- Which texts parse, to what, and that an integer that is printed parses to itself.
use luacom.Prelude.{
  ℕ, zero, suc, ◌+◌, ◌-◌, ◌*◌, ◌/◌, ◌%◌, ◌^◌, ◌≤◌, ◌<◌, ◌≡◌, refl, sym, ◌≢◌, ◌↔◌, ◌∙◌, Bool, true,
  false, List, [], ◌∷◌, ◌++◌, some, arith, ◌==◌, ltb, if◌then◌else◌, append-nil, ap,
}
use luacom.Prelude.Int.{ℤ, pos, negsuc}
use luacom.Decimal.{
  is_digit, parse_digits, parse_unsigned, parse_signed, print_digits, print_unsigned, print_signed,
  put_sign, positive_limit, negative_limit,
}
use luacom.Decimal.Print.{value_from, Digits, print_digits-Printed}

value_from-ge : (cs : List ℕ) (v : ℕ) → v ≤ value_from v cs
unfolding value_from
value_from-ge [] v = omega arith
value_from-ge (c ∷ cs) v = omega (arith, value_from-ge cs (v * 10 + (c - b'0')))

parse_digits-some :
    (limit : ℕ) (cs : List ℕ) (v : ℕ)
    → limit < 2 ^ 64
    → Digits cs
    → value_from v cs ≤ limit
    → parse_digits limit cs v ≡ some (value_from v cs)
unfolding parse_digits value_from
parse_digits-some limit [] v b d h = refl
parse_digits-some limit (c ∷ cs) v b d h =
    let next = v * 10 + (c - b'0') in
    let below = value_from-ge cs next in
    let kept : next % 2 ^ 64 ≡ next = omega arith in
    let ih = parse_digits-some limit cs next b d.1 h in
    let fits : ltb ((limit - (c - b'0')) / 10) v ≡ false = ground (arith, d.0) in
    rw (d.0, fits, kept) ih

parse_digits-cons :
    (limit c v r : ℕ) (cs : List ℕ)
    → parse_digits limit (c ∷ cs) v ≡ some r
    → (is_digit c ≡ true)
      × (v ≤ (limit - (c - b'0')) / 10)
      × (parse_digits limit cs ((v * 10 + (c - b'0')) % 2 ^ 64) ≡ some r)
unfolding parse_digits
parse_digits-cons limit c v r cs e = ground arith

parse_digits_sound :
    (limit : ℕ) (cs : List ℕ) (v r : ℕ)
    → limit < 2 ^ 64
    → 9 ≤ limit
    → v ≤ limit
    → parse_digits limit cs v ≡ some r
    → Digits cs × (r ≡ value_from v cs) × (r ≤ limit)
unfolding parse_digits value_from
parse_digits_sound limit [] v r b n h e = (tt, ground arith, ground arith)
parse_digits_sound limit (c ∷ cs) v r b n h e =
    let (d, f, g) = parse_digits-cons limit c v r cs e in
    let next = v * 10 + (c - b'0') in
    let fits : next ≤ limit = ground (arith, d, f) in
    let kept : next % 2 ^ 64 ≡ next = omega arith in
    let (ds, eq, le) = parse_digits_sound limit cs next r b n fits (rw kept at g) in
    ((d, ds), eq, le)

-- parseUnsignedDecimal accepts exactly the texts of at least one digit, all of them digits, whose
-- value is at most the limit, and returns that value. The limit is one of a 64-bit integer, and 9
-- or more.
pub parse_unsigned-value :
    (cs : List ℕ) (limit r : ℕ)
    → limit < 2 ^ 64
    → 9 ≤ limit
    → (parse_unsigned cs limit ≡ some r)
      ↔ ((cs ≢ []) × Digits cs × (value_from 0 cs ≡ r) × (r ≤ limit))
unfolding parse_unsigned
parse_unsigned-value [] limit r b n = (λ e. cc, λ h. absurd (h.0 refl))
parse_unsigned-value (c ∷ cs) limit r b n = (
  λ e.
      let (d, eq, le) = parse_digits_sound limit (c ∷ cs) 0 r b n (omega arith) e in
      (λ f. cc, d, sym eq, le),
  λ h. parse_digits-some limit (c ∷ cs) 0 b h.1 (omega (arith, h.2, h.3)) ∙ ap some h.2,
)

-- What is printed for a magnitude below 2^64, with the sign in front.
record Text (n : ℕ) (negative : Bool) : Type 0 where
  digits : List ℕ
  outcome : print_unsigned n negative ≡ some (if negative then b'-' ∷ digits else digits)
  nonempty : digits ≢ []
  are_digits : Digits digits
  stands_for : value_from 0 digits ≡ n

print_unsigned-eq :
    (n left : ℕ) (negative : Bool) (ds : List ℕ)
    → print_digits 32 n [] ≡ some (ds ++ [], left)
    → print_unsigned n negative ≡ put_sign negative (ds, left)
unfolding print_unsigned
print_unsigned-eq n left negative ds e = rw (e, print_unsigned, append-nil) refl

print_unsigned-Text : (n : ℕ) (negative : Bool) → n < 2 ^ 64 → Text n negative
unfolding print_unsigned
print_unsigned-Text n negative h =
    let p = print_digits-Printed 19 32 n [] (omega arith) (omega arith) in
    record {
      digits = p.digits;
      outcome =
          print_unsigned-eq n p.left negative p.digits p.outcome
          ∙ (signed negative p.left p.digits (omega (arith, p.enough)));
      nonempty = p.nonempty;
      are_digits = p.are_digits;
      stands_for = p.stands_for;
    }
  where
    signed :
        (negative : Bool) (left : ℕ) (ds : List ℕ)
        → 12 ≤ left
        → put_sign negative (ds, left) ≡ some (if negative then b'-' ∷ ds else ds)
    signed false left ds h = refl
    signed true zero ds h = absurd (omega arith)
    signed true (suc left) ds h = refl

-- Every ULONGLONG is printed within the buffer, and parses back to itself.
pub parse_unsigned-print :
    (n : ℕ)
    → n < 2 ^ 64
    → (text : List ℕ) × (print_unsigned n false ≡ some text)
      × (parse_unsigned text (2 ^ 64 - 1) ≡ some n)
parse_unsigned-print n h =
    let t = print_unsigned-Text n false h in
    (
      t.digits,
      t.outcome,
      (parse_unsigned-value t.digits (2 ^ 64 - 1) n (omega arith) (omega arith)).1
          (t.nonempty, t.are_digits, t.stands_for, omega arith),
    )

-- A LONGLONG.
abbrev pub IsInt64 : ℤ → Type 0
IsInt64 (pos n) = n < 2 ^ 63
IsInt64 (negsuc n) = n < 2 ^ 63

-- Every LONGLONG is printed within the buffer, the least one included, and parses back to itself.
pub parse_signed-print :
    (z : ℤ)
    → IsInt64 z
    → (text : List ℕ) × (print_signed z ≡ some text) × (parse_signed text ≡ some z)
unfolding parse_signed print_signed
parse_signed-print (pos n) h =
    let t = print_unsigned-Text n false (omega arith) in
    let parsed =
      (parse_unsigned-value t.digits positive_limit n (omega arith) (omega arith)).1
        (t.nonempty, t.are_digits, t.stands_for, omega arith) in
    (t.digits, t.outcome, unsigned t.digits t.nonempty t.are_digits parsed)
  where
    unsigned :
        (ds : List ℕ)
        → ds ≢ []
        → Digits ds
        → parse_unsigned ds positive_limit ≡ some n
        → parse_signed ds ≡ some (pos n)
    unsigned [] ne d e = absurd (ne refl)
    unsigned (c ∷ cs) ne d e =
        let no_sign : (c == b'-') ≡ false = ground (arith, d.0) in rw (no_sign, e) refl
parse_signed-print (negsuc n) h =
    let t = print_unsigned-Text (n + 1) true (omega arith) in
    let parsed =
      (parse_unsigned-value t.digits negative_limit (n + 1) (omega arith) (omega arith)).1
        (t.nonempty, t.are_digits, t.stands_for, omega arith) in
    let magnitude : n + 1 ≡ suc n = omega arith in
    (b'-' ∷ t.digits, t.outcome, rw (parsed, magnitude) refl)
