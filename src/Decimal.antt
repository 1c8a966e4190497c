-- ===== src/Decimal.antt =====
-- Decimal text and 64-bit integers (src/library/tLuaCOMTypeHandler.cpp): how integers that a Lua
-- number cannot hold travel as strings. A text is the list of its bytes.
pub mod Print
pub mod RoundTrip
use luacom.Prelude.{
  ℕ, zero, suc, ◌+◌, ◌-◌, ◌*◌, ◌/◌, ◌%◌, ◌^◌, ◌≤◌, Bool, true, false, not, ◌&&◌, ◌||◌, List, [],
  ◌∷◌, ◌++◌, Option, none, some, ◌==◌, ltb, leb, if◌then◌else◌, length,
}
use luacom.Prelude.Int.{ℤ, pos, negsuc}

abbrev pub is_digit : ℕ → Bool
is_digit c = not (ltb c b'0' || ltb b'9' c)

-- The loop over the bytes from `i` on, with the value so far. The product and the sum are those
-- of ULONGLONG.
pub parse_digits : ℕ → List ℕ → ℕ → Option ℕ
parse_digits limit [] value = some value
parse_digits limit (c ∷ cs) value =
    let rest = parse_digits limit cs ((value * 10 + (c - b'0')) % 2 ^ 64) in
    if not (is_digit c) then none else if ltb ((limit - (c - b'0')) / 10) value then none else rest

-- parseUnsignedDecimal, on a text that is not null. `none` is the result false. The limit is at
-- least 9 at every call.
pub parse_unsigned : List ℕ → ℕ → Option ℕ
unfolding parse_digits
parse_unsigned [] limit = none
parse_unsigned (c ∷ cs) limit = parse_digits limit (c ∷ cs) 0

abbrev pub positive_limit : ℕ
positive_limit = 9223372036854775807

abbrev pub negative_limit : ℕ
negative_limit = 9223372036854775808

-- -magnitude, which for the last one is written -9223372036854775807 - 1.
abbrev pub negate : ℕ → ℤ
negate zero = pos 0
negate (suc n) = negsuc n

-- parseSignedDecimal, on a text that is not null.
pub parse_signed : List ℕ → Option ℤ
unfolding parse_unsigned
parse_signed [] = none
parse_signed (c ∷ cs) =
    if c == b'-'
    then elim (parse_unsigned cs negative_limit) [ none ↦ none | some m ↦ some (negate m) ]
    else elim (parse_unsigned (c ∷ cs) positive_limit) [ none ↦ none | some m ↦ some (pos m) ]

-- The loop of pushUnsignedIntegerString, which fills a buffer of 32 bytes from its end: `room` is
-- the number of bytes before `current`. `none` is a write before the buffer.
pub print_digits : ℕ → ℕ → List ℕ → Option (List ℕ × ℕ)
print_digits zero value text = none
print_digits (suc room) value text =
    let rest = print_digits room (value / 10) ((b'0' + value % 10) ∷ text) in
    if value / 10 == 0 then some ((b'0' + value % 10) ∷ text, room) else rest

-- The minus sign takes one more byte.
abbrev pub put_sign : Bool → List ℕ × ℕ → Option (List ℕ)
put_sign false (text, room) = some text
put_sign true (text, zero) = none
put_sign true (text, suc room) = some (b'-' ∷ text)

pub print_unsigned : ℕ → Bool → Option (List ℕ)
unfolding print_digits
print_unsigned value negative = elim (print_digits 32 value []) [
  | none ↦ none
  | some out ↦ put_sign negative out
]

-- pushSignedInteger behind the branches that push a Lua integer or number: the sign, and the
-- magnitude, which for a negative value is -(value + 1) + 1.
pub print_signed : ℤ → Option (List ℕ)
unfolding print_unsigned
print_signed (pos n) = print_unsigned n false
print_signed (negsuc n) = print_unsigned (n + 1) true
