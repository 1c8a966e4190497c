-- ===== src/Examples/Values.antt =====
-- Times, decimal texts and the walk over a small safearray (src/library/tUtil.cpp and
-- src/library/tLuaCOMTypeHandler.cpp).
use luacom.Prelude.{true, ℕ, ◌≡◌, ◌≢◌, ◌≤◌, ◌↔◌, refl, false, some, List, [], ◌∷◌, arith}
use luacom.Prelude.Int.{pos, negsuc}
use luacom.Vector.{Bound}
use luacom.SystemTime.{
  SystemTime, decrement_second, increment_second, round_to_second, days_in_month, next_day,
  previous_day, is_leap_year,
}
use luacom.SystemTime.Inverse.{IsValid, increment-decrement}
use luacom.Decimal.{parse_unsigned, parse_signed, print_signed}
use luacom.Decimal.Print.{value_from, Digits}
use luacom.Decimal.RoundTrip.{parse_unsigned-value, parse_signed-print}
use luacom.ParamList.{ParamList, new_param_list}
use luacom.Prelude.Result.{ok}
use luacom.TextBuffer.{TextBuffer, new_text_buffer, copy, assign, assign_self}
use luacom.Variant.{Sizes, vt_bool, variant_size, numeric_variant_type_name, double}
use luacom.TextBuffer.Copies.{assign-copies}

-- The first of March of the year 2000, a Wednesday, at midnight.
abbrev march : SystemTime
march = record {
  year = 2000;
  month = 3;
  day_of_week = 3;
  day = 1;
  hour = 0;
  minute = 0;
  second = 0;
  milliseconds = 750;
}

abbrev leap_day_end : SystemTime
leap_day_end = record {
  year = 2000;
  month = 2;
  day_of_week = 2;
  day = 29;
  hour = 23;
  minute = 59;
  second = 59;
  milliseconds = 750;
}

march-IsValid : IsValid march
unfolding days_in_month is_leap_year
march-IsValid = omega arith

leap_day_end-IsValid : IsValid leap_day_end
unfolding days_in_month is_leap_year
leap_day_end-IsValid = omega arith

decrement-march : decrement_second march ≡ some leap_day_end
unfolding decrement_second previous_day days_in_month is_leap_year
decrement-march = refl

increment-leap_day_end : increment_second leap_day_end ≡ some march
unfolding increment_second next_day days_in_month is_leap_year
increment-leap_day_end = refl

abbrev march_second : SystemTime
march_second = record march { second = 1; milliseconds = 0 }

round-march : round_to_second march ≡ some march_second
unfolding round_to_second increment_second
round-march = refl

increment-decrement_example : (increment_second leap_day_end ≡ some march) × IsValid leap_day_end
increment-decrement_example = increment-decrement march leap_day_end march-IsValid decrement-march

-- The text "42".
abbrev forty_two : List ℕ
forty_two = b'4' ∷ b'2' ∷ []

parse_unsigned-value_example :
    (parse_unsigned forty_two 100 ≡ some 42)
    ↔ ((forty_two ≢ []) × Digits forty_two × (value_from 0 forty_two ≡ 42) × (42 ≤ 100))
parse_unsigned-value_example = parse_unsigned-value forty_two 100 42 (omega arith) (omega arith)

parse_signed-print_example :
    (text : List ℕ) × (print_signed (negsuc 9223372036854775807) ≡ some text)
    × (parse_signed text ≡ some (negsuc 9223372036854775807))
parse_signed-print_example = parse_signed-print (negsuc 9223372036854775807) (omega arith)

-- Two rows of three, the rows counted from -1.
abbrev two_by_three : List Bound
two_by_three =
    record { elements = 2; lower = negsuc 0 } ∷ record { elements = 3; lower = pos 1 } ∷ []

abbrev two_params : ParamList
two_params = record { first_param = 3; num_params = 2 }

new-two_params : new_param_list (pos 3) (pos 2) ≡ ok two_params
unfolding new_param_list
new-two_params = refl

abbrev text : TextBuffer
text = record { size = 2; buffer = some (b'o' ∷ b'k' ∷ []) }

assign-copies_example :
    (copy text ≡ text) × (assign new_text_buffer text ≡ text) × (assign_self text ≡ new_text_buffer)
assign-copies_example = assign-copies new_text_buffer text (omega arith, refl)

size-vt_bool :
    (z : Sizes)
    → (variant_size z false vt_bool ≡ ok z.variant_bool)
      × (variant_size z true vt_bool ≡ ok z.pointer)
unfolding variant_size
size-vt_bool z = (refl, refl)

name-vt_bool : numeric_variant_type_name vt_bool ≡ double
unfolding numeric_variant_type_name
name-vt_bool = refl
