-- ===== src/TextBuffer/Copies.antt =====
-- Copies of a buffer are equal to it, if they are not made of itself.
use luacom.Prelude.{
  ◌+◌, ◌++◌, ℕ, zero, suc, ◌≤◌, ◌<◌, ◌≡◌, refl, sym, ap, Option, none, some, List, [], ◌∷◌, arith,
  take, length, length-append, length-take,
}
use luacom.TextBuffer.{
  TextBuffer, new_text_buffer, reset, copy_string, copy_bytes, from_string, from_bytes, copy,
  assign, assign_self,
}

-- The size is that of the bytes; a buffer that is not null has some.
abbrev Sized : ℕ → Option (List ℕ) → Type 0
Sized n none = n ≡ 0
Sized n (some bytes) = (0 < n) × (length bytes ≡ n)

abbrev pub IsSized : TextBuffer → Type 0
IsSized b = Sized b.size b.buffer

take-length : (n : ℕ) (xs : List ℕ) → length xs ≡ n → take n xs ≡ xs
take-length zero [] h = refl
take-length zero (x ∷ xs) h = absurd (omega arith)
take-length (suc n) [] h = absurd (omega arith)
take-length (suc n) (x ∷ xs) h = ap (◌∷◌ x) (take-length n xs (omega arith))

copy_bytes-Sized :
    (b other : TextBuffer) → IsSized other → copy_bytes b other.buffer other.size ≡ other
unfolding copy_bytes
copy_bytes-Sized b other h = bytes other.size other.buffer h
  where
    bytes :
        (n : ℕ) (t : Option (List ℕ))
        → Sized n t
        → copy_bytes b t n ≡ record { size = n; buffer = t }
    bytes zero none h = refl
    bytes (suc n) none h = absurd (omega arith)
    bytes zero (some xs) h = absurd (omega arith)
    bytes (suc n) (some xs) h = rw (take-length (suc n) xs h.1) refl

-- The copy constructor and an assignment from another object yield a buffer equal to one whose
-- size is that of its bytes, while an assignment of a buffer to itself leaves it empty.
pub assign-copies :
    (b other : TextBuffer)
    → IsSized other
    → (copy other ≡ other) × (assign b other ≡ other) × (assign_self other ≡ new_text_buffer)
unfolding copy assign assign_self copy_bytes
assign-copies b other h =
    (copy_bytes-Sized new_text_buffer other h, copy_bytes-Sized (reset b) other h, refl)

-- Copying a string, or as many bytes as there are at most, gives a buffer whose size is that of
-- its bytes.
pub copies-IsSized :
    (b : TextBuffer) (bytes : List ℕ) (count : ℕ)
    → count ≤ length bytes
    → IsSized (copy_string b (some bytes)) × IsSized (copy_bytes b (some bytes) count)
unfolding copy_string copy_bytes
copies-IsSized b bytes zero h = ((omega arith, length-append bytes (0 ∷ [])), refl)
copies-IsSized b bytes (suc count) h = (
  (omega arith, length-append bytes (0 ∷ [])),
  (omega arith, omega (arith, length-take (suc count) bytes)),
)

-- A buffer made of a string is the one made of its bytes and the null byte.
pub from_string-from_bytes :
    (bytes : List ℕ)
    → from_string (some bytes) ≡ from_bytes (some (bytes ++ 0 ∷ [])) (length bytes + 1)
unfolding from_string from_bytes copy_string copy_bytes
from_string-from_bytes bytes =
    let whole : IsSized (record { size = length bytes + 1; buffer = some (bytes ++ 0 ∷ []) }) =
      (omega arith, length-append bytes (0 ∷ [])) in
    sym (
      copy_bytes-Sized new_text_buffer
        (record { size = length bytes + 1; buffer = some (bytes ++ 0 ∷ []) }) whole)
