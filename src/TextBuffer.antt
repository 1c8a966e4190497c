-- ===== src/TextBuffer.antt =====
-- tStringBuffer (src/library/tStringBuffer.cpp): a copy of some bytes, with its size.
pub mod Copies
use luacom.Prelude.{
  ℕ, zero, suc, ◌+◌, Bool, true, false, Option, none, some, List, [], ◌∷◌, ◌++◌, take, length,
}

-- A null pointer is `none`.
pub record TextBuffer : Type 0 where
  pub size : ℕ
  pub buffer : Option (List ℕ)

-- Init, which the constructors begin with, and what Reset leaves.
abbrev pub new_text_buffer : TextBuffer
new_text_buffer = record { size = 0; buffer = none }

pub reset : TextBuffer → TextBuffer
reset b = new_text_buffer

-- copyToBuffer of a C string, given by its bytes before the null byte.
unfoldable pub copy_string : TextBuffer → Option (List ℕ) → TextBuffer
unfolding reset
copy_string b none = reset b
copy_string b (some text) = record { size = length text + 1; buffer = some (text ++ 0 ∷ []) }

-- copyToBuffer of a number of bytes, of which the source has at least that many.
unfoldable pub copy_bytes : TextBuffer → Option (List ℕ) → ℕ → TextBuffer
unfolding reset
copy_bytes b none count = reset b
copy_bytes b (some bytes) zero = reset b
copy_bytes b (some bytes) (suc count) = record {
  size = suc count;
  buffer = some (take (suc count) bytes);
}

-- The copy constructor.
unfoldable pub copy : TextBuffer → TextBuffer
unfolding copy_bytes
copy other = copy_bytes new_text_buffer other.buffer other.size

-- operator=, where the other buffer is an object of its own.
unfoldable pub assign : TextBuffer → TextBuffer → TextBuffer
unfolding copy_bytes
assign b other = copy_bytes (reset b) other.buffer other.size

-- operator=, where the other buffer is the same object: Reset has emptied it when it is read.
unfoldable pub assign_self : TextBuffer → TextBuffer
unfolding copy_bytes reset
assign_self b = let emptied = reset b in copy_bytes emptied emptied.buffer emptied.size

-- The constructors from a C string and from a number of bytes.
unfoldable pub from_string : Option (List ℕ) → TextBuffer
unfolding copy_string
from_string source = copy_string new_text_buffer source

unfoldable pub from_bytes : Option (List ℕ) → ℕ → TextBuffer
unfolding copy_bytes
from_bytes source count = copy_bytes new_text_buffer source count
