-- ===== src/Wire/Format.antt =====
-- The wire format of nix `serialise.cc`, apart from the code that reads and writes it.
use claudepod.Prelude.{ℕ, [], ◌∷◌, ◌++◌, List, Bytes, length, replicate}
use claudepod.Wire.{le_bytes, pad_length}

abbrev pub word : ℕ → Bytes
word v = le_bytes 8 v

abbrev pub padding : ℕ → Bytes
padding len = replicate (pad_length len) 0

-- A length, the bytes, and zeros up to a multiple of eight.
unfoldable pub string_frame : Bytes → Bytes
string_frame s = word (length s) ++ (s ++ padding (length s))

unfoldable pub strings_frame : List Bytes → Bytes
strings_frame [] = []
strings_frame (s ∷ ss) = string_frame s ++ strings_frame ss

unfoldable pub list_frame : List Bytes → Bytes
list_frame items = word (length items) ++ strings_frame items
