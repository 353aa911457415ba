-- ===== src/Utf8/Words.antt =====
-- `trim`, `lines`, `split_whitespace` and `parse::<u64>` of the standard library, on texts in UTF-8.
use claudepod.Prelude.{
  ℕ, zero, suc, ◌+◌, ◌-◌, ◌*◌, ◌^◌, Bool, ◌&&◌, ◌||◌, List, [], ◌∷◌, ◌++◌, Bytes, length, leb, ltb,
  ◌==◌, if◌then◌else◌,
}
use claudepod.Outcome.{IntError, empty, invalid_digit, pos_overflow}
use claudepod.Paths.{split}
use claudepod.Utf8.{trim_end}

abbrev is_ascii_space : ℕ → Bool
is_ascii_space b = (leb 9 b && leb b 13) || b == 32

abbrev is_space_2 : ℕ → ℕ → Bool
is_space_2 b c = b == 0xc2 && (c == 0x85 || c == 0xa0)

abbrev is_space_3 : ℕ → ℕ → ℕ → Bool
is_space_3 b c d =
    (b == 0xe1 && c == 0x9a && d == 0x80)
    || (b == 0xe2
        && c == 0x80
        && ((leb 0x80 d && leb d 0x8a) || d == 0xa8 || d == 0xa9 || d == 0xaf))
    || (b == 0xe2 && c == 0x81 && d == 0x9f)
    || (b == 0xe3 && c == 0x80 && d == 0x80)

-- How many bytes the white space has that the text begins with, as one character.
unfoldable pub space_width : Bytes → ℕ
space_width [] = 0
space_width (b ∷ []) = if is_ascii_space b then 1 else 0
space_width (b ∷ (c ∷ [])) = if is_ascii_space b then 1 else if is_space_2 b c then 2 else 0
space_width (b ∷ (c ∷ (d ∷ ds))) =
    if is_ascii_space b then 1 else if is_space_2 b c then 2 else if is_space_3 b c d then 3 else 0

-- The first number is how many bytes of a white space are still to be passed over.
unfoldable pub trim_start_loop : ℕ → Bytes → Bytes
trim_start_loop skip [] = []
trim_start_loop (suc skip) (b ∷ bs) = trim_start_loop skip bs
trim_start_loop zero (b ∷ bs) = elim (space_width (b ∷ bs)) [
  | zero ↦ b ∷ bs
  | suc w ↦ trim_start_loop w bs
]

unfoldable pub trim : Bytes → Bytes
trim text = trim_end (trim_start_loop 0 text)

abbrev pub push_word : Bytes → List Bytes → List Bytes
push_word [] words = words
push_word (b ∷ bs) words = (b ∷ bs) ∷ words

-- `text.split_whitespace()`, with the word that is being read.
unfoldable pub words_loop : ℕ → Bytes → Bytes → List Bytes
words_loop skip word [] = push_word word []
words_loop (suc skip) word (b ∷ bs) = words_loop skip word bs
words_loop zero word (b ∷ bs) = elim (space_width (b ∷ bs)) [
  | zero ↦ words_loop 0 (word ++ (b ∷ [])) bs
  | suc w ↦ push_word word (words_loop w [] bs)
]

unfoldable pub split_whitespace : Bytes → List Bytes
split_whitespace text = words_loop 0 [] text

unfoldable pub strip_return : Bytes → Bytes
strip_return [] = []
strip_return (b ∷ []) = if b == 13 then [] else b ∷ []
strip_return (b ∷ (c ∷ cs)) = b ∷ strip_return (c ∷ cs)

-- What stands behind the last line break is a line if it is not empty, and keeps a carriage return.
unfoldable pub whole_lines : List Bytes → List Bytes
whole_lines [] = []
whole_lines (line ∷ []) = if length line == 0 then [] else line ∷ []
whole_lines (line ∷ (next ∷ rest)) = strip_return line ∷ whole_lines (next ∷ rest)

-- `text.lines()`
unfoldable pub lines : Bytes → List Bytes
lines text = whole_lines (split 10 text)

pub data Number : Type 0 where
  number : ℕ → Number
  bad_number : IntError → Number

-- A digit is looked at before the value is: an item that is no digit is named first.
unfoldable pub parse_u64_digits : ℕ → Bytes → Number
parse_u64_digits acc [] = number acc
parse_u64_digits acc (b ∷ bs) =
    let v = acc * 10 + (b - b'0') in
    let rest = parse_u64_digits v bs in
    if leb b'0' b && leb b b'9'
    then (if ltb v (2 ^ 64) then rest else bad_number pos_overflow)
    else bad_number invalid_digit

-- `text.parse::<u64>()`: digits, perhaps behind a plus sign.
unfoldable pub parse_u64 : Bytes → Number
parse_u64 [] = bad_number empty
parse_u64 (b ∷ []) = parse_u64_digits 0 (b ∷ [])
parse_u64 (b ∷ (c ∷ cs)) =
    if b == b'+' then parse_u64_digits 0 (c ∷ cs) else parse_u64_digits 0 (b ∷ (c ∷ cs))

-- The definitions of this file, by one name for `unfolding` lines that run them.
unfoldable pub words_code : Unit {0}
unfolding space_width trim_start_loop trim words_loop split_whitespace strip_return whole_lines
    lines parse_u64_digits parse_u64
words_code = tt
