-- ===== src/Utf8.antt =====
-- `String::from_utf8`: the byte sequences that are UTF-8.
pub mod Words
use claudepod.Prelude.{
  ℕ, zero, suc, Bool, true, false, ◌&&◌, ◌||◌, [], ◌∷◌, ◌++◌, ◌==◌, Bytes, ltb, leb, if◌then◌else◌,
}

abbrev between : ℕ → ℕ → ℕ → Bool
between lo hi b = leb lo b && leb b hi

-- The smallest and the largest second byte after a first byte: no overlong forms, no surrogates,
-- nothing above U+10FFFF.
second_ok : ℕ → ℕ → Bool
second_ok a b =
    if between 0xe0 0xe0 a
    then between 0xa0 0xbf b
    else if between 0xed 0xed a
    then between 0x80 0x9f b
    else if between 0xf0 0xf0 a
    then between 0x90 0xbf b
    else if between 0xf4 0xf4 a
    then between 0x80 0x8f b
    else between 0x80 0xbf b

-- How many bytes follow a first byte, if it may begin a sequence.
pub data Lead : Type 0 where
  ascii_byte two three four invalid : Lead

lead : ℕ → Lead
lead a =
    if ltb a 0x80
    then ascii_byte
    else if between 0xc2 0xdf a
    then two
    else if between 0xe0 0xef a
    then three
    else if between 0xf0 0xf4 a
    then four
    else invalid

-- The state of the scan: how many more bytes the sequence wants, and whether the next is its
-- second, after the first byte given.
scan : ℕ → ℕ → Bytes → Bool
scan first zero [] = true
scan first (suc n) [] = false
scan first zero (b ∷ bs) =
    let plain = scan b 0 bs in
    let after_two = scan b 1 bs in
    let after_three = scan b 2 bs in
    let after_four = scan b 3 bs in
    elim (lead b) [
      | ascii_byte ↦ plain
      | two ↦ after_two
      | three ↦ after_three
      | four ↦ after_four
      | invalid ↦ false
    ]
scan first (suc n) (b ∷ bs) = let rest = scan 0 n bs in if second_ok first b then rest else false

unfoldable pub is_utf8 : Bytes → Bool
unfolding second_ok lead scan
is_utf8 bs = scan 0 0 bs

-- The bytes of an unfinished sequence, its first byte while the second is awaited, and how many
-- more bytes it wants.
pub record Pending : Type 0 where
  pub held : Bytes
  pub first : ℕ
  pub wanted : ℕ

abbrev idle : Pending
idle = record { held = []; first = 0; wanted = 0 }

-- U+FFFD
abbrev pub replacement : Bytes
replacement = 0xef ∷ 0xbf ∷ 0xbd ∷ []

abbrev begin_char : ℕ → Bytes × Pending
begin_char b = elim (lead b) [
  | ascii_byte ↦ (b ∷ [], idle)
  | two ↦ ([], record { held = b ∷ []; first = b; wanted = 1 })
  | three ↦ ([], record { held = b ∷ []; first = b; wanted = 2 })
  | four ↦ ([], record { held = b ∷ []; first = b; wanted = 3 })
  | invalid ↦ (replacement, idle)
]

continue_char : Bytes → ℕ → ℕ → ℕ → Bytes × Pending
continue_char held first zero b = begin_char b
continue_char held first (suc n) b =
    if second_ok first b
    then (if n == 0
        then (held ++ (b ∷ []), idle)
        else ([], record { held = held ++ (b ∷ []); first = 0; wanted = n }))
    else (replacement ++ (begin_char b).0, (begin_char b).1)

lossy_loop : Pending → Bytes → Bytes
lossy_loop p [] = if p.wanted == 0 then [] else replacement
lossy_loop p (b ∷ bs) =
    let (out, p') = continue_char p.held p.first p.wanted b in out ++ lossy_loop p' bs

-- `String::from_utf8_lossy`: each longest broken beginning of a sequence becomes U+FFFD.
unfoldable pub from_utf8_lossy : Bytes → Bytes
unfolding second_ok lead continue_char lossy_loop
from_utf8_lossy bs = lossy_loop idle bs

-- Whether a text is empty or all white space, as Unicode defines it.
all_space : Bytes → Bool
all_space [] = true
all_space (b ∷ []) = between 9 13 b || b == 32
all_space (b ∷ (c ∷ [])) =
    ((between 9 13 b || b == 32) && (between 9 13 c || c == 32))
    || (b == 0xc2 && (c == 0x85 || c == 0xa0))
all_space (b ∷ (c ∷ (d ∷ ds))) =
    let one = all_space (c ∷ (d ∷ ds)) in
    let pair = all_space (d ∷ ds) in
    let triple = all_space ds in
    if between 9 13 b || b == 32
    then one
    else if b == 0xc2 && (c == 0x85 || c == 0xa0)
    then pair
    else if (b == 0xe1 && c == 0x9a && d == 0x80)
        || (b == 0xe2 && c == 0x80 && (between 0x80 0x8a d || d == 0xa8 || d == 0xa9 || d == 0xaf))
        || (b == 0xe2 && c == 0x81 && d == 0x9f)
        || (b == 0xe3 && c == 0x80 && d == 0x80)
    then triple
    else false

-- `trim_end` of a text in UTF-8.
unfoldable pub trim_end : Bytes → Bytes
unfolding all_space
trim_end [] = []
trim_end (b ∷ bs) = let rest = trim_end bs in if all_space (b ∷ bs) then [] else b ∷ rest

-- The definitions of this file, by one name for `unfolding` lines that run them.
unfoldable pub utf8_code : Unit {0}
unfolding second_ok lead scan continue_char lossy_loop all_space is_utf8 from_utf8_lossy trim_end
utf8_code = tt
