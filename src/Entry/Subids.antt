-- ===== src/Entry/Subids.antt =====
-- The subordinate ids of src/bin/claudepod-entry.rs: what of an id map is delegated.
pub mod Entries
pub mod Delegated
use claudepod.Prelude.{
  ℕ, suc, ◌+◌, ◌-◌, ◌^◌, Option, none, some, List, [], ◌∷◌, ◌++◌, Bytes, ascii, decimal, length,
  leb, ltb, ◌==◌, if◌then◌else◌,
}
use claudepod.Outcome.{Outcome, ok, err, message, context, library, parse_int, chain, add_context}
use claudepod.Utf8.Words.{
  lines, trim, split_whitespace, Number, number, bad_number, parse_u64, words_code,
}

abbrev pub runtime_uid : ℕ
runtime_uid = 1000

abbrev pub subid_delegate_start : ℕ
subid_delegate_start = runtime_uid + 1

abbrev map_line : ℕ → Bytes
map_line line_no = ascii "uid/gid map line " ++ decimal line_no

unfoldable pub parsed_field : Bytes → Number → Outcome ℕ
parsed_field text (number n) = ok n
parsed_field text (bad_number e) = err (context text (library (parse_int e)))

unfoldable pub parse_map_field : Option Bytes → ℕ → Bytes → Outcome ℕ
parse_map_field none line_no name = err (message (map_line line_no ++ (ascii " missing " ++ name)))
parse_map_field (some field) line_no name =
    parsed_field (map_line line_no ++ (ascii " invalid " ++ name)) (parse_u64 field)

-- `fields.next()`
abbrev pub first : List Bytes → Option Bytes
first [] = none
first (f ∷ fs) = some f

abbrev pub rest_of : List Bytes → List Bytes
rest_of [] = []
rest_of (f ∷ fs) = fs

-- The ids `start`, `start + 1`, …, as many as `count`.
pub record Range : Type 0 where
  pub start : ℕ
  pub count : ℕ

unfoldable pub no_more : ℕ → List Bytes → Outcome (Unit {0})
no_more line_no [] = ok tt
no_more line_no (f ∷ fs) = err (message (map_line line_no ++ ascii " has extra fields"))

-- `inside.checked_add(count)` of two u64, with its context
unfoldable pub checked_end : ℕ → ℕ → ℕ → Outcome ℕ
checked_end line_no inside count =
    if ltb (inside + count) (2 ^ 64)
    then ok (inside + count)
    else err (message (map_line line_no ++ ascii " overflows"))

-- A line's first and third field, and where their range ends.
unfoldable pub parse_map_line : ℕ → List Bytes → Outcome (Range × ℕ)
parse_map_line line_no fields =
    chain (parse_map_field (first fields) line_no (ascii "inside id")) λ inside.
      let fields' = rest_of fields in
      chain (parse_map_field (first fields') line_no (ascii "parent id")) λ _.
        let fields'' = rest_of fields' in
        chain (parse_map_field (first fields'') line_no (ascii "count")) λ count.
          chain (no_more line_no (rest_of fields'')) λ _.
            chain (checked_end line_no inside count)
              λ end. ok (record { start = inside; count = count }, end)

-- `inside.max(SUBID_DELEGATE_START)`
unfoldable pub delegate_start : ℕ → ℕ
delegate_start inside = if leb inside subid_delegate_start then subid_delegate_start else inside

-- `writeln!(out, "{RUNTIME_UID}:{start}:{}", end - start)`
unfoldable pub delegation_line : ℕ → ℕ → Bytes
delegation_line start end =
    decimal runtime_uid ++ ((b':' ∷ decimal start) ++ ((b':' ∷ decimal (end - start)) ++ (10 ∷ [])))

unfoldable pub delegate : Bytes → ℕ → ℕ → Bytes
delegate out inside end =
    let start = delegate_start inside in
    if ltb start end then out ++ delegation_line start end else out

-- The loop over the lines.
unfoldable pub subid_lines : Bytes → ℕ → List Bytes → Outcome Bytes
subid_lines out line_no [] = ok out
subid_lines out line_no (line ∷ ls) =
    let text = trim line in
    let blank = subid_lines out (line_no + 1) ls in
    let rest =
      chain (parse_map_line line_no (split_whitespace text))
        λ r. subid_lines (delegate out (r.0).start r.1) (line_no + 1) ls in
    if length text == 0 then blank else rest

unfoldable pub subid_file_from_map : Bytes → Outcome Bytes
subid_file_from_map map = subid_lines [] 1 (lines map)

-- The definitions of this file, by one name for `unfolding` lines that run them.
unfoldable pub subids_code : Unit {0}
unfolding words_code ascii decimal parsed_field parse_map_field no_more checked_end parse_map_line
    delegate_start delegation_line delegate subid_lines subid_file_from_map
subids_code = tt
