-- ===== src/Entry/Subids/Entries.antt =====
-- The entries of the lines of an id map, as src/bin/claudepod-entry.rs reads them.
use claudepod.Prelude.{
  ℕ, ◌+◌, ◌^◌, ◌<◌, ◌≡◌, inl, inr, refl, sym, ap, ◌∙◌, true, Option, none, some, List, [], ◌∷◌,
  Bytes, ascii, length, ltb, ltb→lt, ◌==◌, Bool-cases,
}
use claudepod.Outcome.{ok}
use claudepod.Outcome.Laws.{chain-ok, err_ok, ok_injective}
use claudepod.Utf8.Words.{trim, split_whitespace, Number, number, bad_number, parse_u64}
use claudepod.Entry.Subids.{
  parsed_field, parse_map_field, first, rest_of, Range, no_more, checked_end, parse_map_line,
}

parsed_field-number :
    (text : Bytes) (n : Number) (v : ℕ) → parsed_field text n ≡ ok v → n ≡ number v
unfolding parsed_field
parsed_field-number text (number n) v h = ap number (ok_injective h)
parsed_field-number text (bad_number e) v h = absurd (err_ok h)

parse_map_field-some :
    (f : Option Bytes) (line_no : ℕ) (name : Bytes) (v : ℕ)
    → parse_map_field f line_no name ≡ ok v
    → (a : Bytes) × (f ≡ some a) × (parse_u64 a ≡ number v)
unfolding parse_map_field
parse_map_field-some none line_no name v h = absurd (err_ok h)
parse_map_field-some (some a) line_no name v h = (a, refl, parsed_field-number _ (parse_u64 a) v h)

first-rest_of : (fs : List Bytes) (a : Bytes) → first fs ≡ some a → fs ≡ a ∷ rest_of fs
first-rest_of [] a h = absurd (cc)
first-rest_of (f ∷ fs) a h = cc

no_more-nil : (line_no : ℕ) (fs : List Bytes) → no_more line_no fs ≡ ok tt → fs ≡ []
unfolding no_more
no_more-nil line_no [] h = refl
no_more-nil line_no (f ∷ fs) h = absurd (err_ok h)

checked_end-add :
    (line_no inside count end : ℕ)
    → checked_end line_no inside count ≡ ok end
    → (end ≡ inside + count) × (end < 2 ^ 64)
unfolding checked_end
checked_end-add line_no inside count end h = elim (Bool-cases (ltb (inside + count) (2 ^ 64))) [
  | inl q ↦ let e = sym (ok_injective (rw q at h)) in (e, rw (sym e) at (ltb→lt _ _ q))
  | inr q ↦ absurd (err_ok (rw q at h))
]

-- A line of three numbers, the first and the third of which are a range.
pub record IsEntry (fields : List Bytes) (r : Range) : Type 0 where
  pub inside : Bytes
  pub parent : Bytes
  pub count : Bytes
  pub three : fields ≡ inside ∷ parent ∷ count ∷ []
  pub inside_is : parse_u64 inside ≡ number r.start
  pub parent_is : (p : ℕ) × (parse_u64 parent ≡ number p)
  pub count_is : parse_u64 count ≡ number r.count
  pub fits : r.start + r.count < 2 ^ 64

pub parse_map_line-IsEntry :
    (line_no : ℕ) (fields : List Bytes) (r : Range × ℕ)
    → parse_map_line line_no fields ≡ ok r
    → IsEntry fields r.0 × (r.1 ≡ (r.0).start + (r.0).count)
unfolding parse_map_line
parse_map_line-IsEntry line_no fields r h =
    let (inside, p, h₁) =
      chain-ok (parse_map_field (first fields) line_no (ascii "inside id")) _ r h in
    let fs = rest_of fields in
    let (parent, q, h₂) =
      chain-ok (parse_map_field (first fs) line_no (ascii "parent id")) _ r h₁ in
    let gs = rest_of fs in
    let (count, s, h₃) = chain-ok (parse_map_field (first gs) line_no (ascii "count")) _ r h₂ in
    let (u, t, h₄) = chain-ok (no_more line_no (rest_of gs)) _ r h₃ in
    let (end, v, h₅) = chain-ok (checked_end line_no inside count) _ r h₄ in
    let (a, a₁, a₂) = parse_map_field-some (first fields) line_no _ inside p in
    let (b, b₁, b₂) = parse_map_field-some (first fs) line_no _ parent q in
    let (c, c₁, c₂) = parse_map_field-some (first gs) line_no _ count s in
    let (e, l) = checked_end-add line_no inside count end v in
    rw (← ok_injective h₅) (
      record {
        inside = a;
        parent = b;
        count = c;
        three =
            first-rest_of fields a a₁
            ∙ ap (λ (t : List Bytes). a ∷ t)
                (first-rest_of fs b b₁
                  ∙ ap (λ (t : List Bytes). b ∷ t)
                      (first-rest_of gs c c₁
                        ∙ ap (λ (t : List Bytes). c ∷ t) (no_more-nil line_no (rest_of gs) t)));
        inside_is = a₂;
        parent_is = (parent, b₂);
        count_is = c₂;
        fits = rw e at l;
      },
      e,
    )

-- The entries of a map's lines: a blank line has none.
pub data Entries : List Bytes → List Range → Type 0 where
  done : Entries [] []
  blank :
      (line : Bytes) (ls : List Bytes) (rs : List Range)
      → (length (trim line) == 0) ≡ true
      → Entries ls rs
      → Entries (line ∷ ls) rs
  entry :
      (line : Bytes) (r : Range) (ls : List Bytes) (rs : List Range)
      → IsEntry (split_whitespace (trim line)) r
      → Entries ls rs
      → Entries (line ∷ ls) (r ∷ rs)
