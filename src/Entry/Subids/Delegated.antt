-- ===== src/Entry/Subids/Delegated.antt =====
-- Of an id map exactly the ids above the runtime user are delegated.
use claudepod.Prelude.{
  ℕ, ◌+◌, ◌-◌, ◌^◌, ◌≤◌, ◌<◌, ◌≡◌, ◌↔◌, ◌⊎◌, inl, inr, refl, sym, ap, ◌∙◌, List, [], ◌∷◌, ◌++◌,
  append-nil, append_assoc, Bytes, length, All, ltb, ltb→lt, ◌==◌, Bool-cases, if◌then◌else◌, arith,
}
use claudepod.Outcome.{ok}
use claudepod.Outcome.Laws.{chain-ok, ok_injective}
use claudepod.Utf8.Words.{lines, trim, split_whitespace}
use claudepod.Entry.Subids.Entries.{Entries, done, blank, entry, parse_map_line-IsEntry}
use claudepod.Entry.Subids.{
  subid_delegate_start, Range, parse_map_line, delegate_start, delegation_line, delegate,
  subid_lines, subid_file_from_map,
}

abbrev pub Holds : ℕ → List Range → Type 0
Holds id [] = ⊥
Holds id (r ∷ rs) = ((r.start ≤ id) × (id < r.start + r.count)) ⊎ Holds id rs

-- One range for each line of the file.
abbrev pub subid_text : List Range → Bytes
subid_text [] = []
subid_text (r ∷ rs) = delegation_line r.start (r.start + r.count) ++ subid_text rs

pub record IsDelegable (r : Range) : Type 0 where
  pub above : subid_delegate_start ≤ r.start
  pub some_ids : 0 < r.count
  pub within : r.start + r.count < 2 ^ 64

-- What is delegated of one entry, and of all.
abbrev cut : Range → List Range → List Range
cut r rs =
    let start = delegate_start r.start in
    if ltb start (r.start + r.count)
    then record { start = start; count = r.start + r.count - start } ∷ rs
    else rs

abbrev cut_all : List Range → List Range
cut_all [] = []
cut_all (r ∷ rs) = cut r (cut_all rs)

cut-IsDelegable :
    (r : Range) (rs : List Range)
    → r.start + r.count < 2 ^ 64
    → All IsDelegable rs
    → All IsDelegable (cut r rs)
unfolding delegate_start
cut-IsDelegable r rs h k = elim (Bool-cases (ltb (delegate_start r.start) (r.start + r.count))) [
  | inl q ↦
      rw q (record { above = ground arith; some_ids = ground arith; within = ground arith }, k)
  | inr q ↦ rw q k
]

Holds-cut :
    (id : ℕ) (r : Range) (rs : List Range)
    → Holds id (cut r rs)
      ↔ (((subid_delegate_start ≤ id) × (r.start ≤ id) × (id < r.start + r.count)) ⊎ Holds id rs)
unfolding delegate_start
Holds-cut id r rs = elim (Bool-cases (ltb (delegate_start r.start) (r.start + r.count))) [
  | inl q ↦ rw q (
    (λ h. elim h [ inl p ↦ inl (ground arith) | inr p ↦ inr p ]),
    (λ h. elim h [ inl p ↦ inl (ground arith) | inr p ↦ inr p ]),
  )
  | inr q ↦ rw q ((λ h. inr h), (λ h. elim h [ inl p ↦ absurd (ground arith) | inr p ↦ p ]))
]

subid_text-cut :
    (out : Bytes) (r : Range) (rs : List Range)
    → delegate out r.start (r.start + r.count) ++ subid_text rs ≡ out ++ subid_text (cut r rs)
unfolding delegate
subid_text-cut out r rs = elim (Bool-cases (ltb (delegate_start r.start) (r.start + r.count))) [
  | inl q ↦ rw q (
      append_assoc out (delegation_line (delegate_start r.start) (r.start + r.count))
        (subid_text rs)
      ∙ ap (λ (e : ℕ). out ++ (delegation_line (delegate_start r.start) e ++ subid_text rs))
          (end (ltb→lt _ _ q)))
  | inr q ↦ rw q refl
]
  where
    end : {s e : ℕ} → s < e → e ≡ s + (e - s)
    end h = omega arith

subid_lines-Entries :
    (out : Bytes) (line_no : ℕ) (ls : List Bytes) (o : Bytes)
    → subid_lines out line_no ls ≡ ok o
    → (es : List Range) × Entries ls es
      × All (λ (r : Range). r.start + r.count < 2 ^ 64) es
      × (o ≡ out ++ subid_text (cut_all es))
unfolding subid_lines
subid_lines-Entries out n [] o h = ([], done, tt, sym (ok_injective h) ∙ sym (append-nil out))
subid_lines-Entries out n (line ∷ ls) o h = elim (Bool-cases (length (trim line) == 0)) [
  | inl q ↦
      let (es, e, f, p) = subid_lines-Entries out (n + 1) ls o (rw q at h) in
      (es, blank line ls es q e, f, p)
  | inr q ↦
      let (r, s, t) =
        chain-ok (parse_map_line n (split_whitespace (trim line)))
          (λ r. subid_lines (delegate out (r.0).start r.1) (n + 1) ls) o (rw q at h) in
      let (is, k) = parse_map_line-IsEntry n _ r s in
      let (es, e, f, p) = subid_lines-Entries (delegate out (r.0).start r.1) (n + 1) ls o t in
      (
        r.0 ∷ es,
        entry line r.0 ls es is e,
        (is.fits, f),
        rw k at p ∙ subid_text-cut out r.0 (cut_all es),
      )
]

cut_all-IsDelegable :
    (es : List Range)
    → All (λ (r : Range). r.start + r.count < 2 ^ 64) es
    → All IsDelegable (cut_all es)
cut_all-IsDelegable [] h = tt
cut_all-IsDelegable (r ∷ es) h = cut-IsDelegable r (cut_all es) h.0 (cut_all-IsDelegable es h.1)

Holds-cut_all :
    (id : ℕ) (es : List Range) → Holds id (cut_all es) ↔ ((subid_delegate_start ≤ id) × Holds id es)
Holds-cut_all id [] = ((λ h. absurd h), (λ h. h.1))
Holds-cut_all id (r ∷ es) =
    let (to, from) = Holds-cut id r (cut_all es) in
    let (to', from') = Holds-cut_all id es in
    (
      (λ h. elim (to h) [
        | inl p ↦ (p.0, inl (p.1, p.2))
        | inr p ↦ let q = to' p in (q.0, inr q.1)
      ]),
      (λ h. from (elim (h.1) [ inl p ↦ inl (h.0, p.0, p.1) | inr p ↦ inr (from' (h.0, p)) ])),
    )

-- An id map that is accepted has three numbers in each line that is not blank, and the file that is
-- made of it is a line for each of some ranges. These begin above the runtime user, are not empty
-- and end within a u64, and they hold exactly the ids above the runtime user that the lines' ranges
-- hold.
pub subid_file_from_map-delegates :
    (map out : Bytes)
    → subid_file_from_map map ≡ ok out
    → (es : List Range) × (ranges : List Range) × Entries (lines map) es
      × (out ≡ subid_text ranges)
      × All IsDelegable ranges
      × ((id : ℕ) → Holds id ranges ↔ ((subid_delegate_start ≤ id) × Holds id es))
unfolding subid_file_from_map
subid_file_from_map-delegates map out h =
    let (es, e, f, p) = subid_lines-Entries [] 1 (lines map) out h in
    (es, cut_all es, e, p, cut_all-IsDelegable es f, λ id. Holds-cut_all id es)
