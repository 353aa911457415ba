-- ===== src/Paths/Names.antt =====
-- The last component of a path, and the path that is made of a directory and a name.
use claudepod.Prelude.{
  ℕ, ◌≡◌, ◌⊎◌, ==_iff, refl, sym, ap, ◌∙◌, some, true, false, ◌||◌, List, [], ◌∷◌, ◌++◌,
  append_assoc, Bytes, length, ◌==◌, ==_refl, bytes_eq, bytes_eq→eq, Bool-cases, inl, inr,
}
use claudepod.Paths.{
  split, contains_byte, keep_parts, is_rooted, relative_components, components, last_part,
  normal_part, file_name, ends_open, path_join,
}
use claudepod.Paths.Split.{IsPiece, split-pieces, split-piece}

pub split-append_piece :
    (sep : ℕ) (d t : Bytes) → IsPiece sep t → split sep (d ++ (sep ∷ t)) ≡ split sep d ++ (t ∷ [])
unfolding split
split-append_piece sep [] t h = rw (==_refl sep, split-piece sep t h) refl
split-append_piece sep (b ∷ d) t h =
    let (p, ps, e, j) = split-pieces sep d in
    elim (Bool-cases (b == sep)) [
      | inl q ↦ rw (q, split-append_piece sep d t h, e) refl
      | inr q ↦ rw (q, split-append_piece sep d t h, e) refl
    ]

pub keep_parts-append :
    (xs ys : List Bytes) → keep_parts (xs ++ ys) ≡ keep_parts xs ++ keep_parts ys
unfolding keep_parts
keep_parts-append [] ys = refl
keep_parts-append (p ∷ xs) ys = elim (Bool-cases (length p == 0 || bytes_eq p (b'.' ∷ []))) [
  | inl e ↦ rw e (keep_parts-append xs ys)
  | inr e ↦ rw e (ap (λ (t : List Bytes). p ∷ t) (keep_parts-append xs ys))
]

pub last_part-append : (xs : List Bytes) (t : Bytes) → last_part (xs ++ (t ∷ [])) ≡ some t
last_part-append [] t = refl
last_part-append (x ∷ []) t = refl
last_part-append (x ∷ (y ∷ xs)) t = last_part-append (y ∷ xs) t

-- A name that a directory may have an entry by.
pub record IsName (t : Bytes) : Type 0 where
  pub no_slash : IsPiece b'/' t
  pub not_empty : (length t == 0) ≡ false
  pub not_dot : bytes_eq t (b'.' ∷ []) ≡ false
  pub not_dots : bytes_eq t (b'.' ∷ b'.' ∷ []) ≡ false

keep_parts-name : (t : Bytes) → IsName t → keep_parts (t ∷ []) ≡ t ∷ []
unfolding keep_parts
keep_parts-name t n = rw (n.not_empty, n.not_dot) refl

last_part-keep_parts :
    (before xs : List Bytes) (t : Bytes)
    → IsName t
    → last_part (before ++ keep_parts (xs ++ (t ∷ []))) ≡ some t
last_part-keep_parts before xs t n =
    ap (λ (l : List Bytes). last_part (before ++ l))
      (keep_parts-append xs (t ∷ [])
        ∙ ap (λ (l : List Bytes). keep_parts xs ++ l) (keep_parts-name t n))
    ∙ ap last_part (sym (append_assoc before (keep_parts xs) (t ∷ [])))
    ∙ last_part-append (before ++ keep_parts xs) t

last_part-relative_components :
    (xs : List Bytes) (t : Bytes)
    → IsName t
    → last_part (relative_components (xs ++ (t ∷ []))) ≡ some t
last_part-relative_components [] t n = rw n.not_dot (last_part-keep_parts [] [] t n)
last_part-relative_components (p ∷ ps) t n = elim (Bool-cases (bytes_eq p (b'.' ∷ []))) [
  | inl e ↦ rw e (last_part-keep_parts (p ∷ []) ps t n)
  | inr e ↦ rw e (last_part-keep_parts [] (p ∷ ps) t n)
]

last_part-components : (d t : Bytes) → IsName t → last_part (components (d ++ (b'/' ∷ t))) ≡ some t
unfolding components
last_part-components d t n =
    rw (split-append_piece b'/' d t n.no_slash) (elim (Bool-cases (is_rooted (d ++ (b'/' ∷ t)))) [
      | inl e ↦ rw e (last_part-keep_parts ((b'/' ∷ []) ∷ []) (split b'/' d) t n)
      | inr e ↦ rw e (last_part-relative_components (split b'/' d) t n)
    ])

slash_piece : IsPiece b'/' (b'/' ∷ []) → ⊥
unfolding contains_byte
slash_piece h = cc

not_root : (t : Bytes) → IsName t → bytes_eq t (b'/' ∷ []) ≡ false
not_root t n = elim (Bool-cases (bytes_eq t (b'/' ∷ []))) [
  | inl e ↦ absurd (slash_piece (rw (bytes_eq→eq t (b'/' ∷ []) e) at n.no_slash))
  | inr e ↦ e
]

normal_part-name : (t : Bytes) → IsName t → normal_part (some t) ≡ some t
normal_part-name t n = rw (not_root t n, n.not_dot, n.not_dots) refl

pub IsName-is_rooted : (t : Bytes) → IsPiece b'/' t → is_rooted t ≡ false
unfolding contains_byte
IsName-is_rooted [] h = refl
IsName-is_rooted (b ∷ t) h = elim (Bool-cases (b == b'/')) [ inl e ↦ cc | inr e ↦ e ]

file_name-below : (d t : Bytes) → IsName t → file_name (d ++ (b'/' ∷ t)) ≡ some t
unfolding file_name
file_name-below d t n = ap normal_part (last_part-components d t n) ∙ normal_part-name t n

file_name-name : (t : Bytes) → IsName t → file_name t ≡ some t
unfolding file_name components
file_name-name t n =
    rw (IsName-is_rooted t n.no_slash, split-piece b'/' t n.no_slash)
      (ap normal_part (last_part-relative_components [] t n) ∙ normal_part-name t n)

ends_open_cases :
    (dir : Bytes) → ends_open dir ≡ false → (dir ≡ []) ⊎ ((d : Bytes) × (dir ≡ d ++ (b'/' ∷ [])))
ends_open_cases [] h = inl refl
ends_open_cases (b ∷ []) h = elim (Bool-cases (b == b'/')) [
  | inl e ↦ inr ([], ap (λ (x : ℕ). x ∷ []) ((==_iff b b'/').0 e))
  | inr e ↦ absurd (true_false (rw e at h))
]
  where
    true_false : true ≡ false → ⊥
    true_false h = cc
ends_open_cases (b ∷ (c ∷ cs)) h = elim (ends_open_cases (c ∷ cs) h) [
  | inl e ↦ absurd (cons_nil e)
  | inr (d, e) ↦ inr (b ∷ d, ap (λ (t : Bytes). b ∷ t) e)
]
  where
    cons_nil : c ∷ cs ≡ [] → ⊥
    cons_nil h = cc

-- The last component of a directory's entry is its name.
pub file_name-path_join : (dir t : Bytes) → IsName t → file_name (path_join dir t) ≡ some t
unfolding path_join
file_name-path_join dir t n =
    rw (IsName-is_rooted t n.no_slash) (elim (Bool-cases (ends_open dir)) [
      | inl e ↦ rw e (file_name-below dir t n)
      | inr e ↦ rw e (elim (ends_open_cases dir e) [
        | inl q ↦ rw q (file_name-name t n)
        | inr (d, q) ↦ rw (q, append_assoc d (b'/' ∷ []) t) (file_name-below d t n)
      ])
    ])
