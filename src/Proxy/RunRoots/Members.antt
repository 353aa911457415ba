-- ===== src/Proxy/RunRoots/Members.antt =====
-- What the manifest of run_roots.rs lets be filled.
use claudepod.Prelude.{
  ℕ, ◌+◌, ◌≡◌, ◌↔◌, ◌⊎◌, inl, inr, refl, ap, true, ◌||◌, List, [], ◌∷◌, ◌++◌, Bytes, ascii, decimal,
  length, length-append, ◌==◌, ==_iff, Bool-cases, arith,
}
use claudepod.Outcome.{ok, add_context}
use claudepod.Outcome.Laws.{add_context-ok, chain-ok, err_ok, ok_injective}
use claudepod.Paths.{split, path_eq}
use claudepod.Paths.Equality.{path_eq_trans}
use claudepod.StorePath.{store_prefix, validate_direct}
use claudepod.StorePath.Shape.{Direct}
use claudepod.StorePath.Accepted.{validate_direct-Direct}
use claudepod.Proxy.RunRoots.{
  NixRunRoots, has_path, contains, insert, blank_line, parse_lines, parse_manifest,
}

abbrev pub IsDirect : Bytes → Type 0
IsDirect path = (hash : Bytes) × (name : Bytes) × Direct path hash name

-- One of the lines is a direct store path and the same path as `path`.
abbrev pub Listed : Bytes → List Bytes → Type 0
Listed path [] = ⊥
Listed path (line ∷ lines) = (IsDirect line × (path_eq line path ≡ true)) ⊎ Listed path lines

has_path_trans :
    (paths : List Bytes) (p q : Bytes)
    → has_path paths p ≡ true
    → path_eq p q ≡ true
    → has_path paths q ≡ true
unfolding has_path
has_path_trans [] p q h e = h
has_path_trans (x ∷ xs) p q h e = ground (arith, path_eq_trans x p q, has_path_trans xs p q, h, e)

has_path-append :
    (xs : List Bytes) (p q : Bytes) → has_path (xs ++ (p ∷ [])) q ≡ (has_path xs q || path_eq p q)
unfolding has_path
has_path-append [] p q = ground arith
has_path-append (x ∷ xs) p q = ground (arith, has_path-append xs p q)

has_path-insert :
    (xs : List Bytes) (p q : Bytes)
    → (has_path (insert p xs) q ≡ true) ↔ ((has_path xs q ≡ true) ⊎ (path_eq p q ≡ true))
unfolding insert
has_path-insert xs p q = elim (Bool-cases (has_path xs p)) [
  | inl e ↦ rw e (λ h. inl h, λ h. elim h [ inl k ↦ k | inr k ↦ has_path_trans xs p q e k ])
  | inr e ↦ rw (e, has_path-append xs p q) (λ h. ground (arith, h), λ h. ground (arith, h))
]

-- The last line may be blank, and is no path then.
blank_line_paths :
    (paths : List Bytes) (n : ℕ) (lines : List Bytes) (roots : NixRunRoots)
    → blank_line paths n lines ≡ ok roots
    → (lines ≡ []) × (paths ≡ roots.paths)
unfolding blank_line
blank_line_paths paths n [] roots h = (refl, ap (λ (r : NixRunRoots). r.paths) (ok_injective h))
blank_line_paths paths n (line ∷ lines) roots h = absurd (err_ok h)

not_blank : (line : Bytes) → (length line == 0) ≡ true → IsDirect line → ⊥
not_blank line z (hash, name, d) = omega (
  arith,
  (==_iff _ 0).0 z,
  ap length d.path_is,
  d.hash_is_there,
  length-append store_prefix (hash ++ (b'-' ∷ name)),
  length-append hash (b'-' ∷ name),
)

parse_lines-Listed :
    (paths : List Bytes) (n : ℕ) (lines : List Bytes) (roots : NixRunRoots) (path : Bytes)
    → parse_lines paths n lines ≡ ok roots
    → (has_path roots.paths path ≡ true) ↔ ((has_path paths path ≡ true) ⊎ Listed path lines)
unfolding parse_lines
parse_lines-Listed paths n [] roots path h =
    rw (ap (λ (r : NixRunRoots). r.paths) (ok_injective h))
      (λ k. inl k, λ k. elim k [ inl i ↦ i | inr i ↦ absurd i ])
parse_lines-Listed paths n (line ∷ lines) roots path h = elim (Bool-cases (length line == 0)) [
  | inl z ↦
      let (e, p) = blank_line_paths paths n lines roots (rw z at h) in
      rw (e, p)
        (
          λ k. inl k,
          λ k. elim k [
            | inl i ↦ i
            | inr (inl i) ↦ absurd (not_blank line z i.0)
            | inr (inr i) ↦ absurd i
          ],
        )
  | inr z ↦
      let (u, p, q) =
        chain-ok (add_context (ascii "line " ++ decimal n) (validate_direct line))
          (λ _. parse_lines (insert line paths) (n + 1) lines) roots (rw z at h) in
      let direct = (validate_direct-Direct line).0 (add_context-ok _ (validate_direct line) tt p) in
      next direct (has_path-insert paths line path)
        (parse_lines-Listed (insert line paths) (n + 1) lines roots path q)
]
  where
    next :
        IsDirect line
        → (has_path (insert line paths) path ≡ true)
          ↔ ((has_path paths path ≡ true) ⊎ (path_eq line path ≡ true))
        → (has_path roots.paths path ≡ true)
          ↔ ((has_path (insert line paths) path ≡ true) ⊎ Listed path lines)
        → (has_path roots.paths path ≡ true)
          ↔ ((has_path paths path ≡ true) ⊎ Listed path (line ∷ lines))
    next d i r = (
      λ h. elim (r.0 h) [
        | inl k ↦ elim (i.0 k) [ inl o ↦ inl o | inr o ↦ inr (inl (d, o)) ]
        | inr k ↦ inr (inr k)
      ],
      λ h. r.1 (elim h [
        | inl o ↦ inl (i.1 (inl o))
        | inr (inl o) ↦ inl (i.1 (inr o.1))
        | inr (inr o) ↦ inr o
      ]),
    )

-- A manifest that parses contains exactly the paths that are equal, as paths, to one of its lines,
-- where that line is a direct store path.
pub contains-parse_manifest :
    (raw path : Bytes) (roots : NixRunRoots)
    → parse_manifest raw ≡ ok roots
    → (contains roots path ≡ true) ↔ Listed path (split 10 raw)
unfolding parse_manifest contains has_path
contains-parse_manifest raw path roots h =
    let r = parse_lines-Listed [] 1 (split 10 raw) roots path h in
    (λ k. elim (r.0 k) [ inl i ↦ cc | inr i ↦ i ], λ k. r.1 (inr k))
