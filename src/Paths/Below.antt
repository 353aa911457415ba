-- ===== src/Paths/Below.antt =====
-- The components of a path below a directory.
use claudepod.Prelude.{
  ℕ, ◌≡◌, refl, sym, ap, ◌∙◌, none, some, true, false, ◌||◌, List, [], ◌∷◌, ◌++◌, append-nil, Bytes,
  length, ◌==◌, ==_refl, bytes_eq, bytes_eq→eq, bytes_eq_refl, All, All-append_right, Bool-cases,
  inl, inr,
}
use claudepod.Paths.{split, keep_parts, is_rooted, components, strip_parts, join_parts}
use claudepod.Paths.Split.{IsPiece, join_with, split-pieces, split-join_with, split-IsPiece}
use claudepod.Paths.Names.{keep_parts-append}

split-append_split :
    (sep : ℕ) (d t : Bytes) → split sep (d ++ (sep ∷ t)) ≡ split sep d ++ split sep t
unfolding split
split-append_split sep [] t = rw (==_refl sep) refl
split-append_split sep (b ∷ d) t =
    let (p, ps, e, j) = split-pieces sep d in
    elim (Bool-cases (b == sep)) [
      | inl q ↦ rw (q, split-append_split sep d t, e) refl
      | inr q ↦ rw (q, split-append_split sep d t, e) refl
    ]

-- A component that is not the root.
pub record IsKept (p : Bytes) : Type 0 where
  pub no_slash : IsPiece b'/' p
  pub kept : (length p == 0 || bytes_eq p (b'.' ∷ [])) ≡ false

keep_parts-IsKept : (ps : List Bytes) → All (IsPiece b'/') ps → All IsKept (keep_parts ps)
unfolding keep_parts
keep_parts-IsKept [] h = tt
keep_parts-IsKept (p ∷ ps) h = elim (Bool-cases (length p == 0 || bytes_eq p (b'.' ∷ []))) [
  | inl e ↦ rw e (keep_parts-IsKept ps h.1)
  | inr e ↦ rw e (record { no_slash = h.0; kept = e }, keep_parts-IsKept ps h.1)
]

keep_parts-kept : (ps : List Bytes) → All IsKept ps → keep_parts ps ≡ ps
unfolding keep_parts
keep_parts-kept [] h = refl
keep_parts-kept (p ∷ ps) h =
    rw ((h.0).kept) (ap (λ (t : List Bytes). p ∷ t) (keep_parts-kept ps h.1))

join_parts-join_with : (p : Bytes) (ps : List Bytes) → join_parts (p ∷ ps) ≡ join_with b'/' (p ∷ ps)
unfolding join_parts
join_parts-join_with p [] = sym (append-nil p)
join_parts-join_with p (q ∷ qs) = ap (λ (t : Bytes). p ++ (b'/' ∷ t)) (join_parts-join_with q qs)

pieces : (ps : List Bytes) → All IsKept ps → All (IsPiece b'/') ps
pieces [] h = tt
pieces (p ∷ ps) h = ((h.0).no_slash, pieces ps h.1)

is_rooted-append : (d t : Bytes) → is_rooted d ≡ true → is_rooted (d ++ t) ≡ true
is_rooted-append [] t h = cc
is_rooted-append (b ∷ d) t h = h

-- Below a directory that is rooted, the components of the rest follow its own.
pub components-below :
    (d p : Bytes) (ps : List Bytes)
    → is_rooted d ≡ true
    → All IsKept (p ∷ ps)
    → components (d ++ (b'/' ∷ join_parts (p ∷ ps))) ≡ components d ++ (p ∷ ps)
unfolding components
components-below d p ps r h =
    rw
      (
        is_rooted-append d (b'/' ∷ join_parts (p ∷ ps)) r,
        r,
        split-append_split b'/' d (join_parts (p ∷ ps)),
      )
      (ap (λ (t : List Bytes). (b'/' ∷ []) ∷ t)
        (keep_parts-append (split b'/' d) (split b'/' (join_parts (p ∷ ps)))
          ∙ ap (λ (t : List Bytes). keep_parts (split b'/' d) ++ keep_parts t)
              (ap (split b'/') (join_parts-join_with p ps)
                ∙ split-join_with b'/' p ps (pieces (p ∷ ps) h))
          ∙ ap (λ (t : List Bytes). keep_parts (split b'/' d) ++ t) (keep_parts-kept (p ∷ ps) h)))

pub strip_parts-append : (xs ys rest : List Bytes) → strip_parts xs ys ≡ some rest → ys ≡ xs ++ rest
unfolding strip_parts
strip_parts-append [] ys rest h = some_injective h
  where
    some_injective : some ys ≡ some rest → ys ≡ rest
    some_injective h = cc
strip_parts-append (x ∷ xs) [] rest h = absurd (cc)
strip_parts-append (x ∷ xs) (y ∷ ys) rest h = elim (Bool-cases (bytes_eq x y)) [
  | inl e ↦ (λ i. sym (bytes_eq→eq x y e) i ∷ strip_parts-append xs ys rest (rw e at h) i)
  | inr e ↦ absurd (none-some (rw e at h))
]
  where
    none-some : none ≡ some rest → ⊥
    none-some h = cc

strip_parts-All :
    (P : Bytes → Type 0) (xs ys rest : List Bytes)
    → strip_parts xs ys ≡ some rest
    → All P ys
    → All P rest
strip_parts-All P xs ys rest h k =
    All-append_right P xs rest (rw (strip_parts-append xs ys rest h) at k)

-- What a rooted path has below a rooted directory.
pub strip_parts-IsKept :
    (d path : Bytes) (rest : List Bytes)
    → is_rooted d ≡ true
    → is_rooted path ≡ true
    → strip_parts (components d) (components path) ≡ some rest
    → All IsKept rest
unfolding components strip_parts
strip_parts-IsKept d path rest r s h =
    let k = keep_parts-IsKept (split b'/' path) (split-IsPiece b'/' path) in
    strip_parts-All IsKept (keep_parts (split b'/' d)) (keep_parts (split b'/' path)) rest
      (rw (r, s, bytes_eq_refl (b'/' ∷ [])) at h) k
