-- ===== src/Start/AtomicWrite/Names.antt =====
-- The temporary file of an atomic write stands beside the manifest and is another file.
use claudepod.Prelude.{
  ℕ, ◌+◌, ◌≤◌, ◌<◌, ◌≡◌, ◌⊎◌, refl, sym, ap, ◌∙◌, Option, none, some, Bool, false, ◌||◌, List, [],
  ◌∷◌, ◌++◌, Bytes, ascii, decimal, length, length-append, ◌==◌, bytes_eq, bytes_eq→eq,
  bytes_eq_refl, All, Bool-cases, inl, inr, arith,
}
use claudepod.Paths.{
  split, contains_byte, keep_parts, is_rooted, relative_components, components, last_part,
  normal_part, file_name, path_join,
}
use claudepod.Paths.Split.{IsPiece, IsPiece-append, decimal-IsPiece, split-IsPiece}
use claudepod.Paths.Names.{IsName, file_name-path_join}
use claudepod.Start.AtomicWrite.{tmp_name}

keep_parts-All : (P : Bytes → Type 0) (ps : List Bytes) → All P ps → All P (keep_parts ps)
unfolding keep_parts
keep_parts-All P [] h = tt
keep_parts-All P (p ∷ ps) h = elim (Bool-cases (length p == 0 || bytes_eq p (b'.' ∷ []))) [
  | inl e ↦ rw e (keep_parts-All P ps h.1)
  | inr e ↦ rw e (h.0, keep_parts-All P ps h.1)
]

-- A component is the root or has no slash.
abbrev IsPart : Bytes → Type 0
IsPart p = IsPiece b'/' p ⊎ (p ≡ b'/' ∷ [])

All-map : (ps : List Bytes) → All (IsPiece b'/') ps → All IsPart ps
All-map [] h = tt
All-map (p ∷ ps) h = (inl h.0, All-map ps h.1)

relative_components-IsPiece :
    (ps : List Bytes) → All (IsPiece b'/') ps → All (IsPiece b'/') (relative_components ps)
relative_components-IsPiece [] h = tt
relative_components-IsPiece (p ∷ ps) h = elim (Bool-cases (bytes_eq p (b'.' ∷ []))) [
  | inl e ↦ rw e (h.0, keep_parts-All (IsPiece b'/') ps h.1)
  | inr e ↦ rw e (keep_parts-All (IsPiece b'/') (p ∷ ps) h)
]

components-IsPart : (path : Bytes) → All IsPart (components path)
unfolding components
components-IsPart path = elim (Bool-cases (is_rooted path)) [
  | inl e ↦ rw e (
    inr refl,
    All-map _ (keep_parts-All (IsPiece b'/') (split b'/' path) (split-IsPiece b'/' path)),
  )
  | inr e ↦
      rw e (All-map _ (relative_components-IsPiece (split b'/' path) (split-IsPiece b'/' path)))
]

last_part-All :
    (P : Bytes → Type 0) (ps : List Bytes) (p : Bytes) → All P ps → last_part ps ≡ some p → P p
last_part-All P [] p h e = absurd (cc)
last_part-All P (q ∷ []) p h e = rw (some_injective e) at h.0
  where
    some_injective : some q ≡ some p → q ≡ p
    some_injective e = cc
last_part-All P (q ∷ (r ∷ ps)) p h e = last_part-All P (r ∷ ps) p h.1 e

normal_part-some :
    (o : Option Bytes) (name : Bytes)
    → normal_part o ≡ some name
    → (o ≡ some name) × (bytes_eq name (b'/' ∷ []) ≡ false)
normal_part-some none name h = absurd (cc)
normal_part-some (some p) name h =
    elim (Bool-cases
      (bytes_eq p (b'/' ∷ []) || bytes_eq p (b'.' ∷ []) || bytes_eq p (b'.' ∷ b'.' ∷ []))) [
        | inl e ↦ absurd (none-some (rw e at h))
        | inr e ↦
            let q : some p ≡ some name = rw e at h in
            let root : bytes_eq p (b'/' ∷ []) ≡ false = first _ _ _ e in
            (q, rw (some_injective q) at root)
      ]
  where
    none-some : none ≡ some name → ⊥
    none-some h = cc

    some_injective : some p ≡ some name → p ≡ name
    some_injective e = cc

    first : (a b c : Bool) → (a || b || c) ≡ false → a ≡ false
    first a b c h = ground (arith, h)

-- A file name has no slash.
pub file_name-IsPiece : (path name : Bytes) → file_name path ≡ some name → IsPiece b'/' name
unfolding file_name
file_name-IsPiece path name h =
    let (e, n) = normal_part-some _ name h in
    elim (last_part-All IsPart (components path) name (components-IsPart path) e) [
      | inl p ↦ p
      | inr r ↦ absurd (root (rw r at n))
    ]
  where
    root : bytes_eq (b'/' ∷ []) (b'/' ∷ []) ≡ false → ⊥
    root h = cc (bytes_eq_refl (b'/' ∷ []))

length-tmp_name : (pid : ℕ) (name : Bytes) → length name + 6 ≤ length (tmp_name pid name)
unfolding tmp_name ascii
length-tmp_name pid name = omega (
  arith,
  length-append name (b'.' ∷ (decimal pid ++ ascii ".tmp")),
  length-append (decimal pid) (ascii ".tmp"),
)

pub bytes_eq-longer : (t u : Bytes) → length u < length t → bytes_eq t u ≡ false
bytes_eq-longer t u h = elim (Bool-cases (bytes_eq t u)) [
  | inl e ↦ absurd (omega (arith, ap length (bytes_eq→eq t u e)))
  | inr e ↦ e
]

tmp_name-IsPiece : (pid : ℕ) (name : Bytes) → IsPiece b'/' name → IsPiece b'/' (tmp_name pid name)
unfolding tmp_name contains_byte ascii
tmp_name-IsPiece pid name h = IsPiece-append b'/' name _ h (
    IsPiece-append b'/' (decimal pid) (ascii ".tmp")
      (decimal-IsPiece b'/' (λ d h. ground arith) pid) refl)

tmp_name-IsName : (pid : ℕ) (name : Bytes) → IsPiece b'/' name → IsName (tmp_name pid name)
tmp_name-IsName pid name h =
    let l = length-tmp_name pid name in
    record {
      no_slash = tmp_name-IsPiece pid name h;
      not_empty = ground (arith, l);
      not_dot = bytes_eq-longer (tmp_name pid name) (b'.' ∷ []) (omega (arith, l));
      not_dots = bytes_eq-longer (tmp_name pid name) (b'.' ∷ b'.' ∷ []) (omega (arith, l));
    }

-- The temporary file is not the manifest.
pub tmp_path-ne-path :
    (pid : ℕ) (dir path name : Bytes)
    → file_name path ≡ some name
    → bytes_eq (path_join dir (tmp_name pid name)) path ≡ false
tmp_path-ne-path pid dir path name h =
    elim (Bool-cases (bytes_eq (path_join dir (tmp_name pid name)) path)) [
      | inl e ↦
          let t = tmp_name pid name in
          let n = tmp_name-IsName pid name (file_name-IsPiece path name h) in
          let q : some t ≡ some name =
            sym (file_name-path_join dir t n)
            ∙ ap file_name (bytes_eq→eq (path_join dir t) path e)
            ∙ h in
          absurd (longer (ap (λ (o : Option Bytes). length (or_nothing o)) q))
      | inr e ↦ e
    ]
  where
    or_nothing : Option Bytes → Bytes
    or_nothing none = []
    or_nothing (some t) = t

    longer : length (tmp_name pid name) ≡ length name → ⊥
    longer e = omega (arith, length-tmp_name pid name, e)
