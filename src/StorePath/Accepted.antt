-- ===== src/StorePath/Accepted.antt =====
-- `validate_direct` of src/store_path.rs accepts direct store paths only, and all of them.
use claudepod.Prelude.{
  ◌||◌, ℕ, ◌+◌, ◌≤◌, ◌≡◌, ◌↔◌, refl, ap, ◌∙◌, true, false, Option, none, some, ◌∷◌, ◌++◌, Bytes,
  length, take-append, ◌==◌, Bool-cases, inl, inr, arith, length-append,
}
use claudepod.Outcome.{ok}
use claudepod.Outcome.Laws.{chain-ok, err_ok, ok_injective, Concluded, chain-Concluded}
use claudepod.Paths.{strip_prefix, position, contains_byte}
use claudepod.Utf8.{is_utf8}
use claudepod.StorePath.{
  store_prefix, check_basename, direct_basename, check_dash, direct_name_parts, validate_direct,
  check_hash, direct_hash,
}
use claudepod.StorePath.Shape.{
  strip_prefix-some, Found, Found-position, Direct, direct_name_parts-Direct,
}

check_basename_sound :
    (path : Bytes) (o : Option Bytes) (basename : Bytes)
    → check_basename path o ≡ ok basename
    → (o ≡ some basename) × (contains_byte b'/' basename ≡ false)
unfolding check_basename
check_basename_sound path none basename h = absurd (err_ok h)
check_basename_sound path (some b) basename h = elim (Bool-cases (length b == 0)) [
  | inl e ↦ absurd (err_ok (rw e at h))
  | inr e ↦ elim (Bool-cases (contains_byte b'/' b)) [
    | inl c ↦ absurd (err_ok (rw (e, c) at h))
    | inr c ↦ let q = ok_injective (rw (e, c) at h) in (ap some q, rw q at c)
  ]
]

direct_basename_sound :
    (path basename : Bytes)
    → direct_basename path ≡ ok basename
    → (path ≡ store_prefix ++ basename) × (contains_byte b'/' basename ≡ false)
unfolding direct_basename
direct_basename_sound path basename h =
    let (p, q) = check_basename_sound path (strip_prefix store_prefix path) basename h in
    (strip_prefix-some store_prefix path basename p, q)

ends_with_dash :
    (hash name : Bytes)
    → (length hash + 1 == length (hash ++ (b'-' ∷ name))) ≡ false
    → 1 ≤ length name
ends_with_dash hash name h = ground (arith, length-append hash (b'-' ∷ name))

one_at_least : (n : ℕ) → (n == 0) ≡ false → 1 ≤ n
one_at_least n h = ground arith

check_dash_sound :
    (path basename : Bytes) (o : Option ℕ) (parts : Bytes × ℕ)
    → Found b'-' basename o
    → path ≡ store_prefix ++ basename
    → contains_byte b'/' basename ≡ false
    → check_dash path basename o ≡ ok parts
    → (hash : Bytes) × (name : Bytes) × Direct path hash name
unfolding check_dash
check_dash_sound path basename none parts f p s h = absurd (err_ok h)
check_dash_sound path basename (some dash) parts (hash, name, split, clean, len) p s h =
    elim (Bool-cases (dash == 0)) [
      | inl e ↦ absurd (err_ok (rw e at h))
      | inr e ↦ elim (Bool-cases (dash + 1 == length basename)) [
        | inl c ↦ absurd (err_ok (rw (e, c) at h))
        | inr c ↦ (
          hash,
          name,
          record {
            path_is = p ∙ ap (λ (t : Bytes). store_prefix ++ t) split;
            hash_has_no_dash = clean;
            no_slash = rw split at s;
            hash_is_there = one_at_least (length hash) (rw (← len) at e);
            name_is_there = ends_with_dash hash name (rw (← len, split) at c);
          },
        )
      ]
    ]

-- A path is accepted exactly when it is `/nix/store/`, a hash with no dash, a dash and a name, both
-- of them there and with no slash.
pub validate_direct-Direct :
    (path : Bytes)
    → (validate_direct path ≡ ok tt) ↔ ((hash : Bytes) × (name : Bytes) × Direct path hash name)
unfolding validate_direct direct_name_parts
validate_direct-Direct path = (to, from)
  where
    to : validate_direct path ≡ ok tt → (hash : Bytes) × (name : Bytes) × Direct path hash name
    to h =
        let (parts, p, q) = chain-ok (direct_name_parts path) (λ _. ok tt) tt h in
        let (basename, r, t) =
          chain-ok (direct_basename path)
            (λ basename. check_dash path basename (position b'-' basename)) parts p in
        let (is, clean) = direct_basename_sound path basename r in
        check_dash_sound path basename (position b'-' basename) parts (Found-position b'-' basename)
          is clean t

    from : ((hash : Bytes) × (name : Bytes) × Direct path hash name) → validate_direct path ≡ ok tt
    from (hash, name, d) = rw (direct_name_parts-Direct path hash name d) refl

-- The hash of a direct store path is what stands before its first dash, if the basename is UTF-8.
pub direct_hash-Direct :
    (path hash name : Bytes)
    → Direct path hash name
    → is_utf8 (hash ++ (b'-' ∷ name)) ≡ true
    → direct_hash path ≡ ok hash
unfolding direct_hash check_hash
direct_hash-Direct path hash name d u =
    rw (direct_name_parts-Direct path hash name d, u, take-append) refl

check_basename-Concluded : (path : Bytes) (o : Option Bytes) → Concluded (check_basename path o)
unfolding check_basename
check_basename-Concluded path none = tt
check_basename-Concluded path (some b) = elim (Bool-cases (length b == 0 || contains_byte b'/' b)) [
  | inl e ↦ rw e tt
  | inr e ↦ rw e tt
]

check_dash-Concluded :
    (path basename : Bytes) (o : Option ℕ) → Concluded (check_dash path basename o)
unfolding check_dash
check_dash-Concluded path basename none = tt
check_dash-Concluded path basename (some dash) =
    elim (Bool-cases (dash == 0 || dash + 1 == length basename)) [
      | inl e ↦ rw e tt
      | inr e ↦ rw e tt
    ]

pub validate_direct-Concluded : (path : Bytes) → Concluded (validate_direct path)
unfolding validate_direct direct_name_parts direct_basename
validate_direct-Concluded path =
    chain-Concluded (direct_name_parts path) (λ _. ok tt)
      (chain-Concluded (direct_basename path) _ (check_basename-Concluded path _)
        (λ basename. check_dash-Concluded path basename _))
      (λ _. tt)
