-- ===== src/StorePath/Shape.antt =====
-- What `validate_direct` accepts: `/nix/store/<hash>-<name>`, with no further `/`.
use claudepod.Prelude.{
  ℕ, suc, ◌+◌, ◌≤◌, ◌≡◌, refl, ap, Bool, true, false, Option, none, some, [], ◌∷◌, ◌++◌, Bytes,
  length, ◌==◌, ==_iff, ==_refl, Bool-cases, inl, inr, arith, length-append,
}
use claudepod.Outcome.{ok}
use claudepod.Paths.{strip_prefix, position, contains_byte, next_position}
use claudepod.StorePath.{
  store_prefix, check_basename, direct_basename, check_dash, direct_name_parts,
}

strip_prefix-append : (p bs : Bytes) → strip_prefix p (p ++ bs) ≡ some bs
unfolding strip_prefix
strip_prefix-append [] bs = refl
strip_prefix-append (x ∷ p) bs = rw ==_refl (strip_prefix-append p bs)

none-some : {A : Type 0} {a : A} → none ≡ some a → ⊥
none-some h = cc

some_injective : {A : Type 0} {a b : A} → some a ≡ some b → a ≡ b
some_injective h = cc

pub strip_prefix-some : (p bs rest : Bytes) → strip_prefix p bs ≡ some rest → bs ≡ p ++ rest
unfolding strip_prefix
strip_prefix-some [] bs rest h = some_injective h
strip_prefix-some (x ∷ p) [] rest h = absurd (none-some h)
strip_prefix-some (x ∷ p) (b ∷ bs) rest h = elim (Bool-cases (x == b)) [
  | inl e ↦
      rw ((==_iff x b).0 e) (ap (λ (t : Bytes). b ∷ t) (strip_prefix-some p bs rest (rw e at h)))
  | inr e ↦ absurd (none-some (rw e at h))
]

-- The first dash, if what is before it has none.
position-append :
    (b : ℕ) (xs ys : Bytes)
    → contains_byte b xs ≡ false
    → position b (xs ++ (b ∷ ys)) ≡ some (length xs)
unfolding position contains_byte
position-append b [] ys h = rw ==_refl refl
position-append b (x ∷ xs) ys h = elim (Bool-cases (x == b)) [
  | inl e ↦ cc
  | inr e ↦ rw (e, position-append b xs ys (rw e at h)) refl
]

-- A position that was found splits the bytes at the byte.
abbrev pub Found : ℕ → Bytes → Option ℕ → Type 0
Found b bs none = Unit {0}
Found b bs (some i) =
    (xs : Bytes) × (ys : Bytes) × (bs ≡ xs ++ (b ∷ ys))
    × (contains_byte b xs ≡ false)
    × (length xs ≡ i)

Found-next_position :
    (b x : ℕ) (bs : Bytes) (here : Bool) (o : Option ℕ)
    → (x == b) ≡ here
    → Found b bs o
    → Found b (x ∷ bs) (next_position here o)
unfolding contains_byte
Found-next_position b x bs true o e h =
    ([], bs, ap (λ (t : ℕ). t ∷ bs) ((==_iff x b).0 e), refl, refl)
Found-next_position b x bs false none e h = tt
Found-next_position b x bs false (some i) e (xs, ys, p, q, r) =
    (x ∷ xs, ys, ap (λ (t : Bytes). x ∷ t) p, rw (e, q) refl, ap suc r)

pub Found-position : (b : ℕ) (bs : Bytes) → Found b bs (position b bs)
unfolding position
Found-position b [] = tt
Found-position b (x ∷ bs) =
    Found-next_position b x bs (x == b) (position b bs) refl (Found-position b bs)

-- A direct store path with its hash and its name.
pub record Direct (path hash name : Bytes) : Type 0 where
  pub path_is : path ≡ store_prefix ++ (hash ++ (b'-' ∷ name))
  pub hash_has_no_dash : contains_byte b'-' hash ≡ false
  pub no_slash : contains_byte b'/' (hash ++ (b'-' ∷ name)) ≡ false
  pub hash_is_there : 1 ≤ length hash
  pub name_is_there : 1 ≤ length name

no_zero : (n : ℕ) → 1 ≤ n → (n == 0) ≡ false
no_zero n h = ground arith

direct_basename-Direct :
    (path hash name : Bytes)
    → Direct path hash name
    → direct_basename path ≡ ok (hash ++ (b'-' ∷ name))
unfolding direct_basename check_basename
direct_basename-Direct path hash name d =
    rw
      (
        d.path_is,
        strip_prefix-append,
        no_zero (length (hash ++ (b'-' ∷ name))) (omega (arith, length-append hash (b'-' ∷ name))),
        d.no_slash,
      )
      refl

-- The path is accepted, and its parts are those.
pub direct_name_parts-Direct :
    (path hash name : Bytes)
    → Direct path hash name
    → direct_name_parts path ≡ ok (hash ++ (b'-' ∷ name), length hash)
unfolding direct_name_parts check_dash
direct_name_parts-Direct path hash name d =
    rw
      (
        direct_basename-Direct path hash name d,
        position-append b'-' hash name d.hash_has_no_dash,
        no_zero (length hash) d.hash_is_there,
        dash_inside,
      )
      refl
  where
    dash_inside : (length hash + 1 == length (hash ++ (b'-' ∷ name))) ≡ false
    dash_inside = ground (arith, length-append hash (b'-' ∷ name), d.name_is_there)
