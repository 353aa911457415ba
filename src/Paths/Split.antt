-- ===== src/Paths/Split.antt =====
-- Splitting at a separator byte, and joining with it, undo each other.
use claudepod.Prelude.{
  ℕ, ◌≡◌, refl, sym, ap, ◌∙◌, false, List, [], ◌∷◌, ◌++◌, Bytes, All, ◌==◌, ==_iff, ==_refl, ◌+◌,
  ◌<◌, decimal, append-nil, Bool-cases, inl, inr,
}
use claudepod.Prelude.Text.Digits.{decimal-All}
use claudepod.Paths.{split, split_step, contains_byte}

abbrev pub join_rest : ℕ → List Bytes → Bytes
join_rest sep [] = []
join_rest sep (p ∷ ps) = sep ∷ (p ++ join_rest sep ps)

-- The pieces with a separator between any two.
abbrev pub join_with : ℕ → List Bytes → Bytes
join_with sep [] = []
join_with sep (p ∷ ps) = p ++ join_rest sep ps

-- A piece does not have the separator.
abbrev pub IsPiece : ℕ → Bytes → Type 0
IsPiece sep p = contains_byte sep p ≡ false

IsPiece-head : (sep b : ℕ) (p : Bytes) → IsPiece sep (b ∷ p) → (b == sep) ≡ false
unfolding contains_byte
IsPiece-head sep b p h = elim (Bool-cases (b == sep)) [ inl e ↦ cc | inr e ↦ e ]

IsPiece-tail : (sep b : ℕ) (p : Bytes) → IsPiece sep (b ∷ p) → IsPiece sep p
unfolding contains_byte
IsPiece-tail sep b p h = elim (Bool-cases (b == sep)) [ inl e ↦ cc | inr e ↦ rw e at h ]

IsPiece-All : (sep : ℕ) (bs : Bytes) → All (λ b. (b == sep) ≡ false) bs → IsPiece sep bs
unfolding contains_byte
IsPiece-All sep [] h = refl
IsPiece-All sep (b ∷ bs) h = rw h.0 (IsPiece-All sep bs h.1)

-- No byte that is not a digit stands in a number that is printed in base ten.
pub decimal-IsPiece :
    (sep : ℕ) → ((d : ℕ) → d < 10 → (d + b'0' == sep) ≡ false) → (n : ℕ) → IsPiece sep (decimal n)
decimal-IsPiece sep h n = IsPiece-All sep (decimal n) (decimal-All _ h n)

pub IsPiece-append :
    (sep : ℕ) (xs ys : Bytes) → IsPiece sep xs → IsPiece sep ys → IsPiece sep (xs ++ ys)
unfolding contains_byte
IsPiece-append sep [] ys h k = k
IsPiece-append sep (x ∷ xs) ys h k = elim (Bool-cases (x == sep)) [
  | inl e ↦ cc
  | inr e ↦ rw e (IsPiece-append sep xs ys (rw e at h) k)
]

pub split-piece : (sep : ℕ) (p : Bytes) → IsPiece sep p → split sep p ≡ p ∷ []
unfolding split
split-piece sep [] h = refl
split-piece sep (b ∷ p) h =
    rw (IsPiece-head sep b p h, split-piece sep p (IsPiece-tail sep b p h)) refl

split-append :
    (sep : ℕ) (p rest : Bytes) → IsPiece sep p → split sep (p ++ (sep ∷ rest)) ≡ p ∷ split sep rest
unfolding split
split-append sep [] rest h = rw ==_refl refl
split-append sep (b ∷ p) rest h =
    rw (IsPiece-head sep b p h, split-append sep p rest (IsPiece-tail sep b p h)) refl

pub split-join_with :
    (sep : ℕ) (p : Bytes) (ps : List Bytes)
    → All (IsPiece sep) (p ∷ ps)
    → split sep (join_with sep (p ∷ ps)) ≡ p ∷ ps
split-join_with sep p [] h = rw append-nil (split-piece sep p h.0)
split-join_with sep p (q ∷ qs) h =
    split-append sep p (join_with sep (q ∷ qs)) h.0
    ∙ ap (λ (t : List Bytes). p ∷ t) (split-join_with sep q qs h.1)

-- There is a piece always, and joining the pieces gives back what was split.
pub split-pieces :
    (sep : ℕ) (bs : Bytes)
    → (p : Bytes) × (ps : List Bytes) × (split sep bs ≡ p ∷ ps) × (join_with sep (p ∷ ps) ≡ bs)
unfolding split
split-pieces sep [] = ([], [], refl, refl)
split-pieces sep (b ∷ bs) =
    let (p, ps, e, j) = split-pieces sep bs in
    elim (Bool-cases (b == sep)) [
      | inl q ↦ (
        [],
        p ∷ ps,
        rw (q, e) refl,
        ap (λ (t : Bytes). sep ∷ t) j ∙ ap (λ (x : ℕ). x ∷ bs) (sym ((==_iff b sep).0 q)),
      )
      | inr q ↦ (b ∷ p, ps, rw (q, e) refl, ap (λ (t : Bytes). b ∷ t) j)
    ]

pub join_with-split : (sep : ℕ) (bs : Bytes) → join_with sep (split sep bs) ≡ bs
join_with-split sep bs = let (p, ps, e, j) = split-pieces sep bs in ap (join_with sep) e ∙ j

split_step-IsPiece :
    (sep b : ℕ) (ps : List Bytes)
    → All (IsPiece sep) ps
    → All (IsPiece sep) (split_step (b == sep) b ps)
unfolding contains_byte
split_step-IsPiece sep b ps h = elim (Bool-cases (b == sep)) [
  | inl e ↦ rw e (refl, h)
  | inr e ↦ rw e (joined ps h e)
]
  where
    joined :
        (ps : List Bytes)
        → All (IsPiece sep) ps
        → (b == sep) ≡ false
        → All (IsPiece sep) (split_step false b ps)
    joined [] h e = (rw e refl, tt)
    joined (p ∷ ps) h e = (rw e h.0, h.1)

-- No piece has the separator.
pub split-IsPiece : (sep : ℕ) (bs : Bytes) → All (IsPiece sep) (split sep bs)
unfolding split contains_byte
split-IsPiece sep [] = (refl, tt)
split-IsPiece sep (b ∷ bs) = split_step-IsPiece sep b (split sep bs) (split-IsPiece sep bs)
