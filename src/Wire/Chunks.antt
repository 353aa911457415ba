-- ===== src/Wire/Chunks.antt =====
-- `read_u64_or_eof` against its plain description: however the transport cuts the stream up, the
-- loop returns nothing at the end of the stream, a word where eight bytes are left, and fails inside.
use Prim.Native.Nat.{min, max}
use claudepod.Prelude.{
  ℕ, zero, suc, ◌+◌, ◌-◌, ◌≤◌, ◌<◌, ◌≡◌, refl, sym, ap, ◌∙◌, Bool, Option, none, some, [], ◌∷◌,
  ◌++◌, append_assoc, append-nil, Bytes, ascii, length, take, drop, length-append, take-append,
  drop-append, take-append-drop, le→leb, lt→leb, le→ltb, ltb→lt, lt→ltb, ltb→le, leb, ltb, ◌==◌,
  if◌then◌else◌, arith, Bool-cases, inl, inr,
}
use claudepod.Outcome.{Outcome, ok, err, message, pending, pure, fail, ◌>>=◌}
use claudepod.Wire.{Stream, le_value, read_some, word_eof, fill_word, read_u64_or_eof}

-- What is at hand of the word: `filled` from before and the bytes of the stream.
abbrev pub word_result : Bytes → Bool → Outcome (Option ℕ) × Stream
word_result bs closed =
    if leb 8 (length bs)
    then (ok (some (le_value (take 8 bs))), record { bytes = drop 8 bs; closed = closed })
    else (
      (if closed
          then (if length bs == 0
              then ok none
              else err (message (ascii "eof in the middle of a u64")))
          else pending),
      record { bytes = []; closed = closed },
    )

length-take_bounds :
    (n : ℕ) (b : ℕ) (bs : Bytes)
    → 1 ≤ n
    → (1 ≤ length (take n (b ∷ bs))) × (length (take n (b ∷ bs)) ≤ n)
length-take_bounds zero b bs h = absurd (omega arith)
length-take_bounds (suc zero) b bs h = omega arith
length-take_bounds (suc (suc n)) b [] h = omega arith
length-take_bounds (suc (suc n)) b (c ∷ bs) h =
    let ih = length-take_bounds (suc n) c bs (omega arith) in (omega arith, omega (arith, ih.1))

-- Eight bytes are filled: the word is complete and the stream is left alone.
word_complete :
    (filled bs : Bytes) (closed : Bool)
    → length filled ≡ 8
    → word_result (filled ++ bs) closed
      ≡ (ok (some (le_value filled)), record { bytes = bs; closed = closed })
word_complete filled bs closed h =
    rw
      (
        le→leb 8 (length (filled ++ bs)) (omega (arith, h, length-append filled bs)),
        ← h,
        take-append,
        drop-append,
      )
      refl

-- The peer has sent nothing more.
word_incomplete :
    (filled : Bytes) (closed : Bool)
    → length filled < 8
    → word_result (filled ++ []) closed ≡ (
      (if closed
          then (if length filled == 0
              then ok none
              else err (message (ascii "eof in the middle of a u64")))
          else pending),
      record { bytes = []; closed = closed },
    )
word_incomplete filled closed h = rw (append-nil, lt→leb 8 (length filled) h) refl

-- A round that finds bytes goes on with some of them in the buffer.
fill_round :
    (chunk : ℕ → ℕ) (fuel : ℕ) (filled : Bytes) (b : ℕ) (bs : Bytes) (closed : Bool)
    → length filled < 8
    → (n : ℕ) × (1 ≤ n)
      × (n ≤ 8 - length filled)
      × (fill_word chunk (suc fuel) filled (record { bytes = b ∷ bs; closed = closed })
          ≡ fill_word chunk fuel
              (filled ++ take n (b ∷ bs))
              (record { bytes = drop n (b ∷ bs); closed = closed }))
fill_round chunk fuel filled b bs closed lt =
    let n = min (max 1 (chunk (length filled))) (8 - length filled) in
    let (lo, hi) = length-take_bounds n b bs (omega arith) in
    (
      n,
      omega arith,
      omega arith,
      unfold fill_word read_some ◌>>=◌ in ground (arith, lt→ltb _ _ lt, lo),
    )

fill_word-word_result :
    (chunk : ℕ → ℕ) (fuel : ℕ) (filled bs : Bytes) (closed : Bool)
    → length filled ≤ 8
    → 8 ≤ length filled + fuel
    → fill_word chunk fuel filled (record { bytes = bs; closed = closed })
      ≡ word_result (filled ++ bs) closed
unfolding fill_word ◌>>=◌ read_some word_eof pure fail
fill_word-word_result chunk zero filled bs closed h k =
    rw (le→ltb (length filled) 8 (omega arith)) (sym (word_complete filled bs closed (omega arith)))
fill_word-word_result chunk (suc fuel) filled [] closed h k =
    elim (Bool-cases (ltb (length filled) 8)) [
      | inl e ↦ rw (e, word_incomplete filled closed (ltb→lt _ _ e)) (ground arith)
      | inr e ↦ rw e (sym (word_complete filled [] closed (omega (arith, ltb→le _ _ e))))
    ]
fill_word-word_result chunk (suc fuel) filled (b ∷ bs) closed h k =
    elim (Bool-cases (ltb (length filled) 8)) [
      | inl e ↦
          let (n, lo, hi, same) = fill_round chunk fuel filled b bs closed (ltb→lt _ _ e) in
          let (some_bytes, few) = length-take_bounds n b bs lo in
          let ih =
            fill_word-word_result chunk fuel (filled ++ take n (b ∷ bs)) (drop n (b ∷ bs)) closed
              (omega (arith, length-append filled (take n (b ∷ bs))))
              (omega (arith, length-append filled (take n (b ∷ bs)))) in
          same
          ∙ ih
          ∙ ap (λ (t : Bytes). word_result t closed)
              (append_assoc filled _ _
                ∙ ap (λ (t : Bytes). filled ++ t) (take-append-drop n (b ∷ bs)))
      | inr e ↦ rw e (sym (word_complete filled (b ∷ bs) closed (omega (arith, ltb→le _ _ e))))
    ]

-- However the transport cuts the stream up, the result is that of the plain description.
pub read_u64_or_eof-word_result :
    (chunk : ℕ → ℕ) (s : Stream) → read_u64_or_eof chunk s ≡ word_result s.bytes s.closed
unfolding read_u64_or_eof
read_u64_or_eof-word_result chunk s =
    fill_word-word_result chunk 8 [] s.bytes s.closed (omega arith) (omega arith)
