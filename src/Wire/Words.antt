-- ===== src/Wire/Words.antt =====
-- Little-endian words: `to_le_bytes` and `from_le_bytes` undo one another.
use claudepod.Prelude.{
  ℕ, zero, suc, ◌+◌, ◌*◌, ◌/◌, ◌%◌, ◌^◌, ◌<◌, ◌≡◌, refl, ap, [], ◌∷◌, Bytes, length, All, arith,
}
use claudepod.Wire.{IsByte, IsU64, le_value, le_bytes}

pow_suc : (n : ℕ) → 256 ^ suc n ≡ 256 * 256 ^ n
pow_suc n = omega arith

pub length-le_bytes : (n v : ℕ) → length (le_bytes n v) ≡ n
unfolding le_bytes
length-le_bytes zero v = refl
length-le_bytes (suc n) v = ap suc (length-le_bytes n (v / 256))

pub le_bytes-IsByte : (n v : ℕ) → All IsByte (le_bytes n v)
unfolding le_bytes
le_bytes-IsByte zero v = tt
le_bytes-IsByte (suc n) v = (omega arith, le_bytes-IsByte n (v / 256))

le_value-le_bytes : (n v : ℕ) → v < 256 ^ n → le_value (le_bytes n v) ≡ v
unfolding le_value le_bytes
le_value-le_bytes zero v h = omega arith
le_value-le_bytes (suc n) v h =
    omega (arith, pow_suc n, le_value-le_bytes n (v / 256) (omega (arith, pow_suc n)))

le_value-lt : (bs : Bytes) → All IsByte bs → le_value bs < 256 ^ length bs
unfolding le_value
le_value-lt [] h = omega arith
le_value-lt (b ∷ bs) h = omega (arith, pow_suc (length bs), h.0, le_value-lt bs h.1)

le_bytes-le_value : (bs : Bytes) → All IsByte bs → le_bytes (length bs) (le_value bs) ≡ bs
unfolding le_value le_bytes
le_bytes-le_value [] h = refl
le_bytes-le_value (b ∷ bs) h = rw (low, high, le_bytes-le_value bs h.1)
  where
    low : (b + 256 * le_value bs) % 256 ≡ b
    low = omega (arith, h.0)

    high : (b + 256 * le_value bs) / 256 ≡ le_value bs
    high = omega (arith, h.0)

-- The word that was written is the word that is read.
pub word_back : (v : ℕ) → IsU64 v → le_value (le_bytes 8 v) ≡ v
word_back v h = le_value-le_bytes 8 v h

-- Eight bytes that were read are the bytes that are written.
pub word_forth : (bs : Bytes) → All IsByte bs → length bs ≡ 8 → le_bytes 8 (le_value bs) ≡ bs
word_forth bs h e = rw e at (le_bytes-le_value bs h)

pub word-IsU64 : (bs : Bytes) → All IsByte bs → length bs ≡ 8 → IsU64 (le_value bs)
word-IsU64 bs h e = rw e at (le_value-lt bs h)
