-- ===== src/Prelude/Text/Digits.antt =====
-- The bytes of a number that is printed in base ten.
use Prim.Native.Nat.{ℕ, zero, suc, ◌+◌, ◌/◌, ◌%◌, ◌^◌, ◌<◌}
use mathlib.Core.List.{[], ◌∷◌}
use mathlib.Core.Logic.{inl, inr}
use native.Mathlib.Omega.{arith}
use claudepod.Prelude.Tests.{ltb, lt→ltb, ltb→lt, Bool-cases}
use mathlib.Core.Path.{◌≡◌, ◌∙◌}
use claudepod.Prelude.Lists.{All}
use claudepod.Prelude.Text.{Bytes, digits_loop, decimal}

module _ (P : ℕ → Type 0) (digit : (d : ℕ) → d < 10 → P (d + b'0')) where
  digits_loop-All : (fuel n : ℕ) (acc : Bytes) → All P acc → All P (digits_loop 10 fuel n acc)
  unfolding digits_loop
  digits_loop-All zero n acc h = h
  digits_loop-All (suc fuel) n acc h =
      let d : n % 10 < 10 = omega arith in
      rw (lt→ltb (n % 10) 10 d) (elim (Bool-cases (ltb n 10)) [
        | inl e ↦ rw e (digit (n % 10) d, h)
        | inr e ↦ rw e (digits_loop-All fuel (n / 10) _ (digit (n % 10) d, h))
      ])

  -- What holds of every digit holds of every byte.
  pub decimal-All : (n : ℕ) → All P (decimal n)
  unfolding decimal
  decimal-All n = digits_loop-All 20 n [] tt

-- A reader that takes a last digit after the digits before it, up to `limit`.
module _ {A : Type 0} (read : ℕ → Bytes → A) (limit : ℕ)
    (last : (n : ℕ) (t : Bytes) → n < limit → read (n / 10) ((n % 10 + b'0') ∷ t) ≡ read n t) where
  read_first : (n : ℕ) (t : Bytes) → n < 10 → n < limit → read 0 ((n % 10 + b'0') ∷ t) ≡ read n t
  read_first n t k h = let z : n / 10 ≡ 0 = omega arith in rw z at (last n t h)

  read-digits_loop :
      (fuel n : ℕ) (t : Bytes)
      → n < 10 ^ suc fuel
      → n < limit
      → read 0 (digits_loop 10 (suc fuel) n t) ≡ read n t
  unfolding digits_loop
  read-digits_loop zero n t k h =
      let d : n < 10 = k in
      rw (lt→ltb (n % 10) 10 (omega arith), lt→ltb n 10 d) (read_first n t d h)
  read-digits_loop (suc fuel) n t k h =
      let d : n % 10 < 10 = omega arith in
      let q : n / 10 < 10 ^ suc fuel = omega arith in
      rw (lt→ltb (n % 10) 10 d) (elim (Bool-cases (ltb n 10)) [
        | inl e ↦ rw e (read_first n t (ltb→lt n 10 e) h)
        | inr e ↦ rw e (read-digits_loop fuel (n / 10) _ q (omega arith) ∙ last n t h)
      ])

  -- What is printed in base ten is read back.
  pub read-decimal : (n : ℕ) → n < limit → n < 10 ^ 20 → read 0 (decimal n) ≡ read n []
  unfolding decimal
  read-decimal n h k = read-digits_loop 19 n [] k h
