-- ===== src/Prelude/Text.antt =====
-- Byte strings from literals, and the number formats `{}` and `{:#x}` of `format!`.
pub mod Digits
use Prim.Native.Nat.{ℕ, zero, suc, ◌+◌, ◌-◌, ◌/◌, ◌%◌}
use Prim.Native.Char.{code}
use Prim.Native.String.{String}
use mathlib.Core.List.{List, [], ◌∷◌, ◌++◌}
use claudepod.Prelude.Tests.{ltb, if◌then◌else◌}

abbrev pub Bytes : Type 0
Bytes = List ℕ

-- A byte string literal: `b"..."`, or the UTF-8 bytes of an ASCII `"..."`.
unfoldable pub ascii : String → Bytes
ascii String.[] = []
ascii (String.◌∷◌ c s) = code c ∷ ascii s

-- The digits of a number, highest first, put in front of `acc`.
digits_loop : (base fuel n : ℕ) → Bytes → Bytes
digits_loop base zero n acc = acc
digits_loop base (suc fuel) n acc =
    let d = n % base in
    let acc' = (if ltb d 10 then d + b'0' else d - 10 + b'a') ∷ acc in
    let rest = digits_loop base fuel (n / base) acc' in if ltb n base then acc' else rest

-- `{}` of a u64, which has at most 20 decimal digits.
unfoldable pub decimal : ℕ → Bytes
unfolding digits_loop
decimal n = digits_loop 10 20 n []

-- `{:#x}` of a u64, which has at most 16 hexadecimal digits.
unfoldable pub hexadecimal : ℕ → Bytes
unfolding digits_loop
hexadecimal n = ascii "0x" ++ digits_loop 16 16 n []
