-- ===== src/Start/Ports/Bounds.antt =====
-- A port option that is accepted names ports.
use claudepod.Prelude.{
  ℕ, ◌+◌, ◌-◌, ◌*◌, ◌^◌, ◌≤◌, ◌<◌, ◌≡◌, refl, Option, none, some, ◌&&◌, [], ◌∷◌, Bytes, ltb, ltb→lt,
  ltb→lt, ◌==◌, Bool-cases, inl, inr, and_true, arith,
}
use claudepod.Paths.{contains_byte}
use claudepod.AgentEnv.{is_ascii_digit}
use claudepod.Start.Ports.{
  Proto, PortMap, PortError, Parsed, parsed, refused, and_then, split_once, parse_digits, parse_u16,
  check_port, parse_port, parse_proto, parse_ports, from_str,
}

abbrev pub IsPort : ℕ → Type 0
IsPort port = (1 ≤ port) × (port < 2 ^ 16)

none-some : {A : Type 0} {a : A} → none ≡ some a → ⊥
none-some h = cc

some_injective : {A : Type 0} {a b : A} → some a ≡ some b → a ≡ b
some_injective h = cc

refused_parsed : {A : Type 0} {e : PortError} {a : A} → refused e ≡ parsed a → ⊥
refused_parsed h = cc

parsed_injective : {A : Type 0} {a b : A} → parsed a ≡ parsed b → a ≡ b
parsed_injective h = cc

parse_digits-lt :
    (acc : ℕ) (bs : Bytes) (v : ℕ) → acc < 2 ^ 16 → parse_digits acc bs ≡ some v → v < 2 ^ 16
unfolding parse_digits
parse_digits-lt acc [] v h e = rw (some_injective e) at h
parse_digits-lt acc (b ∷ bs) v h e =
    elim (Bool-cases (is_ascii_digit b && ltb (acc * 10 + (b - b'0')) (2 ^ 16))) [
      | inl q ↦
          parse_digits-lt (acc * 10 + (b - b'0')) bs v
            (ltb→lt _ _ (and_true (is_ascii_digit b) _ q).1) (rw q at e)
      | inr q ↦ absurd (none-some (rw q at e))
    ]

parse_u16-lt : (raw : Bytes) (v : ℕ) → parse_u16 raw ≡ some v → v < 2 ^ 16
unfolding parse_u16
parse_u16-lt [] v e = absurd (none-some e)
parse_u16-lt (b ∷ []) v e = parse_digits-lt 0 (b ∷ []) v (omega arith) e
parse_u16-lt (b ∷ (c ∷ cs)) v e = elim (Bool-cases (b == b'+')) [
  | inl q ↦ parse_digits-lt 0 (c ∷ cs) v (omega arith) (rw q at e)
  | inr q ↦ parse_digits-lt 0 (b ∷ (c ∷ cs)) v (omega arith) (rw q at e)
]

check_port-IsPort :
    (raw : Bytes) (o : Option ℕ) (port : ℕ)
    → ((v : ℕ) → o ≡ some v → v < 2 ^ 16)
    → check_port raw o ≡ parsed port
    → IsPort port
unfolding check_port
check_port-IsPort raw none port h e = absurd (refused_parsed e)
check_port-IsPort raw (some v) port h e = elim (Bool-cases (v == 0)) [
  | inl q ↦ absurd (refused_parsed (rw q at e))
  | inr q ↦ rw (← parsed_injective (rw q at e)) (ground (arith, q), h v refl)
]

parse_port-IsPort : (raw : Bytes) (port : ℕ) → parse_port raw ≡ parsed port → IsPort port
unfolding parse_port
parse_port-IsPort raw port e =
    check_port-IsPort raw (parse_u16 raw) port (λ v q. parse_u16-lt raw v q) e

and_then-parsed :
    {A B : Type 0} (r : Parsed A) (f : A → Parsed B) (b : B)
    → and_then r f ≡ parsed b
    → (a : A) × (r ≡ parsed a) × (f a ≡ parsed b)
and_then-parsed (parsed a) f b h = (a, refl, h)
and_then-parsed (refused e) f b h = absurd (refused_parsed h)

parse_ports-IsPort :
    (spec : Bytes) (proto : Proto) (o : Option (Bytes × Bytes)) (p : PortMap)
    → parse_ports spec proto o ≡ parsed p
    → IsPort p.left × IsPort p.right
unfolding parse_ports
parse_ports-IsPort spec proto none p e =
    let (port, q, r) = and_then-parsed (parse_port spec) _ p e in
    let is = parse_port-IsPort spec port q in rw (← parsed_injective r) (is, is)
parse_ports-IsPort spec proto (some (left, right)) p e =
    elim (Bool-cases (contains_byte b':' right)) [
      | inl c ↦ absurd (refused_parsed (rw c at e))
      | inr c ↦
          let (l, q, r) = and_then-parsed (parse_port left) _ p (rw c at e) in
          let (m, s, t) = and_then-parsed (parse_port right) _ p r in
          rw (← parsed_injective t) (parse_port-IsPort left l q, parse_port-IsPort right m s)
    ]

-- A port option that is accepted has two ports from 1 to 65535.
pub from_str-IsPort :
    (spec : Bytes) (p : PortMap) → from_str spec ≡ parsed p → IsPort p.left × IsPort p.right
unfolding from_str
from_str-IsPort spec p e =
    let (ports, q, r) = and_then-parsed (parse_proto spec (split_once b'/' spec)) _ p e in
    parse_ports-IsPort ports.0 ports.1 (split_once b':' ports.0) p r
