-- ===== src/Start/Ports.antt =====
-- The port options of src/bin/claudepod-start.rs.
pub mod Bounds
pub mod RoundTrip
use claudepod.Prelude.{
  ℕ, ◌+◌, ◌-◌, ◌*◌, ◌^◌, Option, none, some, Bool, true, false, not, ◌&&◌, List, [], ◌∷◌, ◌++◌,
  Bytes, ascii, decimal, bytes_eq, length, leb, ltb, ◌==◌, if◌then◌else◌,
}
use claudepod.Paths.{contains_byte}
use claudepod.AgentEnv.{is_ascii_digit}

pub data Proto : Type 0 where
  tcp udp : Proto

pub record PortMap : Type 0 where
  pub left : ℕ
  pub right : ℕ
  pub proto : Proto

-- The four error texts, with the text that three of them quote.
pub data PortError : Type 0 where
  bad_proto bad_port : Bytes → PortError
  expected_pair zero_port : PortError

pub data Parsed (A : Type 0) : Type 0 where
  parsed : A → Parsed A
  refused : PortError → Parsed A

abbrev pub and_then : {A B : Type 0} → Parsed A → (A → Parsed B) → Parsed B
and_then (parsed a) f = f a
and_then (refused e) f = refused e

-- One more byte before the separator.
abbrev pub longer : ℕ → Option (Bytes × Bytes) → Option (Bytes × Bytes)
longer b none = none
longer b (some (before, behind)) = some (b ∷ before, behind)

-- `str::split_once` with one character.
unfoldable pub split_once : ℕ → Bytes → Option (Bytes × Bytes)
split_once sep [] = none
split_once sep (b ∷ bs) =
    let rest = split_once sep bs in if b == sep then some ([], bs) else longer b rest

-- `str::parse::<u16>`: digits, perhaps behind a plus sign, that do not leave the type.
unfoldable pub parse_digits : ℕ → Bytes → Option ℕ
parse_digits acc [] = some acc
parse_digits acc (b ∷ bs) =
    let v = acc * 10 + (b - b'0') in
    let rest = parse_digits v bs in if is_ascii_digit b && ltb v (2 ^ 16) then rest else none

unfoldable pub parse_u16 : Bytes → Option ℕ
parse_u16 [] = none
parse_u16 (b ∷ []) = parse_digits 0 (b ∷ [])
parse_u16 (b ∷ (c ∷ cs)) =
    if b == b'+' then parse_digits 0 (c ∷ cs) else parse_digits 0 (b ∷ (c ∷ cs))

unfoldable pub check_port : Bytes → Option ℕ → Parsed ℕ
check_port raw none = refused (bad_port raw)
check_port raw (some port) = if port == 0 then refused zero_port else parsed port

unfoldable pub parse_port : Bytes → Parsed ℕ
parse_port raw = check_port raw (parse_u16 raw)

unfoldable pub parse_proto : Bytes → Option (Bytes × Bytes) → Parsed (Bytes × Proto)
parse_proto spec none = parsed (spec, tcp)
parse_proto spec (some (ports, proto)) =
    if bytes_eq proto (ascii "tcp")
    then parsed (ports, tcp)
    else if bytes_eq proto (ascii "udp")
    then parsed (ports, udp)
    else refused (bad_proto proto)

unfoldable pub parse_ports : Bytes → Proto → Option (Bytes × Bytes) → Parsed PortMap
parse_ports spec proto (some (left, right)) =
    if contains_byte b':' right
    then refused expected_pair
    else and_then (parse_port left)
        λ l. and_then (parse_port right) λ r. parsed (record { left = l; right = r; proto = proto })
parse_ports spec proto none =
    and_then (parse_port spec) λ port. parsed (record { left = port; right = port; proto = proto })

unfoldable pub from_str : Bytes → Parsed PortMap
from_str spec =
    and_then (parse_proto spec (split_once b'/' spec))
      λ p. parse_ports p.0 p.1 (split_once b':' p.0)

unfoldable pub port_map_spec : PortMap → Bytes
port_map_spec port =
    if port.left == port.right
    then decimal port.left
    else decimal port.left ++ (b':' ∷ decimal port.right)

unfoldable pub display_suffix : Proto → Bytes
display_suffix tcp = []
display_suffix udp = ascii " (udp)"

abbrev pub pasta_flag : Proto → Bytes
pasta_flag tcp = ascii "-T"
pasta_flag udp = ascii "-U"

-- The options of the loop, and `opts.join(",")`, whose first option is always `-4`.
unfoldable pub port_options : List PortMap → Bytes
port_options [] = []
port_options (port ∷ ports) =
    (b',' ∷ pasta_flag port.proto) ++ ((b',' ∷ port_map_spec port) ++ port_options ports)

unfoldable pub pasta_network_arg : List PortMap → Bool → Option Bytes
pasta_network_arg host_ports publishing =
    if length host_ports == 0 && not publishing
    then none
    else some (
        ascii "pasta:-4"
        ++ ((if publishing then ascii ",--host-lo-to-ns-lo" else []) ++ port_options host_ports))

abbrev pub publish_suffix : Proto → Bytes
publish_suffix tcp = []
publish_suffix udp = ascii "/udp"

unfoldable pub publish_arg : PortMap → Bytes
publish_arg port =
    ascii "127.0.0.1:"
    ++ (decimal port.left ++ ((b':' ∷ decimal port.right) ++ publish_suffix port.proto))
