-- ===== src/Start/Examples.antt =====
-- Options of the launcher, as in the tests of claudepod-start.rs.
use claudepod.Prelude.{◌≡◌, refl, true, some, [], ◌∷◌, Bytes, ascii, decimal}
use claudepod.Paths.{split, paths_code}
use claudepod.Start.Volumes.{reject_colon_path, volume_spec}
use claudepod.Start.Volumes.Parts.{volume_parts, volume_spec-split}
use claudepod.Start.Ports.{
  udp, PortMap, zero_port, refused, split_once, parse_digits, parse_u16, check_port, parse_port,
  parse_proto, parse_ports, from_str, pasta_network_arg, port_options, port_map_spec,
}

abbrev dns : PortMap
dns = record { left = 5353; right = 53; proto = udp }

zero_refused : from_str (ascii "0") ≡ refused zero_port
unfolding ascii split_once parse_digits parse_u16 check_port parse_port parse_proto parse_ports
    from_str paths_code
zero_refused = refl

spliced : pasta_network_arg (dns ∷ []) true ≡ some (ascii "pasta:-4,--host-lo-to-ns-lo,-U,5353:53")
unfolding ascii decimal pasta_network_arg port_options port_map_spec
spliced = refl

volume_spec-split_example :
    split b':' (ascii "/home/u/x:/projects/x:ro")
    ≡ volume_parts (ascii "/home/u/x") (ascii "/projects/x") (some (ascii "ro"))
unfolding ascii paths_code volume_spec reject_colon_path
volume_spec-split_example =
    volume_spec-split (ascii "/home/u/x") (ascii "/projects/x") (ascii "/home/u/x:/projects/x:ro")
      (some (ascii "ro")) (λ o e. rw (← some_injective e) refl) refl
  where
    some_injective : {a b : Bytes} → some a ≡ some b → a ≡ b
    some_injective h = cc
