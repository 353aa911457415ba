-- ===== src/StorePath/Examples.antt =====
-- Store paths that are accepted and refused, as in the tests of store_path.rs.
use claudepod.Prelude.{◌≡◌, ◌↔◌, refl, leb→le, Bytes, ascii}
use claudepod.Outcome.{ok, err, message}
use claudepod.Utf8.{utf8_code}
use claudepod.StorePath.{validate_direct, store_path_code}
use claudepod.StorePath.Shape.{Direct}
use claudepod.StorePath.Accepted.{validate_direct-Direct}

abbrev path : Bytes
path = ascii "/nix/store/abc123-source"

no_name :
    validate_direct (ascii "/nix/store/abc-")
    ≡ err (message (ascii "store path basename must be <hash>-<name>: /nix/store/abc-"))
unfolding store_path_code utf8_code
no_name = refl

inside :
    validate_direct (ascii "/nix/store/abc-x/bin")
    ≡ err (message (ascii "not a direct /nix/store path: /nix/store/abc-x/bin"))
unfolding store_path_code utf8_code
inside = refl

path-Direct : Direct path (ascii "abc123") (ascii "source")
unfolding store_path_code
path-Direct = record {
  path_is = refl;
  hash_has_no_dash = refl;
  no_slash = refl;
  hash_is_there = leb→le 1 6 refl;
  name_is_there = leb→le 1 6 refl;
}

validate_direct-Direct_example :
    (validate_direct path ≡ ok tt) ↔ ((hash : Bytes) × (name : Bytes) × Direct path hash name)
validate_direct-Direct_example = validate_direct-Direct path
