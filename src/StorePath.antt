-- ===== src/StorePath.antt =====
-- src/store_path.rs: direct store paths, `/nix/store/<hash>-<name>`.
pub mod Shape
pub mod Accepted
mod Examples
use claudepod.Prelude.{
  ℕ, ◌+◌, Option, none, some, ◌||◌, ◌++◌, Bytes, ascii, length, take, ◌==◌, if◌then◌else◌,
}
use claudepod.Outcome.{Outcome, ok, err, chain, message}
use claudepod.Paths.{strip_prefix, position, contains_byte}
use claudepod.Utf8.{is_utf8, from_utf8_lossy}

-- `path.display()`
abbrev display : Bytes → Bytes
display path = from_utf8_lossy path

abbrev refuse {ℓ} : {A : Type ℓ} → Bytes → Bytes → Outcome A
refuse text path = err (message (text ++ (ascii ": " ++ display path)))

unfoldable pub store_prefix : Bytes
store_prefix = ascii "/nix/store/"

-- The test of a basename that stands behind the prefix.
unfoldable pub check_basename : Bytes → Option Bytes → Outcome Bytes
check_basename path none = refuse (ascii "not a /nix/store path") path
check_basename path (some basename) =
    if length basename == 0 || contains_byte b'/' basename
    then refuse (ascii "not a direct /nix/store path") path
    else ok basename

unfoldable pub direct_basename : Bytes → Outcome Bytes
direct_basename path = check_basename path (strip_prefix store_prefix path)

-- The test of the dash's place in the basename.
unfoldable pub check_dash : Bytes → Bytes → Option ℕ → Outcome (Bytes × ℕ)
check_dash path basename none = refuse (ascii "store path basename has no dash") path
check_dash path basename (some dash) =
    if dash == 0 || dash + 1 == length basename
    then refuse (ascii "store path basename must be <hash>-<name>") path
    else ok (basename, dash)

unfoldable pub direct_name_parts : Bytes → Outcome (Bytes × ℕ)
direct_name_parts path =
    chain (direct_basename path) λ basename. check_dash path basename (position b'-' basename)

unfoldable pub validate_direct : Bytes → Outcome (Unit {0})
validate_direct path = chain (direct_name_parts path) λ parts. ok tt

unfoldable pub check_hash : Bytes → Bytes → ℕ → Outcome Bytes
check_hash path basename dash =
    if is_utf8 basename
    then ok (take dash basename)
    else refuse (ascii "store path is not valid UTF-8") path

unfoldable pub direct_hash : Bytes → Outcome Bytes
direct_hash path = chain (direct_name_parts path) λ parts. check_hash path parts.0 parts.1

unfoldable pub store_path_code : Unit {0}
unfolding ascii store_prefix strip_prefix position contains_byte check_basename direct_basename
    check_dash direct_name_parts validate_direct check_hash direct_hash is_utf8
store_path_code = tt
