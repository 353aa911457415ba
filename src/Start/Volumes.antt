-- ===== src/Start/Volumes.antt =====
-- The volume specifications of src/bin/claudepod-start.rs.
pub mod Parts
use claudepod.Prelude.{
  ℕ, Option, none, some, Bool, true, false, ◌||◌, List, [], ◌∷◌, ◌++◌, Bytes, ascii, bytes_eq,
  length, take, drop, ◌==◌, if◌then◌else◌,
}
use claudepod.Outcome.{Outcome, ok, err, message, chain, add_context}
use claudepod.Utf8.{is_utf8, from_utf8_lossy}
use claudepod.Paths.{contains_byte, position}
use claudepod.StorePath.{direct_hash}

unfoldable pub reject_colon_path : Bytes → Bytes → Outcome (Unit {0})
reject_colon_path label path =
    if contains_byte b':' path
    then err (
        message (
          label
          ++ (ascii " path contains ':' and cannot be encoded as a podman volume spec: "
              ++ from_utf8_lossy path)))
    else ok tt

abbrev pub push_options : Bytes → Option Bytes → Bytes
push_options spec none = spec
push_options spec (some options) = spec ++ (b':' ∷ options)

unfoldable pub volume_spec : Bytes → Bytes → Option Bytes → Outcome Bytes
volume_spec host guest options = chain (reject_colon_path (ascii "host volume") host) λ _.
    chain (reject_colon_path (ascii "guest volume") guest)
      λ _. ok (push_options (host ++ (b':' ∷ guest)) options)

unfoldable pub rootfs_spec : Bytes → Outcome Bytes
rootfs_spec rootfs_dir =
    chain (reject_colon_path (ascii "rootfs") rootfs_dir) λ _. ok (rootfs_dir ++ ascii ":O")

-- The host side, and the rest of the specification with its colon.
unfoldable pub split_volume : Bytes → Option ℕ → Bytes × Bytes
split_volume bytes none = (bytes, [])
split_volume bytes (some colon) = (take colon bytes, drop colon bytes)

-- `std::path::absolute` is a parameter: it asks for the working directory.
unfoldable pub extra_volume_spec : (Bytes → Outcome Bytes) → Bytes → Outcome Bytes
extra_volume_spec absolute spec =
    let (host, guest_and_options) = split_volume spec (position b':' spec) in
    chain (add_context (ascii "resolve volume spec " ++ from_utf8_lossy spec) (absolute host))
      λ path.
        ok (path ++ (if length guest_and_options == 0 then b':' ∷ path else guest_and_options))

unfoldable pub cache_path_segment : Bytes → Bytes → Outcome Bytes
cache_path_segment name value =
    if length value == 0
      || contains_byte b'/' value
      || bytes_eq value (ascii ".")
      || bytes_eq value (ascii "..")
    then err (message (name ++ ascii " is not a valid cache path segment"))
    else if is_utf8 value
    then ok value
    else err (message (name ++ ascii " is not valid UTF-8"))

-- The three joins of `nix_run_roots_manifest_relative_path`.
unfoldable pub nix_run_roots_manifest_relative_path : Bytes → Bytes → Outcome Bytes
nix_run_roots_manifest_relative_path guest_system nixpkgs =
    chain (cache_path_segment (ascii "CLAUDEPOD_GUEST_SYSTEM") guest_system) λ system.
      chain
        (add_context (ascii "parse CLAUDEPOD_NIXPKGS=" ++ from_utf8_lossy nixpkgs)
          (direct_hash nixpkgs))
        λ hash. ok (ascii "nix-run-roots/v1/" ++ (system ++ (b'/' ∷ (hash ++ ascii ".txt"))))
