-- ===== src/Start/Inputs.antt =====
-- What src/bin/claudepod-start.rs finds out about its own launch: its mode, the system to boot, the
-- store layers of the parent container and the time zone.
use claudepod.Prelude.{
  Option, none, some, List, [], ◌∷◌, ◌++◌, Bytes, ascii, bytes_eq, length, ◌==◌, if◌then◌else◌,
}
use claudepod.Outcome.{
  Outcome, Error, library, message, io, not_found, ok, err, context, M, pure, fail, rescue,
  with_context, add_context, ◌>>=◌,
}
use claudepod.Paths.{components, strip_parts, join_parts}
use claudepod.Utf8.{from_utf8_lossy}
use claudepod.Host.{Host, Faults, Vars, not_empty, required, settled, read_file}
use claudepod.StoreLayers

unfoldable pub store_layers_file : Bytes
store_layers_file = ascii "/run/claudepod-store-layers"

unfoldable pub toplevel_file : Bytes
toplevel_file = ascii "/run/claudepod-toplevel"

abbrev pub store_layer_mount_dir : Bytes
store_layer_mount_dir = ascii "/nix/.l"

abbrev pub host_localtime : Bytes
host_localtime = ascii "/etc/localtime"

abbrev pub host_zoneinfo : Bytes
host_zoneinfo = ascii "/etc/zoneinfo"

-- `{:?}` of the command name is a parameter: Rust's escapes for a text.
unfoldable pub default_mode_from_command_name : (Bytes → Bytes) → Bytes → Outcome Bytes
default_mode_from_command_name quoted command_name =
    if bytes_eq command_name (ascii "claudepod")
    then ok (ascii "claude")
    else if bytes_eq command_name (ascii "gptpod")
    then ok (ascii "codex")
    else err (
        message (
          ascii "unknown command name "
          ++ (quoted (from_utf8_lossy command_name) ++ ascii "; expected claudepod or gptpod")))

unfoldable pub required_env_os : Vars → Bytes → Outcome Bytes
required_env_os vars name = required (name ++ ascii " is not set") (not_empty (vars name))

-- `raw.strip_suffix(b"\n").unwrap_or(&raw)`
unfoldable pub strip_newline : Bytes → Bytes
strip_newline [] = []
strip_newline (b ∷ []) = if b == 10 then [] else b ∷ []
strip_newline (b ∷ (c ∷ cs)) = b ∷ strip_newline (c ∷ cs)

unfoldable pub check_toplevel : Bytes → Outcome Bytes
check_toplevel trimmed =
    if length trimmed == 0 then err (message (toplevel_file ++ ascii " is empty")) else ok trimmed

-- A file that is not there gives nothing, any other error goes on.
abbrev pub absent : Bytes → Error → M Host (Option Bytes)
absent text (library (io not_found)) = pure none
absent text e = fail (context text e)

unfoldable pub layers_of : Option Bytes → Outcome (List Bytes)
layers_of none = ok (ascii "/nix/store" ∷ [])
layers_of (some raw) =
    add_context (ascii "parse " ++ store_layers_file) (StoreLayers.parse (strip_newline raw))

module _ (faults : Faults) where
  -- The value of the variable, or else the file's.
  unfoldable pub toplevel_from : Option Bytes → M Host Bytes
  toplevel_from (some value) = pure value
  toplevel_from none = do
    raw ← with_context (ascii "read " ++ toplevel_file) (read_file faults toplevel_file)
    settled (check_toplevel (strip_newline raw))

  unfoldable pub toplevel : Vars → M Host Bytes
  toplevel vars = toplevel_from (not_empty (vars (ascii "CLAUDEPOD_TOPLEVEL")))

  unfoldable pub parent_store_layers : M Host (List Bytes)
  parent_store_layers = do
    raw ←
        rescue (read_file faults store_layers_file >>= λ raw. pure (some raw))
          (absent (ascii "read " ++ store_layers_file))
    settled (layers_of raw)

-- `host_timezone`, over what reading the link gave.
unfoldable pub host_timezone : Option Bytes → Option Bytes
host_timezone none = none
host_timezone (some target) = elim (strip_parts (components host_zoneinfo) (components target)) [
  | none ↦ none
  | some [] ↦ none
  | some (p ∷ ps) ↦ some (join_parts (p ∷ ps))
]
