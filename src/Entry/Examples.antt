-- ===== src/Entry/Examples.antt =====
-- The entry point, as in the tests of claudepod-entry.rs and at a small container.
use claudepod.Prelude.{
  ℕ, ◌≤◌, ◌≡◌, ◌↔◌, refl, none, some, false, List, [], ◌∷◌, ◌++◌, Bytes, ascii, bytes_eq, length,
  ◌==◌, All, if◌then◌else◌,
}
use claudepod.Outcome.{ok, pure, with_context, rescue, ◌>>=◌}
use claudepod.AgentEnv.{agent_env_code}
use claudepod.Host.{Contents, Host, Vars, tick, not_empty, host_code}
use claudepod.Host.Successes.{Yields}
use claudepod.Paths.{paths_code}
use claudepod.Utf8.{utf8_code}
use claudepod.Utf8.Words.{lines}
use claudepod.StoreLayers.{store_layers_code}
use claudepod.Entry.RuntimeEnv.{quote, append_env_line, runtime_env_code}
use claudepod.Entry.RuntimeEnv.Quoting.{bare, shell_word, append_env_line-shell_word}
use claudepod.Entry.Subids.{Range, subid_delegate_start, subid_file_from_map, subids_code}
use claudepod.Entry.Subids.Delegated.{Holds, subid_text, IsDelegable, subid_file_from_map-delegates}
use claudepod.Entry.Subids.Entries.{Entries}
use claudepod.Entry.Config.{write_runtime_config, config_code}
use claudepod.Entry.Config.Written.{Configured, write_runtime_config-Configured}
use claudepod.Entry.Setup.{store_upper_dir, inherited_layers, Exec, run, setup_code}
use claudepod.Entry.Setup.Nested.{calm, run-parent_store_layers}
use claudepod.Start.Inputs.{parent_store_layers, toplevel}

quoted_line : append_env_line [] (ascii "FOO") (ascii "a'b\nc") ≡ ascii "FOO='a'\\''b\nc'\n"
unfolding ascii quote append_env_line
quoted_line = refl

append_env_line-shell_word_example :
    (word : Bytes) × (append_env_line [] (ascii "FOO") (ascii "a'b\nc")
      ≡ [] ++ (ascii "FOO" ++ (b'=' ∷ word)))
    × (shell_word bare (word ++ ascii "BAR='x'\n") ≡ some (ascii "a'b\nc", ascii "BAR='x'\n"))
append_env_line-shell_word_example =
    append_env_line-shell_word [] (ascii "FOO") (ascii "a'b\nc") (ascii "BAR='x'\n")

-- The map of a container that keeps the user's id.
abbrev id_map : Bytes
id_map = ascii "0 100000 1000\n1000 1000 1\n1001 101000 64536\n"

clipped :
    subid_file_from_map (ascii "0 100000 500\n500 100500 1000\n") ≡ ok (ascii "1000:1001:499\n")
unfolding subids_code paths_code utf8_code
clipped = refl

subid_file_from_map-delegates_example :
    (es : List Range) × (ranges : List Range) × Entries (lines id_map) es
    × (ascii "1000:1001:64536\n" ≡ subid_text ranges)
    × All IsDelegable ranges
    × ((id : ℕ) → Holds id ranges ↔ ((subid_delegate_start ≤ id) × Holds id es))
unfolding subids_code paths_code utf8_code
subid_file_from_map-delegates_example =
    subid_file_from_map-delegates id_map (ascii "1000:1001:64536\n") refl

abbrev vars : Vars
vars name =
    if bytes_eq name (ascii "CLAUDEPOD_TOPLEVEL")
    then some (ascii "/nix/store/s-nixos")
    else if bytes_eq name (ascii "CLAUDEPOD_STORE_LAYERS")
    then some (ascii "/nix/.l/0:/nix/.l/1")
    else if bytes_eq name (ascii "CLAUDEPOD_USERNAME")
    then some (ascii "ann")
    else if bytes_eq name (ascii "CLAUDEPOD_PROJECT_PATH")
    then some (ascii "/projects/x")
    else if bytes_eq name (ascii "CLAUDEPOD_MODE")
    then some (ascii "shell")
    else none

abbrev proc : Contents
proc path =
    if bytes_eq path (ascii "/proc/self/uid_map")
    then some (ascii "0 100000 1002\n")
    else if bytes_eq path (ascii "/proc/self/gid_map")
    then some (ascii "0 100000 1000\n")
    else none

abbrev container : Host
container = record { files = proc; links = λ path. none; mounts = []; past = []; calls = 0 }

abbrev agent : List Bytes
agent = ascii "claude" ∷ []

abbrev configured : Host
configured =
    (write_runtime_config calm vars (ascii "/nix/store/s-nixos") (ascii "ann") agent (ascii "/l")
      container).1

write_runtime_config-Configured_example :
    Configured vars
      (ascii "/nix/store/s-nixos")
      (ascii "ann")
      agent
      (ascii "/l")
      proc
      configured.files
unfolding config_code subids_code host_code paths_code utf8_code runtime_env_code agent_env_code
    bytes_eq with_context pure ◌>>=◌
write_runtime_config-Configured_example =
    write_runtime_config-Configured calm vars (ascii "/nix/store/s-nixos") (ascii "ann") agent
      (ascii "/l") container configured refl

abbrev finished : Host
finished = (run calm vars agent container).1

abbrev init : Exec
init = record {
  program = ascii "/nix/store/s-nixos/init";
  added =
      (ascii "container", ascii "podman")
      ∷ (ascii "SYSTEMD_DEFAULT_MOUNT_RATE_LIMIT_BURST", ascii "1000")
      ∷ [];
}

run-parent_store_layers_example :
    (lower : List Bytes) × (inherited_layers vars ≡ ok lower)
    × Yields (parent_store_layers calm) finished (store_upper_dir ∷ lower) (tick finished)
    × (system : Bytes) × (vars (ascii "CLAUDEPOD_TOPLEVEL") ≡ some system)
    × (init.program ≡ system ++ ascii "/init")
    × ((inside : Vars)
        → not_empty (inside (ascii "CLAUDEPOD_TOPLEVEL")) ≡ none
        → (length system == 0) ≡ false
        → Yields (toplevel calm inside) finished system (tick finished))
unfolding setup_code config_code subids_code host_code paths_code utf8_code store_layers_code
    runtime_env_code agent_env_code bytes_eq with_context rescue pure ◌>>=◌
run-parent_store_layers_example =
    run-parent_store_layers calm vars agent container init finished refl
