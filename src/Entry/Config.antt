-- ===== src/Entry/Config.antt =====
-- The runtime configuration that src/bin/claudepod-entry.rs writes under /run.
pub mod Kept
pub mod Listed
pub mod Written
use claudepod.Prelude.{
  ℕ, Option, none, some, Bool, true, false, List, [], ◌∷◌, ◌++◌, Bytes, ascii, bytes_eq, length,
}
use claudepod.Outcome.{Outcome, ok, err, pending, out_of_fuel, M, pure, with_context, ◌>>=◌, ◌>>◌}
use claudepod.Host.{
  Host, Faults, Vars, not_empty, required, settled, call, create_dir_all, write_file,
  read_to_string,
}
use claudepod.AgentEnv.{names_env}
use claudepod.Entry.RuntimeEnv.{agent_env_names_from_raw, append_env_line}
use claudepod.Entry.Subids.{subid_file_from_map}

unfoldable pub required_env_bytes : Vars → Bytes → M Host Bytes
required_env_bytes vars name =
    settled (required (name ++ ascii " is not set") (not_empty (vars name)))

-- The arguments of the command, each with a zero byte behind it.
unfoldable pub command_bytes : Bytes → List Bytes → Bytes
command_bytes out [] = out
command_bytes out (arg ∷ args) = command_bytes (out ++ (arg ++ (0 ∷ []))) args

-- The loop over the names: a variable that is not set has no line.
unfoldable pub env_lines : Vars → Bytes → List Bytes → Bytes
env_lines vars out [] = out
env_lines vars out (name ∷ names) =
    env_lines vars (elim (vars name) [ none ↦ out | some value ↦ append_env_line out name value ])
      names

abbrev pub verbose_path : Bytes
verbose_path = ascii "/run/systemd/system.conf.d/50-claudepod-verbose.conf"

abbrev pub is_set : Option Bytes → Bool
is_set none = false
is_set (some value) = true

-- `with_newline` is a value and a line feed.
abbrev pub with_newline : Bytes → Bytes
with_newline bytes = bytes ++ (10 ∷ [])

module _ (faults : Faults) where
  -- `std::fs::write(path, contents).context("write <path>")`
  unfoldable pub write_run_file : Bytes → Bytes → M Host (Unit {0})
  write_run_file path contents =
      with_context (ascii "write " ++ path) (write_file faults path contents)

  unfoldable pub subid_file_from_map_path : Bytes → M Host Bytes
  subid_file_from_map_path path = do
    map ← with_context (ascii "read " ++ path) (read_to_string faults path)
    settled (subid_file_from_map map)

  -- Where the variable has a value.
  unfoldable pub verbose_config : Option Bytes → M Host (Unit {0})
  verbose_config none = pure tt
  verbose_config (some value) = do
    with_context (ascii "create /run/systemd/system.conf.d")
        (create_dir_all faults (ascii "/run/systemd/system.conf.d"))
    with_context (ascii "write systemd verbose config")
        (write_file faults verbose_path (ascii "[Manager]\nShowStatus=yes\n"))

module _ (faults : Faults) (vars : Vars) where
  unfoldable pub write_verbose_config : M Host (Unit {0})
  write_verbose_config = verbose_config faults (not_empty (vars (ascii "CLAUDEPOD_VERBOSE")))

  -- The part of `write_runtime_config` behind the id maps.
  unfoldable pub write_launch_files : Bytes → List Bytes → Bytes → M Host (Unit {0})
  write_launch_files system command layers = do
    write_run_file faults (ascii "/run/claudepod-command") (command_bytes [] command)
    write_run_file faults (ascii "/run/claudepod-store-layers") (with_newline layers)
    write_run_file faults (ascii "/run/claudepod-toplevel") (with_newline system)
    names ← settled (agent_env_names_from_raw (vars names_env))
    write_run_file faults (ascii "/run/claudepod-env") (env_lines vars [] names)
    write_verbose_config

  -- The part of it from the id maps on.
  unfoldable pub write_id_files : Bytes → List Bytes → Bytes → M Host (Unit {0})
  write_id_files system command layers = do
    subuid ← subid_file_from_map_path faults (ascii "/proc/self/uid_map")
    write_run_file faults (ascii "/run/claudepod-subuid") subuid
    subgid ← subid_file_from_map_path faults (ascii "/proc/self/gid_map")
    write_run_file faults (ascii "/run/claudepod-subgid") subgid
    write_launch_files system command layers

  unfoldable pub write_runtime_config : Bytes → Bytes → List Bytes → Bytes → M Host (Unit {0})
  write_runtime_config system username command layers = do
    write_run_file faults (ascii "/run/claudepod-username") (with_newline username)
    project ← required_env_bytes vars (ascii "CLAUDEPOD_PROJECT_PATH")
    write_run_file faults (ascii "/run/claudepod-project") (with_newline project)
    mode ← required_env_bytes vars (ascii "CLAUDEPOD_MODE")
    write_run_file faults (ascii "/run/claudepod-mode") (with_newline mode)
    write_id_files system command layers

-- The definitions of this file, by one name for `unfolding` lines that run them.
unfoldable pub config_code : Unit {0}
unfolding required_env_bytes command_bytes env_lines write_run_file subid_file_from_map_path
    verbose_config write_verbose_config write_launch_files write_id_files write_runtime_config
config_code = tt
