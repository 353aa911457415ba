-- ===== src/Entry/RuntimeEnv.antt =====
-- The runtime environment file of src/bin/claudepod-entry.rs.
pub mod Quoting
use claudepod.Prelude.{
  ℕ, Option, none, some, Bool, true, false, not, List, [], ◌∷◌, ◌++◌, Bytes, ascii, length, ◌==◌,
  if◌then◌else◌,
}
use claudepod.Outcome.{Outcome, ok, err, message, chain}
use claudepod.Utf8.{from_utf8_lossy}
use claudepod.Paths.{split}
use claudepod.AgentEnv.{is_shell_identifier, names_env}

unfoldable pub check_name : Bytes → Outcome Bytes
check_name name =
    if not (is_shell_identifier name)
    then err
        (message (names_env ++ (ascii " contains invalid variable name " ++ from_utf8_lossy name)))
    else ok name

-- The loop over the pieces of the list.
unfoldable pub check_names : List Bytes → Outcome (List Bytes)
check_names [] = ok []
check_names (name ∷ names) =
    chain (check_name name) λ n. chain (check_names names) λ rest. ok (n ∷ rest)

unfoldable pub agent_env_names_from_raw : Option Bytes → Outcome (List Bytes)
agent_env_names_from_raw none = ok []
agent_env_names_from_raw (some raw) = if length raw == 0 then ok [] else check_names (split 10 raw)

-- A single quote ends the quotes, stands behind a backslash, and opens them again.
unfoldable pub quote : Bytes → Bytes
quote [] = []
quote (byte ∷ bytes) = if byte == b'\'' then ascii "'\\''" ++ quote bytes else byte ∷ quote bytes

unfoldable pub append_env_line : Bytes → Bytes → Bytes → Bytes
append_env_line out name value = out ++ (name ++ (ascii "='" ++ (quote value ++ ascii "'\n")))

-- The definitions of this file, by one name for `unfolding` lines that run them.
unfoldable pub runtime_env_code : Unit {0}
unfolding check_name check_names agent_env_names_from_raw quote append_env_line
runtime_env_code = tt
