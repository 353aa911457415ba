-- ===== src/AgentEnv.antt =====
-- src/agent_env.rs: the names under which the host's environment reaches the agent.
pub mod Names
mod Examples
use claudepod.Prelude.{ℕ, Bool, true, false, ◌&&◌, ◌||◌, List, [], ◌∷◌, Bytes, ascii, leb, ◌==◌}

unfoldable pub names_env : Bytes
names_env = ascii "CLAUDEPOD_AGENT_ENV_NAMES"

abbrev pub is_ascii_alphabetic : ℕ → Bool
is_ascii_alphabetic byte = (leb b'a' byte && leb byte b'z') || (leb b'A' byte && leb byte b'Z')

abbrev pub is_ascii_digit : ℕ → Bool
is_ascii_digit byte = leb b'0' byte && leb byte b'9'

unfoldable pub is_shell_identifier_start : ℕ → Bool
is_shell_identifier_start byte = byte == b'_' || is_ascii_alphabetic byte

unfoldable pub is_shell_identifier_char : ℕ → Bool
is_shell_identifier_char byte = is_shell_identifier_start byte || is_ascii_digit byte

-- `rest.iter().all(…)`
unfoldable pub all_identifier_chars : Bytes → Bool
all_identifier_chars [] = true
all_identifier_chars (b ∷ bs) = is_shell_identifier_char b && all_identifier_chars bs

unfoldable pub is_shell_identifier : Bytes → Bool
is_shell_identifier [] = false
is_shell_identifier (first ∷ rest) = is_shell_identifier_start first && all_identifier_chars rest

-- The definitions of this file, by one name for `unfolding` lines that run them.
unfoldable pub agent_env_code : Unit {0}
unfolding ascii names_env is_shell_identifier_start is_shell_identifier_char all_identifier_chars
    is_shell_identifier
agent_env_code = tt
