-- ===== src/AgentEnv/Examples.antt =====
-- Names of environment variables, as in the tests of agent_env.rs and the two programs.
use claudepod.Prelude.{◌≡◌, refl, false, some, List, [], ◌∷◌, map, ascii, bytes_eq}
use claudepod.Outcome.{ok}
use claudepod.AgentEnv.{
  is_shell_identifier_start, is_shell_identifier_char, all_identifier_chars, is_shell_identifier,
  names_env,
}
use claudepod.AgentEnv.Names.{agent_env_names_from_raw-join_env_names}
use claudepod.Start.EnvSpecs.{EnvSpec, first_piece, parse_env_spec, parse_env_specs, join_env_names}
use claudepod.Entry.RuntimeEnv.{agent_env_names_from_raw}

refused_names :
    (is_shell_identifier (ascii "1BAD") ≡ false) × (is_shell_identifier (ascii "BAD-NAME") ≡ false)
unfolding ascii is_shell_identifier all_identifier_chars is_shell_identifier_char
    is_shell_identifier_start
refused_names = (refl, refl)

abbrev specs : List EnvSpec
specs =
    record { arg = ascii "FOO=1"; name = ascii "FOO" }
    ∷ record { arg = ascii "_X1"; name = ascii "_X1" }
    ∷ []

agent_env_names_from_raw-join_env_names_example :
    agent_env_names_from_raw (some (join_env_names specs)) ≡ ok (map (λ s. s.name) specs)
unfolding ascii is_shell_identifier all_identifier_chars is_shell_identifier_char
    is_shell_identifier_start parse_env_specs parse_env_spec first_piece bytes_eq names_env
agent_env_names_from_raw-join_env_names_example =
    agent_env_names_from_raw-join_env_names (ascii "FOO=1" ∷ ascii "_X1" ∷ []) specs refl
