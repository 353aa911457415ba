-- ===== src/Start/EnvSpecs.antt =====
-- The `-e` options of src/bin/claudepod-start.rs, and the list of their names.
use claudepod.Prelude.{
  ℕ, not, List, [], ◌∷◌, ◌++◌, Bytes, ascii, bytes_eq, length, ◌==◌, if◌then◌else◌,
}
use claudepod.Outcome.{Outcome, ok, err, message, chain}
use claudepod.Utf8.{from_utf8_lossy}
use claudepod.AgentEnv.{is_shell_identifier, names_env}

pub record EnvSpec : Type 0 where
  pub arg : Bytes
  pub name : Bytes

-- `bytes.splitn(2, |byte| byte == sep).next()`
unfoldable pub first_piece : ℕ → Bytes → Bytes
first_piece sep [] = []
first_piece sep (b ∷ bs) = let rest = first_piece sep bs in if b == sep then [] else b ∷ rest

unfoldable pub parse_env_spec : Bytes → Outcome EnvSpec
parse_env_spec spec =
    let name = first_piece b'=' spec in
    if not (is_shell_identifier name)
    then err (
        message (
          ascii "invalid -e "
          ++ (from_utf8_lossy spec ++ ascii ": variable name must be a shell identifier")))
    else if bytes_eq name names_env
    then err (message (ascii "invalid -e " ++ (from_utf8_lossy spec ++ ascii ": name is reserved")))
    else ok (record { arg = spec; name = name })

-- `.map(parse_env_spec).collect()`: the first error ends it.
unfoldable pub parse_env_specs : List Bytes → Outcome (List EnvSpec)
parse_env_specs [] = ok []
parse_env_specs (spec ∷ specs) =
    chain (parse_env_spec spec) λ s. chain (parse_env_specs specs) λ rest. ok (s ∷ rest)

-- The loop of `join_env_names`.
unfoldable pub join_names_loop : Bytes → List EnvSpec → Bytes
join_names_loop out [] = out
join_names_loop out (spec ∷ specs) =
    join_names_loop ((if not (length out == 0) then out ++ (10 ∷ []) else out) ++ spec.name) specs

unfoldable pub join_env_names : List EnvSpec → Bytes
join_env_names specs = join_names_loop [] specs

unfoldable pub env_arg : Bytes → Bytes → Bytes
env_arg name value = name ++ (b'=' ∷ value)
