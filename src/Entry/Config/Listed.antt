-- ===== src/Entry/Config/Listed.antt =====
-- What the command and the selected variables leave in their files under /run.
use claudepod.Prelude.{
  ◌≡◌, refl, sym, ap, ◌∙◌, Option, none, some, List, [], ◌∷◌, ◌++◌, append-nil, append_assoc, Bytes,
}
use claudepod.Host.{Vars}
use claudepod.Entry.Config.{command_bytes, env_lines}
use claudepod.Entry.RuntimeEnv.{append_env_line}
use claudepod.Entry.RuntimeEnv.Quoting.{bare, shell_word, append_env_line-word}

-- Every argument has a zero byte behind it.
abbrev pub terminated : List Bytes → Bytes
terminated [] = []
terminated (arg ∷ args) = arg ++ (0 ∷ terminated args)

pub command_bytes-terminated :
    (out : Bytes) (args : List Bytes) → command_bytes out args ≡ out ++ terminated args
unfolding command_bytes
command_bytes-terminated out [] = sym (append-nil out)
command_bytes-terminated out (arg ∷ args) =
    command_bytes-terminated (out ++ (arg ++ (0 ∷ []))) args
    ∙ append_assoc out (arg ++ (0 ∷ [])) (terminated args)
    ∙ ap (λ (t : Bytes). out ++ t) (append_assoc arg (0 ∷ []) (terminated args))

-- A text of one line for every variable that is set: its name, an equals sign, and a word that the
-- shell reads as the value.
pub data Lines (vars : Vars) : List Bytes → Bytes → Type 0 where
  no_names : Lines vars [] []
  unset :
      {name text : Bytes} {names : List Bytes}
      → vars name ≡ none
      → Lines vars names text
      → Lines vars (name ∷ names) text
  line :
      {name value : Bytes} (word : Bytes) {text : Bytes} {names : List Bytes}
      → vars name ≡ some value
      → ((rest : Bytes) → shell_word bare (word ++ rest) ≡ some (value, rest))
      → Lines vars names text
      → Lines vars (name ∷ names) (name ++ (b'=' ∷ (word ++ text)))

-- The lines for the names that follow some text.
abbrev FollowedBy : Vars → List Bytes → Bytes → Type 0
FollowedBy vars names out =
    (text : Bytes) × (env_lines vars out names ≡ out ++ text) × Lines vars names text

line-FollowedBy :
    (vars : Vars) (out name : Bytes) (names : List Bytes) (v : Option Bytes)
    → ((out' : Bytes) → FollowedBy vars names out')
    → vars name ≡ v
    → (text : Bytes) × (env_lines vars
          (elim v [ none ↦ out | some value ↦ append_env_line out name value ])
          names
        ≡ out ++ text)
      × Lines vars (name ∷ names) text
line-FollowedBy vars out name names none follow e =
    let (text, q, ls) = follow out in (text, q, unset e ls)
line-FollowedBy vars out name names (some value) follow e =
    let (word, p, reads) = append_env_line-word out name value in
    let (text, q, ls) = follow (append_env_line out name value) in
    (
      name ++ (b'=' ∷ (word ++ text)),
      q
          ∙ ap (λ (t : Bytes). t ++ text) p
          ∙ append_assoc out (name ++ (b'=' ∷ word)) text
          ∙ ap (λ (t : Bytes). out ++ t) (append_assoc name (b'=' ∷ word) text),
      line word e reads ls,
    )

pub env_lines-Lines : (vars : Vars) (out : Bytes) (names : List Bytes) → FollowedBy vars names out
unfolding env_lines
env_lines-Lines vars out [] = ([], sym (append-nil out), no_names)
env_lines-Lines vars out (name ∷ names) =
    line-FollowedBy vars out name names (vars name) (λ out'. env_lines-Lines vars out' names) refl
