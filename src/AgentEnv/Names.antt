-- ===== src/AgentEnv/Names.antt =====
-- The names that claudepod-start joins are the names that claudepod-entry reads.
use claudepod.Prelude.{
  ℕ, ◌≡◌, refl, sym, ap, ◌∙◌, true, false, not, List, [], ◌∷◌, ◌++◌, map, some, append_assoc,
  append-nil, Bytes, All, length, if◌then◌else◌, ◌==◌, suc_==_zero, and_true, Bool-cases, inl, inr,
  arith, bytes_eq,
}
use claudepod.Outcome.{ok}
use claudepod.Outcome.Laws.{chain-ok, err_ok, ok_injective}
use claudepod.Paths.{split, contains_byte}
use claudepod.Paths.Split.{join_rest, IsPiece, split-join_with}
use claudepod.AgentEnv.{
  is_shell_identifier_start, is_shell_identifier_char, all_identifier_chars, is_shell_identifier,
  names_env,
}
use claudepod.Start.EnvSpecs.{
  EnvSpec, first_piece, parse_env_spec, parse_env_specs, join_names_loop, join_env_names,
}
use claudepod.Entry.RuntimeEnv.{check_name, check_names, agent_env_names_from_raw}

-- A line break is no character of an identifier.
char_no_newline : (b : ℕ) → is_shell_identifier_char b ≡ true → (b == 10) ≡ false
unfolding is_shell_identifier_char is_shell_identifier_start
char_no_newline b h = ground arith

start_no_newline : (b : ℕ) → is_shell_identifier_start b ≡ true → (b == 10) ≡ false
unfolding is_shell_identifier_start
start_no_newline b h = ground arith

chars-IsPiece : (bs : Bytes) → all_identifier_chars bs ≡ true → IsPiece 10 bs
unfolding all_identifier_chars contains_byte
chars-IsPiece [] h = refl
chars-IsPiece (b ∷ bs) h =
    let (p, q) = and_true (is_shell_identifier_char b) _ h in
    rw (char_no_newline b p, chars-IsPiece bs q) refl

-- A name that is accepted has a first character, and no line break.
abbrev IsName : Bytes → Type 0
IsName name = is_shell_identifier name ≡ true

IsName-IsPiece : (name : Bytes) → IsName name → IsPiece 10 name
unfolding is_shell_identifier contains_byte
IsName-IsPiece [] h = refl
IsName-IsPiece (b ∷ bs) h =
    let (p, q) = and_true (is_shell_identifier_start b) _ h in
    rw (start_no_newline b p, chars-IsPiece bs q) refl

parse_env_spec-IsName : (arg : Bytes) (s : EnvSpec) → parse_env_spec arg ≡ ok s → IsName s.name
unfolding parse_env_spec
parse_env_spec-IsName arg s h = elim (Bool-cases (is_shell_identifier (first_piece b'=' arg))) [
  | inr e ↦ absurd (err_ok (rw (e, not) at h))
  | inl e ↦ elim (Bool-cases (bytes_eq (first_piece b'=' arg) names_env)) [
    | inl r ↦ absurd (err_ok (rw (e, r, not) at h))
    | inr r ↦ rw (← ap (λ (x : EnvSpec). x.name) (ok_injective (rw (e, r, not) at h))) e
  ]
]

abbrev names : List EnvSpec → List Bytes
names specs = map (λ s. s.name) specs

parse_env_specs-IsName :
    (args : List Bytes) (specs : List EnvSpec)
    → parse_env_specs args ≡ ok specs
    → All IsName (names specs)
unfolding parse_env_specs
parse_env_specs-IsName [] specs h = rw (← ok_injective h) tt
parse_env_specs-IsName (arg ∷ args) specs h =
    let (s, p, q) = chain-ok (parse_env_spec arg) _ specs h in
    let (rest, r, t) = chain-ok (parse_env_specs args) _ specs q in
    rw (← ok_injective t) (parse_env_spec-IsName arg s p, parse_env_specs-IsName args rest r)

join_names_loop-join_rest :
    (b : ℕ) (out : Bytes) (specs : List EnvSpec)
    → join_names_loop (b ∷ out) specs ≡ (b ∷ out) ++ join_rest 10 (names specs)
unfolding join_names_loop
join_names_loop-join_rest b out [] = sym (append-nil (b ∷ out))
join_names_loop-join_rest b out (s ∷ specs) =
    rw (suc_==_zero, not)
      (join_names_loop-join_rest b ((out ++ (10 ∷ [])) ++ s.name) specs
        ∙ append_assoc ((b ∷ out) ++ (10 ∷ [])) s.name _
        ∙ append_assoc (b ∷ out) (10 ∷ []) _)

check_names-IsName : (ns : List Bytes) → All IsName ns → check_names ns ≡ ok ns
unfolding check_names check_name
check_names-IsName [] h = refl
check_names-IsName (n ∷ ns) h = rw (h.0, not, check_names-IsName ns h.1) refl

names-IsPiece : (ns : List Bytes) → All IsName ns → All (IsPiece 10) ns
names-IsPiece [] h = tt
names-IsPiece (n ∷ ns) h = (IsName-IsPiece n h.0, names-IsPiece ns h.1)

read_first :
    (n : Bytes) (specs : List EnvSpec)
    → IsName n
    → All IsName (names specs)
    → (let raw = join_names_loop n specs in
        if length raw == 0 then ok [] else check_names (split 10 raw))
      ≡ ok (n ∷ names specs)
unfolding is_shell_identifier
read_first [] specs h k = cc
read_first (b ∷ out) specs h k =
    rw
      (
        join_names_loop-join_rest,
        suc_==_zero,
        split-join_with 10 (b ∷ out) (names specs) (names-IsPiece ((b ∷ out) ∷ names specs) (h, k)),
      )
      (check_names-IsName ((b ∷ out) ∷ names specs) (h, k))

read_joined :
    (specs : List EnvSpec)
    → All IsName (names specs)
    → agent_env_names_from_raw (some (join_env_names specs)) ≡ ok (names specs)
unfolding agent_env_names_from_raw join_env_names join_names_loop
read_joined [] h = refl
read_joined (s ∷ specs) h = read_first s.name specs h.0 h.1

-- What claudepod-start accepts as `-e` options, it joins to a list from which claudepod-entry reads
-- back exactly their names, in order.
pub agent_env_names_from_raw-join_env_names :
    (args : List Bytes) (specs : List EnvSpec)
    → parse_env_specs args ≡ ok specs
    → agent_env_names_from_raw (some (join_env_names specs)) ≡ ok (map (λ s. s.name) specs)
agent_env_names_from_raw-join_env_names args specs h =
    read_joined specs (parse_env_specs-IsName args specs h)
