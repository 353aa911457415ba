-- ===== src/Entry/RuntimeEnv/Quoting.antt =====
-- What the shell makes of a line of the runtime environment file.
use claudepod.Prelude.{
  ℕ, ◌≡◌, refl, sym, ap, ◌∙◌, true, false, Option, none, some, [], ◌∷◌, ◌++◌, append_assoc, Bytes,
  ascii, ◌==◌, ==_iff, Bool-cases, inl, inr,
}
use claudepod.Entry.RuntimeEnv.{quote, append_env_line}

-- Outside of quotes, inside of single quotes, and behind a backslash.
pub data Mode : Type 0 where
  bare quoted escaped : Mode

abbrev pub push : ℕ → Option (Bytes × Bytes) → Option (Bytes × Bytes)
push b none = none
push b (some (word, rest)) = some (b ∷ word, rest)

-- A word of a shell line made of quoted parts and escaped characters, up to the end of the line, and
-- what follows the line. Other characters are no part of such a word.
unfoldable pub shell_word : Mode → Bytes → Option (Bytes × Bytes)
shell_word mode [] = none
shell_word quoted (b ∷ bs) = elim (b == b'\'') [
  | true ↦ shell_word bare bs
  | false ↦ push b (shell_word quoted bs)
]
shell_word escaped (b ∷ bs) = push b (shell_word bare bs)
shell_word bare (b ∷ bs) = elim (b == 10) [
  | true ↦ some ([], bs)
  | false ↦ elim (b == b'\'') [
    | true ↦ shell_word quoted bs
    | false ↦ elim (b == b'\\') [ true ↦ shell_word escaped bs | false ↦ none ]
  ]
]

shell_word-push :
    (b : ℕ) (bs : Bytes)
    → (b == b'\'') ≡ false
    → shell_word quoted (b ∷ bs) ≡ push b (shell_word quoted bs)
unfolding shell_word
shell_word-push b bs h = rw (shell_word, h) refl

shell_word-quote :
    (value rest : Bytes)
    → shell_word quoted (quote value ++ (ascii "'\n" ++ rest)) ≡ some (value, rest)
unfolding quote shell_word ascii
shell_word-quote [] rest = refl
shell_word-quote (b ∷ bs) rest = elim (Bool-cases (b == b'\'')) [
  | inl e ↦ rw e (
      ap (push b'\'') (shell_word-quote bs rest)
      ∙ ap (λ (x : ℕ). some (x ∷ bs, rest)) (sym ((==_iff b b'\'').0 e)))
  | inr e ↦ rw e (
      shell_word-push b (quote bs ++ (ascii "'\n" ++ rest)) e
      ∙ ap (push b) (shell_word-quote bs rest))
]

-- The shell word that stands for a value, whatever follows its line.
pub append_env_line-word :
    (out name value : Bytes)
    → (word : Bytes) × (append_env_line out name value ≡ out ++ (name ++ (b'=' ∷ word)))
      × ((rest : Bytes) → shell_word bare (word ++ rest) ≡ some (value, rest))
unfolding append_env_line ascii shell_word
append_env_line-word out name value = (
  b'\'' ∷ (quote value ++ ascii "'\n"),
  refl,
  λ rest.
      ap (shell_word quoted) (append_assoc (quote value) (ascii "'\n") rest)
      ∙ shell_word-quote value rest,
)

-- A line that is appended for a variable is its name, an equals sign and a shell word that means the
-- value exactly, whatever bytes the value has and whatever follows the line.
pub append_env_line-shell_word :
    (out name value rest : Bytes)
    → (word : Bytes) × (append_env_line out name value ≡ out ++ (name ++ (b'=' ∷ word)))
      × (shell_word bare (word ++ rest) ≡ some (value, rest))
append_env_line-shell_word out name value rest =
    let (word, e, reads) = append_env_line-word out name value in (word, e, reads rest)
