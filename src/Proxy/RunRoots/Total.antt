-- ===== src/Proxy/RunRoots/Total.antt =====
-- Parsing a manifest is a success or an error, and no wait.
use claudepod.Prelude.{ℕ, ◌+◌, List, [], ◌∷◌, Bytes, length, ◌==◌, Bool-cases, inl, inr}
use claudepod.Outcome.{Outcome, ok, err, pending, out_of_fuel, add_context}
use claudepod.Outcome.Laws.{Concluded, chain-Concluded}
use claudepod.Paths.{split}
use claudepod.StorePath.Accepted.{validate_direct-Concluded}
use claudepod.Proxy.RunRoots.{insert, blank_line, parse_lines, parse_manifest}

pub add_context-Concluded :
    {A : Type 0} (text : Bytes) (r : Outcome A) → Concluded r → Concluded (add_context text r)
add_context-Concluded text (ok x) h = tt
add_context-Concluded text (err e) h = tt
add_context-Concluded text pending h = h
add_context-Concluded text out_of_fuel h = h

blank_line-Concluded :
    (paths : List Bytes) (n : ℕ) (lines : List Bytes) → Concluded (blank_line paths n lines)
unfolding blank_line
blank_line-Concluded paths n [] = tt
blank_line-Concluded paths n (line ∷ lines) = tt

parse_lines-Concluded :
    (paths : List Bytes) (n : ℕ) (lines : List Bytes) → Concluded (parse_lines paths n lines)
unfolding parse_lines
parse_lines-Concluded paths n [] = tt
parse_lines-Concluded paths n (line ∷ lines) = elim (Bool-cases (length line == 0)) [
  | inl e ↦ rw e (blank_line-Concluded paths n lines)
  | inr e ↦ rw e (
      chain-Concluded _ _ (add_context-Concluded _ _ (validate_direct-Concluded line))
        λ _. parse_lines-Concluded (insert line paths) (n + 1) lines)
]

pub parse_manifest-Concluded : (raw : Bytes) → Concluded (parse_manifest raw)
unfolding parse_manifest
parse_manifest-Concluded raw = parse_lines-Concluded [] 1 (split 10 raw)
