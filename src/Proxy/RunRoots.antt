-- ===== src/Proxy/RunRoots.antt =====
-- src/proxy/run_roots.rs: the manifest of paths that may be filled on demand.
pub mod Members
pub mod Total
mod Examples
use claudepod.Utf8.{utf8_code}
use claudepod.StorePath.{store_path_code}
use claudepod.Paths.{paths_code}
use claudepod.Prelude.{
  ℕ, ◌+◌, Bool, false, ◌||◌, List, [], ◌∷◌, ◌++◌, Bytes, ascii, decimal, length, ◌==◌,
  if◌then◌else◌,
}
use claudepod.Outcome.{Outcome, ok, err, message, chain, add_context}
use claudepod.Utf8.{from_utf8_lossy}
use claudepod.Paths.{split, path_eq}
use claudepod.StorePath.{validate_direct}

-- A `HashSet` of paths, as the list of what was inserted. Paths are compared by components.
pub record NixRunRoots : Type 0 where
  pub paths : List Bytes

unfoldable pub has_path : List Bytes → Bytes → Bool
has_path [] path = false
has_path (p ∷ ps) path = path_eq p path || has_path ps path

unfoldable pub contains : NixRunRoots → Bytes → Bool
contains roots path = has_path roots.paths path

-- Inserting what is there changes nothing.
unfoldable pub insert : Bytes → List Bytes → List Bytes
insert path paths = if has_path paths path then paths else paths ++ (path ∷ [])

-- A blank line is allowed as the last one only.
unfoldable pub blank_line : List Bytes → ℕ → List Bytes → Outcome NixRunRoots
blank_line paths line_no [] = ok (record { paths = paths })
blank_line paths line_no (line ∷ lines) = err (message (ascii "blank line " ++ decimal line_no))

-- The loop of `parse_manifest`; `lines.peek().is_none()` is the pattern of a one-line rest.
unfoldable pub parse_lines : List Bytes → ℕ → List Bytes → Outcome NixRunRoots
parse_lines paths line_no [] = ok (record { paths = paths })
parse_lines paths line_no (line ∷ lines) =
    let rest =
      chain (add_context (ascii "line " ++ decimal line_no) (validate_direct line))
        (λ _. parse_lines (insert line paths) (line_no + 1) lines) in
    if length line == 0 then blank_line paths line_no lines else rest

unfoldable pub parse_manifest : Bytes → Outcome NixRunRoots
parse_manifest raw = parse_lines [] 1 (split 10 raw)

-- `NixRunRoots::load`, over what reading the file gave.
unfoldable pub load : Bytes → Outcome Bytes → Outcome NixRunRoots
load path contents =
    chain (add_context (ascii "read nix run roots manifest " ++ from_utf8_lossy path) contents)
      λ raw.
        add_context (ascii "parse nix run roots manifest " ++ from_utf8_lossy path)
          (parse_manifest raw)

-- The definitions of this file, by one name for `unfolding` lines that run them.
unfoldable pub run_roots_code : Unit {0}
unfolding paths_code store_path_code utf8_code decimal has_path contains insert blank_line
    parse_lines parse_manifest load
run_roots_code = tt
