-- ===== src/StoreLayers.antt =====
-- src/store_layers.rs: the encoding of a stack of store layers in one string.
pub mod RoundTrip
mod Examples
use claudepod.Prelude.{
  ℕ, suc, ◌+◌, Bool, true, false, not, List, [], ◌∷◌, ◌++◌, Bytes, ascii, length, ltb, ◌==◌,
  if◌then◌else◌,
}
use claudepod.Outcome.{Outcome, ok, err, message, chain}
use claudepod.Paths.{split, is_rooted}
use claudepod.Utf8.{from_utf8_lossy}

-- The loop of `join`, with the index of the next path.
unfoldable pub join_loop : Bytes → ℕ → List Bytes → Bytes
join_loop out idx [] = out
join_loop out idx (path ∷ paths) =
    join_loop ((if ltb 0 idx then out ++ (b':' ∷ []) else out) ++ path) (suc idx) paths

unfoldable pub join : List Bytes → Bytes
join paths = join_loop [] 0 paths

unfoldable pub check_layer : Bytes → Outcome (Unit {0})
check_layer path =
    if length path == 0
    then err (message (ascii "store layer list contains an empty layer"))
    else if not (is_rooted path)
    then err (message (ascii "store layer " ++ (from_utf8_lossy path ++ ascii " is not absolute")))
    else ok tt

-- `for path in &paths { … }`
unfoldable pub check_layers : List Bytes → Outcome (Unit {0})
check_layers [] = ok tt
check_layers (path ∷ paths) = chain (check_layer path) (λ _. check_layers paths)

unfoldable pub parse : Bytes → Outcome (List Bytes)
parse value = let paths = split b':' value in chain (check_layers paths) (λ _. ok paths)

-- The definitions of this file, by one name for `unfolding` lines that run them.
unfoldable pub store_layers_code : Unit {0}
unfolding ascii join_loop join check_layer check_layers parse
store_layers_code = tt
