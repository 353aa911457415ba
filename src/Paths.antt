-- ===== src/Paths.antt =====
-- Unix paths and byte slices as the standard library treats them: `split`, `strip_prefix`,
-- `position`, and the components by which `Path` values are compared.
pub mod Split
pub mod Names
pub mod Below
pub mod Equality
use claudepod.Prelude.{
  ℕ, suc, Option, none, some, Bool, true, false, not, ◌&&◌, ◌||◌, List, [], ◌∷◌, ◌++◌, Bytes,
  length, ◌==◌, bytes_eq, if◌then◌else◌,
}

abbrev pub split_step : Bool → ℕ → List Bytes → List Bytes
split_step true b pieces = [] ∷ pieces
split_step false b [] = (b ∷ []) ∷ []
split_step false b (p ∷ ps) = (b ∷ p) ∷ ps

-- `bytes.split(|b| b == sep)`: the pieces between separators, one more than there are separators.
unfoldable pub split : ℕ → Bytes → List Bytes
split sep [] = [] ∷ []
split sep (b ∷ bs) = split_step (b == sep) b (split sep bs)

unfoldable pub strip_prefix : Bytes → Bytes → Option Bytes
strip_prefix [] bs = some bs
strip_prefix (p ∷ ps) [] = none
strip_prefix (p ∷ ps) (b ∷ bs) = if p == b then strip_prefix ps bs else none

abbrev pub next_position : Bool → Option ℕ → Option ℕ
next_position true i = some 0
next_position false none = none
next_position false (some i) = some (suc i)

-- `bytes.iter().position(|b| b == byte)`
unfoldable pub position : ℕ → Bytes → Option ℕ
position byte [] = none
position byte (b ∷ bs) = next_position (b == byte) (position byte bs)

-- `bytes.contains(&byte)`
unfoldable pub contains_byte : ℕ → Bytes → Bool
contains_byte byte [] = false
contains_byte byte (b ∷ bs) = b == byte || contains_byte byte bs

-- The components that are kept: not empty, and no `.`.
unfoldable pub keep_parts : List Bytes → List Bytes
keep_parts [] = []
keep_parts (p ∷ ps) =
    if length p == 0 || bytes_eq p (b'.' ∷ []) then keep_parts ps else p ∷ keep_parts ps

abbrev pub is_rooted : Bytes → Bool
is_rooted [] = false
is_rooted (b ∷ bs) = b == b'/'

abbrev pub relative_components : List Bytes → List Bytes
relative_components [] = []
relative_components (p ∷ ps) =
    if bytes_eq p (b'.' ∷ []) then p ∷ keep_parts ps else keep_parts (p ∷ ps)

-- `path.components()`: the root as `/`, a `.` only at the front of a relative path.
unfoldable pub components : Bytes → List Bytes
components path =
    if is_rooted path
    then (b'/' ∷ []) ∷ keep_parts (split b'/' path)
    else relative_components (split b'/' path)

unfoldable pub parts_eq : List Bytes → List Bytes → Bool
parts_eq [] [] = true
parts_eq (x ∷ xs) (y ∷ ys) = bytes_eq x y && parts_eq xs ys
parts_eq _ _ = false

-- `==` of two paths.
unfoldable pub path_eq : Bytes → Bytes → Bool
path_eq a b = parts_eq (components a) (components b)

abbrev pub ends_open : Bytes → Bool
ends_open [] = false
ends_open (b ∷ []) = not (b == b'/')
ends_open (b ∷ (c ∷ cs)) = ends_open (c ∷ cs)

-- `base.join(path)`: an absolute path replaces the base.
unfoldable pub path_join : Bytes → Bytes → Bytes
path_join base path =
    if is_rooted path then path else if ends_open base then base ++ (b'/' ∷ path) else base ++ path

-- `path.strip_prefix(base)`, by components.
unfoldable pub strip_parts : List Bytes → List Bytes → Option (List Bytes)
strip_parts [] parts = some parts
strip_parts (x ∷ xs) [] = none
strip_parts (x ∷ xs) (y ∷ ys) = if bytes_eq x y then strip_parts xs ys else none

abbrev pub starts_with : Bytes → Bytes → Bool
starts_with path base = elim (strip_parts (components base) (components path)) [
  | some rest ↦ true
  | none ↦ false
]

-- The path of some components below a directory. The source keeps the bytes between them as they
-- were, repeated slashes for one, which leads to the same file.
unfoldable pub join_parts : List Bytes → Bytes
join_parts [] = []
join_parts (p ∷ []) = p
join_parts (p ∷ (q ∷ qs)) = p ++ (b'/' ∷ join_parts (q ∷ qs))

abbrev pub last_part : List Bytes → Option Bytes
last_part [] = none
last_part (p ∷ []) = some p
last_part (p ∷ (q ∷ qs)) = last_part (q ∷ qs)

-- A component that names an entry: not the root, not `.` or `..`.
abbrev pub normal_part : Option Bytes → Option Bytes
normal_part none = none
normal_part (some p) =
    if bytes_eq p (b'/' ∷ []) || bytes_eq p (b'.' ∷ []) || bytes_eq p (b'.' ∷ (b'.' ∷ []))
    then none
    else some p

-- `path.file_name()`
unfoldable pub file_name : Bytes → Option Bytes
file_name path = normal_part (last_part (components path))

abbrev pub all_but_last : List Bytes → List Bytes
all_but_last [] = []
all_but_last (p ∷ []) = []
all_but_last (p ∷ (q ∷ qs)) = p ∷ all_but_last (q ∷ qs)

-- The path that has the components.
unfoldable pub path_of : List Bytes → Bytes
path_of [] = []
path_of (p ∷ ps) = if bytes_eq p (b'/' ∷ []) then b'/' ∷ join_parts ps else join_parts (p ∷ ps)

abbrev parent_of : List Bytes → Option Bytes
parent_of [] = none
parent_of (p ∷ []) = if bytes_eq p (b'/' ∷ []) then none else some []
parent_of (p ∷ (q ∷ qs)) = some (path_of (all_but_last (p ∷ (q ∷ qs))))

-- `path.parent()`, by components.
unfoldable pub parent : Bytes → Option Bytes
parent path = parent_of (components path)

-- The definitions of this file, by one name for `unfolding` lines that run them.
unfoldable pub paths_code : Unit {0}
unfolding split strip_prefix position contains_byte keep_parts components parts_eq path_eq path_join
    strip_parts join_parts file_name path_of parent
paths_code = tt
