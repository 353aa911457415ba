-- ===== src/Start/Project.antt =====
-- Where src/bin/claudepod-start.rs shows the project directory in the guest.
use claudepod.Prelude.{
  Option, none, some, Bool, true, false, ◌||◌, List, [], ◌∷◌, ◌++◌, Bytes, ascii, if◌then◌else◌,
}
use claudepod.Outcome.{Outcome, ok, err, message, chain}
use claudepod.Paths.{components, strip_parts, starts_with, join_parts, path_join, file_name}
use claudepod.Host.{Vars, required}

unfoldable pub host_home : Vars → Option Bytes
host_home vars = vars (ascii "HOME")

unfoldable pub src_root : Vars → Outcome Bytes
src_root vars =
    chain (required (ascii "HOME is not set") (host_home vars))
      λ home. ok (path_join home (ascii "src"))

abbrev roots_in : Option Bytes → List Bytes
roots_in none = []
roots_in (some home) = path_join home (ascii "projects") ∷ path_join home (ascii "temp") ∷ []

unfoldable pub one_to_one_project_roots : Vars → List Bytes
one_to_one_project_roots vars = roots_in (host_home vars)

-- `roots.iter().any(|root| project_dir.starts_with(root))`
unfoldable pub in_some_root : Bytes → List Bytes → Bool
in_some_root project_dir [] = false
in_some_root project_dir (root ∷ roots) =
    starts_with project_dir root || in_some_root project_dir roots

-- What of the project directory lies below the source root.
unfoldable pub below_src : Bytes → Option Bytes → Option (List Bytes)
below_src project_dir none = none
below_src project_dir (some src_root) = strip_parts (components src_root) (components project_dir)

unfoldable pub guest_home : Bytes → Bytes
guest_home username = ascii "/home/" ++ username

unfoldable pub guest_src : Bytes → Bytes
guest_src username = guest_home username ++ ascii "/src"

abbrev pub below_guest_src : Bytes → List Bytes → Bytes
below_guest_src username [] = guest_src username
below_guest_src username (p ∷ ps) = path_join (guest_src username) (join_parts (p ∷ ps))

unfoldable pub shared_project : Option Bytes → Outcome (Bytes × Bool)
shared_project none = err (message (ascii "project directory has no file name"))
shared_project (some project_name) = ok (path_join (ascii "/projects") project_name, true)

-- By what lies below the source root, if the directory does.
unfoldable pub placed : Bytes → List Bytes → Bytes → Option (List Bytes) → Outcome (Bytes × Bool)
placed project_dir one_to_one_roots username (some rel_path) =
    ok (below_guest_src username rel_path, false)
placed project_dir one_to_one_roots username none =
    if in_some_root project_dir one_to_one_roots
    then ok (project_dir, true)
    else shared_project (file_name project_dir)

-- The guest path, and whether the directory needs a volume of its own.
unfoldable pub guest_project_path :
    Bytes → Option Bytes → List Bytes → Bytes → Outcome (Bytes × Bool)
guest_project_path project_dir src_root one_to_one_roots username =
    placed project_dir one_to_one_roots username (below_src project_dir src_root)

-- The definitions of this file, by one name for `unfolding` lines that run them.
unfoldable pub project_code : Unit {0}
unfolding host_home src_root one_to_one_project_roots in_some_root below_src guest_home guest_src
    shared_project placed guest_project_path
project_code = tt
