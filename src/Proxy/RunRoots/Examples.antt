-- ===== src/Proxy/RunRoots/Examples.antt =====
-- Manifests, as in the tests of run_roots.rs.
use claudepod.Prelude.{◌≡◌, ◌↔◌, refl, true, [], ◌∷◌, ◌++◌, Bytes, ascii, bytes_eq}
use claudepod.Outcome.{err, message}
use claudepod.Paths.{split}
use claudepod.Proxy.RunRoots.{NixRunRoots, contains, parse_manifest, run_roots_code}
use claudepod.Proxy.RunRoots.Members.{Listed, contains-parse_manifest}

abbrev one : Bytes
one = ascii "/nix/store/aaa111-one"

blank_refused :
    parse_manifest (ascii "\n/nix/store/aaa111-one\n") ≡ err (message (ascii "blank line 1"))
unfolding run_roots_code bytes_eq
blank_refused = refl

abbrev roots : NixRunRoots
roots = record { paths = one ∷ [] }

contains-parse_manifest_example :
    (contains roots (ascii "/nix/store//aaa111-one/") ≡ true)
    ↔ Listed (ascii "/nix/store//aaa111-one/") (split 10 (one ++ ascii "\n"))
unfolding run_roots_code bytes_eq
contains-parse_manifest_example =
    contains-parse_manifest (one ++ ascii "\n") (ascii "/nix/store//aaa111-one/") roots refl
