-- ===== src/StoreLayers/Examples.antt =====
-- Layer lists, as in the tests of store_layers.rs.
use claudepod.Prelude.{◌≡◌, refl, true, List, [], ◌∷◌, Bytes, ascii, All}
use claudepod.Outcome.{ok, err, message}
use claudepod.Paths.{is_rooted, paths_code}
use claudepod.StoreLayers.{join, parse, check_layer, check_layers}
use claudepod.StoreLayers.RoundTrip.{parse-join, join-parse}

abbrev two : List Bytes
two = ascii "/nix/.l/1" ∷ []

abbrev top : Bytes
top = ascii "/nix/.l/0"

empty_layer :
    parse (ascii "/nix/.l/0::/nix/.l/1")
    ≡ err (message (ascii "store layer list contains an empty layer"))
unfolding ascii paths_code parse check_layers check_layer
empty_layer = refl

parse-join_example : parse (join (top ∷ two)) ≡ ok (top ∷ two)
unfolding ascii paths_code
parse-join_example = parse-join top two ((refl, refl), ((refl, refl), tt))

join-parse_example :
    (join (top ∷ two) ≡ ascii "/nix/.l/0:/nix/.l/1")
    × All (λ (p : Bytes). is_rooted p ≡ true) (top ∷ two)
unfolding ascii paths_code parse check_layers check_layer
join-parse_example = join-parse (ascii "/nix/.l/0:/nix/.l/1") (top ∷ two) refl
