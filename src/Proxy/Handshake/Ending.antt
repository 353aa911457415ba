-- ===== src/Proxy/Handshake/Ending.antt =====
-- Both legs of the handshake never wait for a peer that has hung up.
use claudepod.Prelude.{List, [], ◌∷◌, Bytes}
use claudepod.Outcome.Ending.{Ends, Ends-bind, Ends-ensure, end_rules}
use claudepod.Wire.Ending.{Hung, HungInput, wire_ends}
use claudepod.Proxy.Handshake.{
  Version, Negotiated, utf8_feature, collect_features, read_features, exchange_upstream, settle,
  read_answer, upstream, guest_magic, require_features, exchange_downstream, downstream,
}

Ends-utf8_feature : (f : Bytes) → Ends Hung (utf8_feature f)
unfolding utf8_feature
Ends-utf8_feature f = search end_rules

Ends-collect_features : (items set : List Bytes) → Ends Hung (collect_features set items)
unfolding collect_features
Ends-collect_features [] set = search end_rules
Ends-collect_features (f ∷ fs) set =
    Ends-bind _ _ (Ends-utf8_feature f) λ f'. Ends-collect_features fs _

Ends-read_features : Ends Hung read_features
unfolding read_features
Ends-read_features = search (wire_ends, Ends-collect_features)

Ends-exchange_upstream : Ends HungInput exchange_upstream
unfolding exchange_upstream
Ends-exchange_upstream = search (wire_ends, Ends-read_features) depth 12

Ends-settle : (daemon : Version) → Ends HungInput (settle daemon)
unfolding settle
Ends-settle daemon = search (wire_ends, Ends-exchange_upstream) depth 12

Ends-read_answer : Ends HungInput read_answer
unfolding read_answer
Ends-read_answer = search (wire_ends, Ends-settle) depth 12

pub Ends-upstream : Ends HungInput upstream
unfolding upstream
Ends-upstream = search (wire_ends, Ends-read_answer) depth 12

pub Ends-guest_magic : Ends Hung guest_magic
unfolding guest_magic
Ends-guest_magic = search wire_ends

Ends-require_features : (theirs fs : List Bytes) → Ends HungInput (require_features theirs fs)
unfolding require_features
Ends-require_features theirs [] = search end_rules
Ends-require_features theirs (f ∷ fs) =
    Ends-bind _ _ (Ends-ensure _ _) λ _. Ends-require_features theirs fs

Ends-exchange_downstream : (n : Negotiated) → Ends HungInput (exchange_downstream n)
unfolding exchange_downstream
Ends-exchange_downstream n = search (wire_ends, Ends-read_features, Ends-require_features) depth 12

pub Ends-downstream : (n : Negotiated) → Ends HungInput (downstream n)
unfolding downstream
Ends-downstream n = search (wire_ends, Ends-exchange_downstream) depth 16 fits 2000
