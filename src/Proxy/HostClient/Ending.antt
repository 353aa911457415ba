-- ===== src/Proxy/HostClient/Ending.antt =====
-- `ensure_path` of host_client.rs comes to an answer where the host daemon hangs up in the end.
use claudepod.Prelude.{[], Bytes}
use claudepod.Outcome.{LibraryError, Outcome, ok, err, pending, out_of_fuel}
use claudepod.Outcome.Laws.{Concluded}
use claudepod.Outcome.Ending.{Ended, Ends, end_rules}
use claudepod.Wire.{Stream}
use claudepod.Wire.Copy.{Duplex}
use claudepod.Wire.Reading.{IsReady}
use claudepod.Wire.Ending.{Hung, HungInput, wire_ends}
use claudepod.StorePath.{validate_direct}
use claudepod.StorePath.Accepted.{validate_direct-Concluded}
use claudepod.Proxy.Handshake.Ending.{Ends-upstream}
use claudepod.Proxy.Stderr.{Drained}
use claudepod.Proxy.Stderr.Loops.{drained_result, drain_to_last}
use claudepod.Proxy.Stderr.Ending.{Ends-drain_to_terminal}
use claudepod.Proxy.Session.{Answer, given, failed, silent}
use claudepod.Proxy.Session.Conclusion.{concluded}
use claudepod.Proxy.Session.Ending.{Answered}
use claudepod.Proxy.HostClient.{
  lift, read_greeting, ensure_path_on_connection, answer_of, ensure_path,
}
use claudepod.Proxy.HostClient.Requests.{ensure_path_on_connection-request}

Ends-drained_result : (d : Drained) → Ends Hung (drained_result d)
unfolding drained_result
Ends-drained_result Drained.last = search end_rules
Ends-drained_result (Drained.error text) = search end_rules

Ends-drain_to_last : Ends Hung drain_to_last
unfolding drain_to_last
Ends-drain_to_last = search (end_rules, Ends-drain_to_terminal, Ends-drained_result)

Ends-lift : (path : Bytes) → Ends HungInput (lift (validate_direct path))
unfolding lift
Ends-lift path = record {
  at = λ d h. (go (validate_direct path) (validate_direct-Concluded path), h);
}
  where
    go : (r : Outcome (Unit {0})) → Concluded r → Ended r
    go (ok x) h = tt
    go (err e) h = tt
    go pending h = h
    go out_of_fuel h = tt

Ends-read_greeting : Ends HungInput read_greeting
unfolding read_greeting
Ends-read_greeting = search (wire_ends, Ends-drain_to_last) depth 12

Ends-ensure_path_on_connection :
    (texts : LibraryError → Bytes) (path : Bytes)
    → Ends HungInput (ensure_path_on_connection texts path)
unfolding ensure_path_on_connection
Ends-ensure_path_on_connection texts path =
    search (wire_ends, Ends-lift, Ends-upstream, Ends-read_greeting, Ends-drain_to_last) depth 30
      fits 4000

-- A connection that is answered, if by a daemon then by one that sends bytes and hangs up in the end.
abbrev pub Reachable : Answer Stream → Type 0
Reachable (given s) = IsReady s × Hung s
Reachable (failed e) = Unit {0}
Reachable silent = ⊥

pub ensure_path-Answered :
    (texts : LibraryError → Bytes) (upstream_path : Bytes) (c : Answer Stream) (path : Bytes)
    → Reachable c
    → Answered (ensure_path texts upstream_path c path)
unfolding ensure_path
ensure_path-Answered texts upstream_path (given s) path h =
    let d = ensure_path_on_connection-request texts path (fresh s) h.0 in
    known (ensure_path_on_connection texts path (fresh s)).0 (
      concluded _ _ (ensure_path_on_connection texts path (fresh s)).0 d.log d.post
        ((Ends-ensure_path_on_connection texts path).at (fresh s) h.1).0)
  where
    fresh : Stream → Duplex
    fresh s = record { input = s; output = record { sent = []; buffered = [] } }

    known : (r : Outcome (Unit {0})) → Concluded r → Answered (answer_of r)
    known (ok x) k = tt
    known (err e) k = tt
    known pending k = k
    known out_of_fuel k = k
ensure_path-Answered texts upstream_path (failed e) path h = tt
ensure_path-Answered texts upstream_path silent path h = h
