-- ===== src/Proxy/Relay/Whole.antt =====
-- A session as the proxy runs it, with nothing assumed but what its peers send.
use claudepod.Prelude.{◌≡◌, refl, ◌+◌, ℕ, Option, some, true, List, [], ◌∷◌, Bytes, length, All}
use claudepod.Outcome.{ok}
use claudepod.Outcome.Laws.{Concluded}
use claudepod.Wire.{Stream}
use claudepod.Wire.Reading.{IsReady}
use claudepod.Wire.Writing.{written}
use claudepod.Wire.Ending.{Hung}
use claudepod.Paths.{split}
use claudepod.Proxy.RunRoots.{NixRunRoots, contains, parse_manifest}
use claudepod.Proxy.RunRoots.Members.{Listed, contains-parse_manifest}
use claudepod.Proxy.HostClient.Ending.{Reachable, ensure_path-Answered}
use claudepod.Proxy.Session.{Answer, given, failed, silent}
use claudepod.Proxy.Session.Rounds.{fillable}
use claudepod.Proxy.Session.Traffic.{still_in}
use claudepod.Proxy.Session.Opening.{Fresh}
use claudepod.Proxy.Session.Ending.{Dialled}
use claudepod.Proxy.Session.Conclusion.{run-Concluded}
use claudepod.Proxy.Session.Fills.{run-Fillable}
use claudepod.Proxy.Relay.{Upstream, relay_env, host_stream, guest_accepted, relay}

-- The host daemon's part of the first connection.
Reachable-host :
    (c : Answer Stream) → Reachable c → IsReady (host_stream c) × Hung (host_stream c) × Dialled c
Reachable-host (given s) h = (h.0, h.1, h.1)
Reachable-host (failed e) h = (tt, refl, tt)
Reachable-host silent h = absurd h

guest_accepted-Fresh :
    (upstream : Upstream) (guest : Stream)
    → Fresh (upstream.connections 0) (guest_accepted upstream guest)
unfolding guest_accepted written
guest_accepted-Fresh upstream guest = go (upstream.connections 0)
  where
    go :
        (c : Answer Stream)
        → Fresh c (record (guest_accepted upstream guest) { host_in = host_stream c })
    go (given s) = (still_in s, refl)
    go (failed e) = tt
    go silent = tt

-- A guest sends bytes and hangs up, and each connection to the host daemon is answered: by an error,
-- or by a daemon that sends bytes and hangs up in the end. Then the relay of the guest ends with a
-- success or an error, fills included.
pub relay-Concluded :
    (upstream : Upstream) (roots : Option NixRunRoots) (guest : Stream)
    → IsReady guest
    → Hung guest
    → ((k : ℕ) → Reachable (upstream.connections k))
    → Concluded (relay upstream roots (guest_accepted upstream guest)).0
unfolding relay relay_env guest_accepted
relay-Concluded upstream roots guest r h reachable =
    let (ready, hung, dialled) = Reachable-host (upstream.connections 0) (reachable 0) in
    run-Concluded (relay_env upstream roots) (guest_accepted upstream guest) (r, ready)
      (guest_accepted-Fresh upstream guest) (h, hung) dialled
      λ before path.
        ensure_path-Answered upstream.texts upstream.path _ path (reachable (length before + 1))

All-map :
    {A : Type 0} (P Q : A → Type 0) (xs : List A) → ((x : A) → P x → Q x) → All P xs → All Q xs
All-map P Q [] f h = tt
All-map P Q (x ∷ xs) f h = (f x h.0, All-map P Q xs f h.1)

-- Where the guest sends bytes and the session's connection to the host daemon is answered as above,
-- the relay of a guest under a manifest that parses asks, whatever comes of it, only for fills of paths
-- that are equal to a line of the manifest, where that line is a direct store path.
pub relay-Listed :
    (upstream : Upstream) (raw : Bytes) (roots : NixRunRoots) (guest : Stream)
    → IsReady guest
    → Reachable (upstream.connections 0)
    → parse_manifest raw ≡ ok roots
    → All
        (λ (path : Bytes). Listed path (split 10 raw))
        (relay upstream (some roots) (guest_accepted upstream guest)).1.fills
unfolding relay relay_env guest_accepted fillable
relay-Listed upstream raw roots guest r reachable parsed =
    All-map (λ (path : Bytes). contains roots path ≡ true) _ _
      (λ path k. (contains-parse_manifest raw path roots parsed).0 k)
      (run-Fillable (relay_env upstream (some roots)) (guest_accepted upstream guest)
        (r, (Reachable-host (upstream.connections 0) reachable).0)
        (guest_accepted-Fresh upstream guest) refl)
