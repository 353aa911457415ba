-- ===== src/Proxy/Relay/Examples.antt =====
-- A relayed guest that asks for a path of the manifest, which a second connection then fills.
use claudepod.Prelude.{
  ◌≡◌, refl, ℕ, zero, suc, true, some, [], ◌∷◌, ◌++◌, Bytes, ascii, bytes_eq, All,
}
use claudepod.Outcome.{ok}
use claudepod.Outcome.Laws.{Concluded}
use claudepod.Wire.{Stream, le_bytes}
use claudepod.Wire.Format.{word, string_frame}
use claudepod.Wire.Reading.{IsReady, IsReady-all_bytes}
use claudepod.Paths.{split}
use claudepod.Proxy.Handshake.{worker_magic_1, worker_magic_2}
use claudepod.Proxy.RunRoots.{NixRunRoots, run_roots_code}
use claudepod.Proxy.RunRoots.Members.{Listed}
use claudepod.Proxy.Stderr.{stderr_last}
use claudepod.Proxy.HostClient.{host_client_code}
use claudepod.Proxy.HostClient.Ending.{Reachable}
use claudepod.Proxy.Session.{Answer, given}
use claudepod.Proxy.Session.Rounds.{session_code}
use claudepod.Proxy.Relay.{Upstream, relay_env, guest_accepted, relay}
use claudepod.Proxy.Relay.Whole.{relay-Concluded, relay-Listed}

abbrev store_path : Bytes
store_path = ascii "/nix/store/aaa111-one"

-- What a daemon sends up to its greeting.
abbrev greeting : Bytes
greeting =
    word worker_magic_2
    ++ (word 0x126 ++ (word 0 ++ (string_frame (ascii "2.34.7") ++ (word 2 ++ word stderr_last))))

-- The first connection knows the path only when it is asked again.
abbrev session_host : Stream
session_host = record {
  bytes = greeting ++ (word stderr_last ++ (word 0 ++ (word stderr_last ++ word 1)));
  closed = true;
}

abbrev filling_host : Stream
filling_host = record { bytes = greeting ++ (word stderr_last ++ word 1); closed = true }

abbrev daemons : ℕ → Answer Stream
daemons zero = given session_host
daemons (suc k) = given filling_host

abbrev upstream : Upstream
upstream = record {
  texts = λ _. [];
  chunk = λ n. 3;
  path = ascii "/nix/var/nix/daemon-socket/socket";
  connections = daemons;
}

abbrev guest : Stream
guest = record {
  bytes =
      word worker_magic_1
      ++ (word 0x126 ++ (word 0 ++ (word 0 ++ (word 0 ++ (word 1 ++ string_frame store_path)))));
  closed = true;
}

abbrev roots : NixRunRoots
roots = record { paths = store_path ∷ [] }

filled :
    let r = relay upstream (some roots) (guest_accepted upstream guest) in
    (r.0 ≡ ok tt) × (r.1.fills ≡ store_path ∷ []) × (r.1.warnings ≡ [])
unfolding session_code host_client_code relay relay_env guest_accepted string_frame bytes_eq
filled = (refl, refl, refl)

guest-IsReady : IsReady guest
unfolding le_bytes ascii string_frame
guest-IsReady = IsReady-all_bytes guest refl

daemons-Reachable : (k : ℕ) → Reachable (daemons k)
unfolding le_bytes ascii string_frame
daemons-Reachable zero = (IsReady-all_bytes session_host refl, refl)
daemons-Reachable (suc k) = (IsReady-all_bytes filling_host refl, refl)

relay-Concluded_example : Concluded (relay upstream (some roots) (guest_accepted upstream guest)).0
relay-Concluded_example =
    relay-Concluded upstream (some roots) guest guest-IsReady refl daemons-Reachable

relay-Listed_example :
    All
      (λ (path : Bytes). Listed path (split 10 (store_path ++ ascii "\n")))
      (relay upstream (some roots) (guest_accepted upstream guest)).1.fills
unfolding run_roots_code bytes_eq
relay-Listed_example =
    relay-Listed upstream (store_path ++ ascii "\n") roots guest guest-IsReady (daemons-Reachable 0)
      refl
