-- ===== src/Proxy/Handshake/Examples.antt =====
-- Handshakes, as in the tests of handshake.rs.
use claudepod.Prelude.{ℕ, ◌≡◌, ◌⊎◌, refl, true, [], ◌++◌, Bytes, ascii}
use claudepod.Outcome.{err, message}
use claudepod.Outcome.Trace.{Does}
use claudepod.Wire.{le_bytes}
use claudepod.Wire.Copy.{Duplex}
use claudepod.Wire.Format.{word, list_frame}
use claudepod.Wire.Reading.{IsReady, IsReady-all_bytes}
use claudepod.Wire.Moves.{duplex_trace}
use claudepod.Wire.RoundTrip.{stream, empty_sink}
use claudepod.Proxy.Handshake.{
  Negotiated, downstream, version_le, feature_exchange, from_wire, our_version, worker_magic_2,
  upstream, handshake_code,
}
use claudepod.Proxy.Handshake.Guest.{welcome, Exchanged, downstream-Exchanged}
use claudepod.Proxy.Handshake.Legs.{Agreed, hello, features_sent, upstream-Agreed}

abbrev daemon : Bytes → Duplex
daemon bs = record { input = stream bs true; output = empty_sink }

below_floor :
    (upstream (daemon (word worker_magic_2 ++ word 0x122))).0
    ≡ err
        (message (ascii "host daemon protocol version 1.34 is older than the supported floor 1.35"))
unfolding handshake_code
below_floor = refl

abbrev greeting : Bytes
greeting = word worker_magic_2 ++ (word 0x126 ++ word 0)

greeting-IsReady : IsReady (daemon greeting).input
unfolding le_bytes
greeting-IsReady = IsReady-all_bytes (daemon greeting).input refl

upstream-Agreed_example :
    Does duplex_trace upstream
      (daemon greeting)
      (λ n a.
        (v : ℕ) × (rest : Bytes) × (a.taken ≡ word worker_magic_2 ++ (word v ++ rest))
        × Agreed n (from_wire v)
        × (a.put ≡ hello ++ features_sent n.version))
      (λ a. (rest : Bytes) × (a.put ≡ hello ++ rest))
upstream-Agreed_example = upstream-Agreed (daemon greeting) greeting-IsReady

abbrev agreed : Negotiated
agreed = record { version = our_version; features = [] }

abbrev guest : Bytes
guest = word 0x126 ++ word 0

guest-IsReady : IsReady (daemon guest).input
unfolding le_bytes
guest-IsReady = IsReady-all_bytes (daemon guest).input refl

downstream-Exchanged_example :
    Does duplex_trace
      (downstream agreed)
      (daemon guest)
      (λ _ a.
        (v : ℕ) × (taken : Bytes) × (put : Bytes) × (a.taken ≡ word v ++ taken)
        × (a.put ≡ welcome agreed ++ put)
        × (version_le our_version (from_wire v) ≡ true)
        × Exchanged agreed (version_le feature_exchange our_version) taken put)
      (λ a. (a.put ≡ welcome agreed) ⊎ (a.put ≡ welcome agreed ++ list_frame []))
downstream-Exchanged_example = downstream-Exchanged agreed (daemon guest) guest-IsReady
