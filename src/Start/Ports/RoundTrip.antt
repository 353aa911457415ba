-- ===== src/Start/Ports/RoundTrip.antt =====
-- The texts of a port map that claudepod-start hands on are port options of the same ports.
use claudepod.Prelude.{◌⊎◌, ◌≡◌, [], ◌∷◌, ◌++◌, Bytes, ascii}
use claudepod.Start.Ports.{tcp, udp, PortMap, parsed, from_str, port_options}

-- What the network option has for a port: pasta's flag for the protocol, and then its ports.
abbrev pub Spliced : PortMap → Type 0
Spliced p =
    (text : Bytes) × (((p.proto ≡ tcp)
        × (port_options (p ∷ []) ≡ ascii ",-T," ++ text)
        × (from_str text ≡ parsed p))
      ⊎ ((p.proto ≡ udp)
          × (port_options (p ∷ []) ≡ ascii ",-U," ++ text)
          × (from_str (text ++ ascii "/udp") ≡ parsed p)))
