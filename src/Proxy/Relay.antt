-- ===== src/Proxy/Relay.antt =====
-- `relay` of src/proxy.rs: a session with the host daemon at the upstream socket behind it.
pub mod Whole
mod Examples
use claudepod.Prelude.{ℕ, ◌+◌, true, Option, [], Bytes, length}
use claudepod.Outcome.{M, LibraryError}
use claudepod.Wire.{Stream}
use claudepod.Proxy.RunRoots.{NixRunRoots}
use claudepod.Proxy.HostClient.{ensure_path}
use claudepod.Proxy.Session.{World, Answer, given, failed, silent, Env}
use claudepod.Proxy.Session.Rounds.{run}

-- What the libraries do for `relay`: the texts of errors, the sizes of reads, and what each connect
-- to the upstream socket comes to, in order, with what the daemon then sends.
pub record Upstream : Type 0 where
  pub texts : LibraryError → Bytes
  pub chunk : ℕ → ℕ
  pub path : Bytes
  pub connections : ℕ → Answer Stream

-- The session's own connection is the first one, and each fill makes one of its own.
unfoldable pub relay_env : Upstream → Option NixRunRoots → Env
relay_env upstream roots = record {
  texts = upstream.texts;
  chunk = upstream.chunk;
  connect = upstream.connections 0;
  nix_run_roots = roots;
  fill = λ before store_path.
      ensure_path upstream.texts upstream.path (upstream.connections (length before + 1))
        store_path;
}

-- The stream of the session's connection to the host daemon, once there is one.
abbrev host_stream : Answer Stream → Stream
host_stream (given s) = s
host_stream (failed e) = record { bytes = []; closed = true }
host_stream silent = record { bytes = []; closed = true }

-- Fresh buffers on both connections.
unfoldable pub guest_accepted : Upstream → Stream → World
guest_accepted upstream guest = record {
  guest_in = guest;
  guest_out = record { sent = []; buffered = [] };
  host_in = host_stream (upstream.connections 0);
  host_out = record { sent = []; buffered = [] };
  dials = 0;
  fills = [];
  warnings = [];
}

unfoldable pub relay : Upstream → Option NixRunRoots → M World (Unit {0})
relay upstream roots = run (relay_env upstream roots)
