-- ===== src/Proxy/Session.antt =====
-- src/proxy/session.rs: one guest connection relayed to one host daemon connection.
-- Rounds has the op loop and the interception of `IsValidPath`.
pub mod Rounds
pub mod Dialling
pub mod Traffic
pub mod Halves
pub mod Mirrored
pub mod Mirrors
pub mod Recheck
pub mod Interception
pub mod Answers
pub mod Arguments
pub mod Decision
pub mod Serving
pub mod Loop
pub mod Pairs
pub mod Greeting
pub mod Opening
pub mod Whole
pub mod Waits
pub mod Ending
pub mod Conclusion
pub mod Delivery
pub mod Turns
pub mod Delivered
pub mod Fills
mod Examples
use claudepod.Proxy.Stderr.Loops.{stderr_code}
use claudepod.Proxy.Handshake.{handshake_code}
use claudepod.Prelude.{
  ℕ, Bool, true, false, not, Option, none, some, List, [], ◌∷◌, ◌++◌, Bytes, ascii, ◌+◌, ◌==◌,
  if◌then◌else◌,
}
use claudepod.Outcome.{
  M, LibraryError, Error, context, Outcome, ok, err, pending, out_of_fuel, pure, fail, zoom, rescue,
  render, within, with_context, ◌>>=◌, ◌>>◌,
}
use claudepod.Wire.{Stream, Sink, flush, max_host_string}
use claudepod.Wire.Copy.{Duplex, copy_u64, copy_string}
use claudepod.Proxy.Handshake.{Negotiated, guest_magic, upstream, downstream}
use claudepod.Proxy.RunRoots.{NixRunRoots}
use claudepod.Proxy.Stderr.Loops.{relay}

-- What a call of the caller's code comes to: a value, an error, or a wait without end.
pub data Answer (A : Type 0) : Type 0 where
  given : A → Answer A
  failed : Error → Answer A
  silent : Answer A

-- The four halves of the two connections, and what the session asked of its caller: the dials of
-- the host daemon, the paths it had filled, the warnings.
pub record World : Type 0 where
  pub guest_in : Stream
  pub guest_out : Sink
  pub host_in : Stream
  pub host_out : Sink
  pub dials : ℕ
  pub fills : List Bytes
  pub warnings : List Bytes

-- The arguments of `run`, and the libraries' part in it. `chunk` is how much a read offers at each
-- fill level, `connect` what dialling comes to and what the host daemon then sends, `fill` the
-- result of a fill after the fills before it.
pub record Env : Type 0 where
  pub texts : LibraryError → Bytes
  pub chunk : ℕ → ℕ
  pub connect : Answer Stream
  pub nix_run_roots : Option NixRunRoots
  pub fill : List Bytes → Bytes → Answer (Unit {0})

abbrev pub handshake_timeout : ℕ
handshake_timeout = 60

abbrev pub args_timeout : ℕ
args_timeout = 60

-- The pairs of halves that an operation works on.
module _ {A : Type 0} where
  unfoldable pub from_guest : M Stream A → M World A
  from_guest = zoom (λ w. w.guest_in) (λ s w. record w { guest_in = s })

  unfoldable pub from_host : M Stream A → M World A
  from_host = zoom (λ w. w.host_in) (λ s w. record w { host_in = s })

  unfoldable pub to_guest : M Sink A → M World A
  to_guest = zoom (λ w. w.guest_out) (λ k w. record w { guest_out = k })

  unfoldable pub to_host : M Sink A → M World A
  to_host = zoom (λ w. w.host_out) (λ k w. record w { host_out = k })

  unfoldable pub guest_to_host : M Duplex A → M World A
  guest_to_host =
      zoom (λ w. record { input = w.guest_in; output = w.host_out })
        (λ d w. record w { guest_in = d.input; host_out = d.output })

  unfoldable pub host_to_guest : M Duplex A → M World A
  host_to_guest =
      zoom (λ w. record { input = w.host_in; output = w.guest_out })
        (λ d w. record w { host_in = d.input; guest_out = d.output })

  unfoldable pub with_guest : M Duplex A → M World A
  with_guest =
      zoom (λ w. record { input = w.guest_in; output = w.guest_out })
        (λ d w. record w { guest_in = d.input; guest_out = d.output })

  unfoldable pub with_host : M Duplex A → M World A
  with_host =
      zoom (λ w. record { input = w.host_in; output = w.host_out })
        (λ d w. record w { host_in = d.input; host_out = d.output })

  -- `tokio::io::sink()` as the destination: what is written there is gone.
  unfoldable pub guest_to_nowhere : M Duplex A → M World A
  guest_to_nowhere =
      zoom (λ w. record { input = w.guest_in; output = record { sent = []; buffered = [] } })
        (λ d w. record w { guest_in = d.input })

-- `connect().await`, with fresh buffers on the new connection.
unfoldable pub dial : Env → M World (Unit {0})
dial env w = elim env.connect [
  | given s ↦ (
    ok tt,
    record w { host_in = s; host_out = record { sent = []; buffered = [] }; dials = w.dials + 1 },
  )
  | failed e ↦ (err e, record w { dials = w.dials + 1 })
  | silent ↦ (pending, record w { dials = w.dials + 1 })
]

-- The client's fields after the handshake: a CPU affinity, if any, and reserveSpace.
unfoldable pub copy_post_handshake : M Duplex ℕ
copy_post_handshake = do
  affinity ← copy_u64
  if not (affinity == 0) then (copy_u64 >> pure tt) else pure tt
  copy_u64

-- The daemon's version, its trusted flag and its greeting.
unfoldable pub relay_greeting : M Duplex (Unit {0})
relay_greeting = do
  copy_string max_host_string
  copy_u64
  with_context (ascii "greeting") relay
  pure tt

-- `run` up to the op loop.
unfoldable pub establish : Env → M World Negotiated
establish env = do
  with_context (ascii "guest handshake") (within handshake_timeout (from_guest guest_magic))
  with_context (ascii "dial host daemon") (dial env)
  negotiated ← with_context (ascii "host daemon handshake") (with_host upstream)
  with_context (ascii "guest handshake")
      (within handshake_timeout (with_guest (downstream negotiated)))
  with_context (ascii "guest post-handshake")
      (within handshake_timeout (guest_to_host copy_post_handshake))
  to_host flush
  host_to_guest relay_greeting
  to_guest flush
  pure negotiated

-- The definitions of this file, by one name for `unfolding` lines that run them.
unfoldable pub establish_code : Unit {0}
unfolding handshake_code stderr_code rescue within with_context render zoom from_guest from_host
    to_guest to_host guest_to_host host_to_guest with_guest with_host guest_to_nowhere dial
    copy_post_handshake relay_greeting establish
establish_code = tt
