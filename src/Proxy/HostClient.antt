-- ===== src/Proxy/HostClient.antt =====
-- src/proxy/host_client.rs: `EnsurePath` on a connection of the proxy's own.
pub mod Requests
pub mod Ending
mod Examples
use claudepod.StorePath.{store_path_code}
use claudepod.Proxy.Stderr.Loops.{stderr_code}
use claudepod.Proxy.Handshake.{handshake_code}
use claudepod.Prelude.{ℕ, [], ◌++◌, Bytes, ascii, decimal, ◌==◌}
use claudepod.Outcome.{
  M, LibraryError, message, context, Outcome, ok, err, pending, out_of_fuel, fail, ensure, rescue,
  render, with_context, ◌>>=◌, ◌>>◌,
}
use claudepod.Proxy.Session.{Answer, given, failed, silent}
use claudepod.Wire.{Stream, read_u64, read_string, write_u64, write_string, flush, max_host_string}
use claudepod.Wire.Copy.{Duplex, reading, writing}
use claudepod.Utf8.{from_utf8_lossy}
use claudepod.StorePath.{validate_direct}
use claudepod.Proxy.Handshake.{upstream}
use claudepod.Proxy.Stderr.Loops.{drain_to_last}

abbrev pub op_ensure_path : ℕ
op_ensure_path = 10

-- A result with no state of its own, inside an operation.
unfoldable pub lift : {A : Type 0} → Outcome A → M Duplex A
lift r d = (r, d)

-- The daemon's answer to the handshake: its version, the trusted flag, the greeting.
unfoldable pub read_greeting : M Duplex (Unit {0})
read_greeting = do
  with_context (ascii "daemon version") (reading (read_string max_host_string))
  with_context (ascii "daemon trusted flag") (reading read_u64)
  with_context (ascii "daemon greeting") (reading drain_to_last)

unfoldable pub ensure_path_on_connection : (LibraryError → Bytes) → Bytes → M Duplex (Unit {0})
ensure_path_on_connection texts store_path = do
  with_context (ascii "EnsurePath target " ++ from_utf8_lossy store_path)
      (lift (validate_direct store_path))
  with_context (ascii "host daemon handshake") upstream
  writing (write_u64 0)
  writing (write_u64 0)
  writing flush
  read_greeting
  writing (write_u64 op_ensure_path)
  writing (write_string store_path)
  writing flush
  rescue (reading drain_to_last)
      (λ e. fail (message (ascii "EnsurePath stderr: " ++ render texts e)))
  success ← with_context (ascii "EnsurePath result") (reading read_u64)
  ensure (success == 1) (ascii "EnsurePath returned unexpected success word " ++ decimal success)

-- What a call comes to for its caller. The loops have fuel enough, so that `out_of_fuel` is not met.
abbrev pub answer_of : {A : Type 0} → Outcome A → Answer A
answer_of (ok x) = given x
answer_of (err e) = failed e
answer_of pending = silent
answer_of out_of_fuel = silent

-- `connection` is what `UnixStream::connect(upstream)` comes to, and what the daemon then sends.
unfoldable pub ensure_path :
    (LibraryError → Bytes) → Bytes → Answer Stream → Bytes → Answer (Unit {0})
ensure_path texts upstream_path connection store_path = elim connection [
  | given s ↦
      answer_of
        (ensure_path_on_connection texts store_path
          (record { input = s; output = record { sent = []; buffered = [] } })).0
  | failed e ↦ failed (context (ascii "connect host daemon " ++ from_utf8_lossy upstream_path) e)
  | silent ↦ silent
]

-- The definitions of this file, by one name for `unfolding` lines that run them.
unfoldable pub host_client_code : Unit {0}
unfolding handshake_code stderr_code store_path_code rescue render with_context lift read_greeting
    ensure_path_on_connection ensure_path
host_client_code = tt
