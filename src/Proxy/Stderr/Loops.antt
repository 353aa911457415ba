-- ===== src/Proxy/Stderr/Loops.antt =====
-- The loops of stderr.rs, on fuel. A message takes eight bytes at least, so a loop with more fuel
-- than the stream has bytes always ends by a message, an error or a wait.
use claudepod.Utf8.{utf8_code}
use claudepod.Proxy.Stderr.{stderr_message_code}
use claudepod.Prelude.{
  ℕ, zero, suc, Option, none, some, Bool, true, false, List, [], ◌∷◌, ◌++◌, map, Bytes, ascii,
  hexadecimal, length, ◌==◌, if◌then◌else◌,
}
use claudepod.Outcome.{M, message, pure, fail, no_fuel, ◌>>=◌, ◌>>◌}
use claudepod.Wire.{Stream, write_u64, write_string, flush}
use claudepod.Wire.Copy.{Duplex, reading, writing}
use claudepod.Utf8.{from_utf8_lossy, trim_end}
use claudepod.Proxy.Stderr.{
  Terminal, Drained, Field, int, string, ErrorPayload, Message, next, start_activity, stop_activity,
  result, streaming, unknown, read_message, write_error, write_error_payload, write_fields,
  stderr_last, stderr_error, stderr_next, stderr_start_activity, stderr_stop_activity,
  stderr_result,
}

-- An error of the host daemon's protocol is told to the guest, and ends the relay.
unfoldable pub violation : Bytes → M Duplex (Option Terminal)
violation err = do writing (write_error err); fail (message err)

-- What the relay does with one message; `none` goes on with the next one.
unfoldable pub forward : Bool → Message → M Duplex (Option Terminal)
forward forward_last Message.last =
    (if forward_last then writing (write_u64 stderr_last) else pure tt) >> pure (some Terminal.last)
forward forward_last (Message.error e) = do
  writing (write_u64 stderr_error)
  writing (write_error_payload e)
  pure (some Terminal.error)
forward forward_last (next text) = do
  writing (write_u64 stderr_next)
  writing (write_string text)
  writing flush
  pure none
forward forward_last (start_activity id verbosity activity_type text fields parent) = do
  writing (write_u64 stderr_start_activity)
  writing (write_u64 id)
  writing (write_u64 verbosity)
  writing (write_u64 activity_type)
  writing (write_string text)
  writing (write_fields fields)
  writing (write_u64 parent)
  writing flush
  pure none
forward forward_last (stop_activity id) = do
  writing (write_u64 stderr_stop_activity)
  writing (write_u64 id)
  writing flush
  pure none
forward forward_last (result id result_type fields) = do
  writing (write_u64 stderr_result)
  writing (write_u64 id)
  writing (write_u64 result_type)
  writing (write_fields fields)
  writing flush
  pure none
forward forward_last (streaming msg) = violation (
    ascii "host daemon sent streaming stderr message "
    ++ (hexadecimal msg ++ ascii " during a query op"))
forward forward_last (unknown msg) =
    violation (ascii "unknown stderr message " ++ (hexadecimal msg ++ ascii " from host daemon"))

unfoldable pub relay_loop : Bool → ℕ → M Duplex Terminal
relay_loop forward_last zero = no_fuel
relay_loop forward_last (suc fuel) = reading read_message >>= λ m. forward forward_last m >>= λ t.
    elim t [ none ↦ relay_loop forward_last fuel | some terminal ↦ pure terminal ]

unfoldable pub relay_inner : Bool → M Duplex Terminal
relay_inner forward_last d = relay_loop forward_last (suc (length d.input.bytes)) d

unfoldable pub relay : M Duplex Terminal
relay = relay_inner true

unfoldable pub relay_without_last : M Duplex Terminal
relay_without_last = relay_inner false

-- `text`, and `push_log`, `push_field_logs` and `.join(" | ")`
unfoldable pub push_log : List Bytes → Bytes → List Bytes
push_log logs raw =
    let text = trim_end (from_utf8_lossy raw) in
    if length text == 0 then logs else logs ++ (text ∷ [])

unfoldable pub push_field_logs : List Bytes → List Field → List Bytes
push_field_logs logs [] = logs
push_field_logs logs (int value ∷ fields) = push_field_logs logs fields
push_field_logs logs (string raw ∷ fields) = push_field_logs (push_log logs raw) fields

unfoldable pub join_bars : List Bytes → Bytes
join_bars [] = []
join_bars (x ∷ []) = x
join_bars (x ∷ (y ∷ ys)) = x ++ (ascii " | " ++ join_bars (y ∷ ys))

unfoldable pub daemon_message : ErrorPayload → Bytes
daemon_message e =
    let head = ascii "host daemon error: " ++ from_utf8_lossy e.text in
    if length e.traces == 0
    then head
    else head ++ (ascii "; traces: " ++ join_bars (map from_utf8_lossy e.traces))

-- The text of a drained error: the daemon's message, and the log lines before it.
unfoldable pub drained_text : List Bytes → ErrorPayload → Bytes
drained_text logs e =
    if length logs == 0
    then daemon_message e
    else daemon_message e ++ (ascii "; logs: " ++ join_bars logs)

-- What draining does with one message: an end, or the log lines so far.
pub data Drain : Type 0 where
  done : Drained → Drain
  more : List Bytes → Drain

unfoldable pub absorb : List Bytes → Message → M Stream Drain
absorb logs Message.last = pure (done Drained.last)
absorb logs (Message.error e) = pure (done (Drained.error (drained_text logs e)))
absorb logs (next text) = pure (more (push_log logs text))
absorb logs (start_activity id verbosity activity_type text fields parent) =
    pure (more (push_field_logs (push_log logs text) fields))
absorb logs (stop_activity id) = pure (more logs)
absorb logs (result id result_type fields) = pure (more (push_field_logs logs fields))
absorb logs (streaming msg) = fail (
    message (
      ascii "host daemon sent streaming stderr message "
      ++ (hexadecimal msg ++ ascii " during proxy-owned op")))
absorb logs (unknown msg) =
    fail
      (message (ascii "unknown stderr message " ++ (hexadecimal msg ++ ascii " from host daemon")))

unfoldable pub drain_loop : ℕ → List Bytes → M Stream Drained
drain_loop zero logs = no_fuel
drain_loop (suc fuel) logs = read_message >>= λ m.
    absorb logs m >>= λ r. elim r [ done d ↦ pure d | more logs' ↦ drain_loop fuel logs' ]

unfoldable pub drain_to_terminal : M Stream Drained
drain_to_terminal s = drain_loop (suc (length s.bytes)) [] s

-- `drain_to_last`: a drained error becomes an error of the proxy.
unfoldable pub drained_result : Drained → M Stream (Unit {0})
drained_result Drained.last = pure tt
drained_result (Drained.error text) = fail (message text)

unfoldable pub drain_to_last : M Stream (Unit {0})
drain_to_last = do d ← drain_to_terminal; drained_result d

-- The definitions of this file, by one name for `unfolding` lines that run them.
unfoldable pub stderr_code : Unit {0}
unfolding stderr_message_code utf8_code hexadecimal violation forward relay_loop relay_inner relay
    relay_without_last push_log push_field_logs join_bars daemon_message drained_text absorb
    drain_loop drain_to_terminal drained_result drain_to_last
stderr_code = tt
