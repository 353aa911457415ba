-- ===== src/Proxy/Stderr.antt =====
-- src/proxy/stderr.rs: the daemon-to-client message loop, relayed or drained.
pub mod Loops
pub mod Frames
pub mod Forward
pub mod Messages
pub mod Payloads
pub mod Reading
pub mod Relay
pub mod Drain
pub mod Ending
mod Examples
use claudepod.Wire.Copy.{copy_code}
use claudepod.Prelude.{
  ℕ, zero, suc, ◌+◌, Option, none, some, Bool, true, false, not, ◌||◌, List, [], ◌∷◌, ◌++◌, map,
  Bytes, ascii, decimal, hexadecimal, length, leb, ◌==◌, if◌then◌else◌,
}
use claudepod.Outcome.{M, message, pure, fail, no_fuel, ensure, ◌>>=◌, ◌>>◌}
use claudepod.Wire.{
  Stream, Sink, read_u64, read_string, write_u64, write_string, flush, max_host_string, max_count,
}
use claudepod.Wire.Copy.{Duplex, reading, writing}
use claudepod.Utf8.{from_utf8_lossy, trim_end}

abbrev pub stderr_next : ℕ
stderr_next = 0x6f6c6d67

abbrev pub stderr_read : ℕ
stderr_read = 0x64617461

abbrev pub stderr_write : ℕ
stderr_write = 0x64617416

abbrev pub stderr_last : ℕ
stderr_last = 0x616c7473

abbrev pub stderr_error : ℕ
stderr_error = 0x63787470

abbrev pub stderr_start_activity : ℕ
stderr_start_activity = 0x53545254

abbrev pub stderr_stop_activity : ℕ
stderr_stop_activity = 0x53544f50

abbrev pub stderr_result : ℕ
stderr_result = 0x52534c54

pub data Terminal : Type 0 where
  last error : Terminal

pub data Drained : Type 0 where
  last : Drained
  error : Bytes → Drained

pub data Field : Type 0 where
  int : ℕ → Field
  string : Bytes → Field

pub record ErrorPayload : Type 0 where
  pub type_name : Bytes
  pub verbosity : ℕ
  pub name : Bytes
  pub text : Bytes
  pub traces : List Bytes

pub data Message : Type 0 where
  last : Message
  error : ErrorPayload → Message
  next : Bytes → Message
  start_activity : (id verbosity activity_type : ℕ) → Bytes → List Field → (parent : ℕ) → Message
  stop_activity : ℕ → Message
  result : (id result_type : ℕ) → List Field → Message
  streaming unknown : ℕ → Message

-- One trace: `have_pos` has to be 0.
unfoldable pub read_trace : M Stream Bytes
read_trace = do
  have_pos ← read_u64
  ensure (have_pos == 0) (ascii "error positions are not supported")
  read_string max_host_string

unfoldable pub read_traces : ℕ → M Stream (List Bytes)
read_traces zero = pure []
read_traces (suc count) = do trace ← read_trace; traces ← read_traces count; pure (trace ∷ traces)

unfoldable pub read_error_payload : M Stream ErrorPayload
read_error_payload = do
  type_name ← read_string max_host_string
  verbosity ← read_u64
  name ← read_string max_host_string
  text ← read_string max_host_string
  have_pos ← read_u64
  ensure (have_pos == 0) (ascii "error positions are not supported")
  trace_count ← read_u64
  ensure (leb trace_count max_count)
      (ascii "trace count " ++ (decimal trace_count ++ ascii " exceeds limit"))
  traces ← read_traces trace_count
  pure (record {
    type_name = type_name;
    verbosity = verbosity;
    name = name;
    text = text;
    traces = traces;
  })

-- The value of a field, by its type.
unfoldable pub read_field_value : ℕ → M Stream Field
read_field_value kind =
    if kind == 0
    then (read_u64 >>= λ v. pure (int v))
    else if kind == 1
    then (read_string max_host_string >>= λ s. pure (string s))
    else fail (message (ascii "unsupported logger field type " ++ decimal kind))

unfoldable pub read_field_items : ℕ → M Stream (List Field)
read_field_items zero = pure []
read_field_items (suc count) = do
  kind ← read_u64
  field ← read_field_value kind
  fields ← read_field_items count
  pure (field ∷ fields)

unfoldable pub read_fields : M Stream (List Field)
read_fields = do
  count ← read_u64
  ensure (leb count max_count) (ascii "field count " ++ (decimal count ++ ascii " exceeds limit"))
  read_field_items count

unfoldable pub read_start_activity : M Stream Message
read_start_activity = do
  id ← read_u64
  verbosity ← read_u64
  activity_type ← read_u64
  text ← read_string max_host_string
  fields ← read_fields
  parent ← read_u64
  pure (start_activity id verbosity activity_type text fields parent)

unfoldable pub read_result : M Stream Message
read_result = do
  id ← read_u64
  result_type ← read_u64
  fields ← read_fields
  pure (result id result_type fields)

-- The rest of a message, by its first word.
unfoldable pub read_body : ℕ → M Stream Message
read_body msg =
    if msg == stderr_last
    then pure Message.last
    else if msg == stderr_error
    then (read_error_payload >>= λ e. pure (Message.error e))
    else if msg == stderr_next
    then (read_string max_host_string >>= λ s. pure (next s))
    else if msg == stderr_start_activity
    then read_start_activity
    else if msg == stderr_stop_activity
    then (read_u64 >>= λ id. pure (stop_activity id))
    else if msg == stderr_result
    then read_result
    else if msg == stderr_read || msg == stderr_write
    then pure (streaming msg)
    else pure (unknown msg)

unfoldable pub read_message : M Stream Message
read_message = do msg ← read_u64; read_body msg

unfoldable pub write_traces : List Bytes → M Sink (Unit {0})
write_traces [] = pure tt
write_traces (trace ∷ traces) = do write_u64 0; write_string trace; write_traces traces

unfoldable pub write_error_payload : ErrorPayload → M Sink (Unit {0})
write_error_payload e = do
  write_string e.type_name
  write_u64 e.verbosity
  write_string e.name
  write_string e.text
  write_u64 0
  write_u64 (length e.traces)
  write_traces e.traces

unfoldable pub write_field : Field → M Sink (Unit {0})
write_field (int value) = do write_u64 0; write_u64 value
write_field (string value) = do write_u64 1; write_string value

unfoldable pub write_field_items : List Field → M Sink (Unit {0})
write_field_items [] = pure tt
write_field_items (field ∷ fields) = do write_field field; write_field_items fields

unfoldable pub write_fields : List Field → M Sink (Unit {0})
write_fields fields = do write_u64 (length fields); write_field_items fields

-- The synthetic error by which an op is rejected.
unfoldable pub write_error : Bytes → M Sink (Unit {0})
write_error msg = do
  write_u64 stderr_error
  write_string (ascii "Error")
  write_u64 0
  write_string (ascii "Error")
  write_string (ascii "claudepod-nix-proxy: " ++ msg)
  write_u64 0
  write_u64 0
  flush

-- The definitions of this file, by one name for `unfolding` lines that run them.
unfoldable pub stderr_message_code : Unit {0}
unfolding copy_code ascii decimal read_trace read_traces read_error_payload read_field_value
    read_field_items read_fields read_start_activity read_result read_body read_message write_traces
    write_error_payload write_field write_field_items write_fields write_error
stderr_message_code = tt
