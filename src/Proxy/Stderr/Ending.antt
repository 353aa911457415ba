-- ===== src/Proxy/Stderr/Ending.antt =====
-- The loops of src/proxy/stderr.rs never wait for a peer that has hung up.
use claudepod.Prelude.{
  ℕ, zero, suc, length, Bool, true, false, Option, none, some, List, [], ◌∷◌, Bytes,
}
use claudepod.Outcome.{pure}
use claudepod.Outcome.Ending.{Ends, Ends-pure, Ends-no_fuel, Ends-bind, end_rules}
use claudepod.Wire.Ending.{
  Hung, AnySink, HungInput, Ends-read_u64, Ends-write_u64, Ends-write_string, Ends-reading,
  wire_ends,
}
use claudepod.Proxy.Stderr.{
  Terminal, Field, int, string, ErrorPayload, Message, next, start_activity, stop_activity, result,
  streaming, unknown, read_trace, read_traces, read_error_payload, read_field_value,
  read_field_items, read_fields, read_start_activity, read_result, read_body, read_message,
  write_traces, write_error_payload, write_field, write_field_items, write_fields, write_error,
}
use claudepod.Proxy.Stderr.Loops.{
  violation, forward, relay_loop, relay_inner, relay, relay_without_last, Drain, done, more, absorb,
  drain_loop, drain_to_terminal,
}

Ends-read_trace : Ends Hung read_trace
unfolding read_trace
Ends-read_trace = search wire_ends

Ends-read_traces : (count : ℕ) → Ends Hung (read_traces count)
unfolding read_traces
Ends-read_traces zero = search end_rules
Ends-read_traces (suc count) =
    Ends-bind _ _ Ends-read_trace λ t. Ends-bind _ _ (Ends-read_traces count) λ ts. Ends-pure _

Ends-read_error_payload : Ends Hung read_error_payload
unfolding read_error_payload
Ends-read_error_payload = search (wire_ends, Ends-read_traces) depth 24 fits 2000

Ends-read_field_value : (kind : ℕ) → Ends Hung (read_field_value kind)
unfolding read_field_value
Ends-read_field_value kind = search wire_ends depth 8

Ends-read_field_items : (count : ℕ) → Ends Hung (read_field_items count)
unfolding read_field_items
Ends-read_field_items zero = search end_rules
Ends-read_field_items (suc count) = Ends-bind _ _ Ends-read_u64 λ kind.
    Ends-bind _ _ (Ends-read_field_value kind)
      λ f. Ends-bind _ _ (Ends-read_field_items count) λ fs. Ends-pure _

Ends-read_fields : Ends Hung read_fields
unfolding read_fields
Ends-read_fields = search (wire_ends, Ends-read_field_items) depth 8

Ends-read_start_activity : Ends Hung read_start_activity
unfolding read_start_activity
Ends-read_start_activity = search (wire_ends, Ends-read_fields) depth 20 fits 2000

Ends-read_result : Ends Hung read_result
unfolding read_result
Ends-read_result = search (wire_ends, Ends-read_fields) depth 12

Ends-read_body : (msg : ℕ) → Ends Hung (read_body msg)
unfolding read_body
Ends-read_body msg =
    search (wire_ends, Ends-read_error_payload, Ends-read_start_activity, Ends-read_result) depth 16
      fits 2000

Ends-read_message : Ends Hung read_message
unfolding read_message
Ends-read_message = search (wire_ends, Ends-read_body)

Ends-write_traces : (traces : List Bytes) → Ends AnySink (write_traces traces)
unfolding write_traces
Ends-write_traces [] = search end_rules
Ends-write_traces (trace ∷ traces) =
    Ends-bind _ _ (Ends-write_u64 0)
      λ _. Ends-bind _ _ (Ends-write_string trace) λ _. Ends-write_traces traces

Ends-write_error_payload : (e : ErrorPayload) → Ends AnySink (write_error_payload e)
unfolding write_error_payload
Ends-write_error_payload e = search (wire_ends, Ends-write_traces) depth 16 fits 2000

Ends-write_field : (field : Field) → Ends AnySink (write_field field)
unfolding write_field
Ends-write_field (int value) = search wire_ends
Ends-write_field (string value) = search wire_ends

Ends-write_field_items : (fields : List Field) → Ends AnySink (write_field_items fields)
unfolding write_field_items
Ends-write_field_items [] = search end_rules
Ends-write_field_items (field ∷ fields) =
    Ends-bind _ _ (Ends-write_field field) λ _. Ends-write_field_items fields

Ends-write_fields : (fields : List Field) → Ends AnySink (write_fields fields)
unfolding write_fields
Ends-write_fields fields = search (wire_ends, Ends-write_field_items)

pub Ends-write_error : (msg : Bytes) → Ends AnySink (write_error msg)
unfolding write_error
Ends-write_error msg = search wire_ends depth 20 fits 2000

ruleset message_ends =
    (wire_ends, Ends-read_message, Ends-write_fields, Ends-write_error_payload, Ends-write_error)

Ends-forward : (forward_last : Bool) (m : Message) → Ends HungInput (forward forward_last m)
unfolding forward violation
Ends-forward forward_last Message.last = search message_ends depth 8
Ends-forward forward_last (Message.error e) = search message_ends depth 8
Ends-forward forward_last (next text) = search message_ends depth 12
Ends-forward forward_last (start_activity id verbosity activity_type text fields parent) =
    search message_ends depth 24 fits 2000
Ends-forward forward_last (stop_activity id) = search message_ends depth 12
Ends-forward forward_last (result id result_type fields) = search message_ends depth 16 fits 2000
Ends-forward forward_last (streaming msg) = search message_ends depth 8
Ends-forward forward_last (unknown msg) = search message_ends depth 8

Ends-relay_loop : (forward_last : Bool) (fuel : ℕ) → Ends HungInput (relay_loop forward_last fuel)
unfolding relay_loop
Ends-relay_loop forward_last zero = Ends-no_fuel
Ends-relay_loop forward_last (suc fuel) =
    let rest = Ends-relay_loop forward_last fuel in
    Ends-bind _ _ (Ends-reading _ Ends-read_message)
      λ m. Ends-bind _ _ (Ends-forward forward_last m) λ t. go rest t
  where
    go :
        Ends HungInput (relay_loop forward_last fuel)
        → (t : Option Terminal)
        → Ends HungInput
            (elim t [ none ↦ relay_loop forward_last fuel | some terminal ↦ pure terminal ])
    go rest none = rest
    go rest (some terminal) = Ends-pure terminal

Ends-relay_inner : (forward_last : Bool) → Ends HungInput (relay_inner forward_last)
unfolding relay_inner
Ends-relay_inner forward_last = record {
  at = λ d h. (Ends-relay_loop forward_last (suc (length d.input.bytes))).at d h;
}

pub Ends-relay : Ends HungInput relay
unfolding relay
Ends-relay = Ends-relay_inner true

pub Ends-relay_without_last : Ends HungInput relay_without_last
unfolding relay_without_last
Ends-relay_without_last = Ends-relay_inner false

Ends-absorb : (logs : List Bytes) (m : Message) → Ends Hung (absorb logs m)
unfolding absorb
Ends-absorb logs Message.last = search end_rules
Ends-absorb logs (Message.error e) = search end_rules
Ends-absorb logs (next text) = search end_rules
Ends-absorb logs (start_activity id verbosity activity_type text fields parent) = search end_rules
Ends-absorb logs (stop_activity id) = search end_rules
Ends-absorb logs (result id result_type fields) = search end_rules
Ends-absorb logs (streaming msg) = search end_rules
Ends-absorb logs (unknown msg) = search end_rules

Ends-drain_loop : (fuel : ℕ) (logs : List Bytes) → Ends Hung (drain_loop fuel logs)
unfolding drain_loop
Ends-drain_loop zero logs = Ends-no_fuel
Ends-drain_loop (suc fuel) logs =
    let rest = λ (ls : List Bytes). Ends-drain_loop fuel ls in
    Ends-bind _ _ Ends-read_message λ m. Ends-bind _ _ (Ends-absorb logs m) λ r. go rest r
  where
    go :
        ((logs' : List Bytes) → Ends Hung (drain_loop fuel logs'))
        → (r : Drain) → Ends Hung (elim r [ done d ↦ pure d | more logs' ↦ drain_loop fuel logs' ])
    go rest (done d) = Ends-pure d
    go rest (more logs') = rest logs'

pub Ends-drain_to_terminal : Ends Hung drain_to_terminal
unfolding drain_to_terminal
Ends-drain_to_terminal = record { at = λ s h. (Ends-drain_loop (suc (length s.bytes)) []).at s h }
