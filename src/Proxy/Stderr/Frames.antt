-- ===== src/Proxy/Stderr/Frames.antt =====
-- The writers of stderr.rs put out the frames of the messages.
use claudepod.Prelude.{◌≡◌, refl, List, [], ◌∷◌, ◌++◌, append-nil, Bytes, ascii}
use claudepod.Outcome.{M, zoom, ◌>>=◌, ◌>>◌}
use claudepod.Wire.{write_all, flush}
use claudepod.Wire.Copy.{Duplex, writing}
use claudepod.Wire.Writing.{
  write_u64-frame, write_string-frame, write_all-append, write_all-nil, write_all-then,
}
use claudepod.Proxy.Stderr.{
  Field, int, string, ErrorPayload, Message, write_traces, write_error_payload, write_field,
  write_field_items, write_fields, write_error,
}
use claudepod.Proxy.Stderr.Messages.{
  traces_frame, error_frame, field_frame, field_items_frame, fields_frame, message_frame,
}

pub write_traces-frame : (ts : List Bytes) → write_traces ts ≡ write_all (traces_frame ts)
unfolding write_traces traces_frame
write_traces-frame [] = write_all-nil
write_traces-frame (t ∷ ts) =
    simp (write_u64-frame, write_string-frame, write_traces-frame ts, write_all-append)

pub write_error_payload-frame :
    (e : ErrorPayload) → write_error_payload e ≡ write_all (error_frame e)
unfolding write_error_payload error_frame
write_error_payload-frame e =
    simp (write_u64-frame, write_string-frame, write_traces-frame, write_all-append)

write_field-frame : (f : Field) → write_field f ≡ write_all (field_frame f)
unfolding write_field field_frame
write_field-frame (int v) = simp (write_u64-frame, write_all-append)
write_field-frame (string s) = simp (write_u64-frame, write_string-frame, write_all-append)

write_field_items-frame :
    (fs : List Field) → write_field_items fs ≡ write_all (field_items_frame fs)
unfolding write_field_items field_items_frame
write_field_items-frame [] = write_all-nil
write_field_items-frame (f ∷ fs) =
    simp (write_field-frame, write_field_items-frame fs, write_all-append)

pub write_fields-frame : (fs : List Field) → write_fields fs ≡ write_all (fields_frame fs)
unfolding write_fields fields_frame
write_fields-frame fs = simp (write_u64-frame, write_field_items-frame, write_all-append)

-- The synthetic error that the guest is sent, as a message.
unfoldable pub proxy_error : Bytes → Bytes
proxy_error msg = message_frame (
    Message.error (record {
      type_name = ascii "Error";
      verbosity = 0;
      name = ascii "Error";
      text = ascii "claudepod-nix-proxy: " ++ msg;
      traces = [];
    }))

pub write_error-frame : (msg : Bytes) → write_error msg ≡ (write_all (proxy_error msg) >> flush)
unfolding write_error proxy_error message_frame error_frame traces_frame
write_error-frame msg = simp (write_u64-frame, write_string-frame, write_all-then, append-nil)

pub writing-write_error :
    {B : Type 0} (text : Bytes) (n : M Duplex B)
    → (writing (write_error text) >>= λ _. n)
      ≡ (writing (write_all (proxy_error text)) >>= λ _. (writing flush >>= λ _. n))
writing-write_error text n =
    rw write_error-frame (unfold writing zoom ◌>>=◌ write_all flush in refl)
