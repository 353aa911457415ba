-- ===== src/Proxy/Stderr/Messages.antt =====
-- The frame of each message of src/proxy/stderr.rs.
use claudepod.Prelude.{List, [], ◌∷◌, ◌++◌, Bytes, length}
use claudepod.Wire.Format.{word, string_frame}
use claudepod.Proxy.Stderr.{
  Field, int, string, ErrorPayload, Message, next, start_activity, stop_activity, result, streaming,
  unknown, stderr_next, stderr_last, stderr_error, stderr_start_activity, stderr_stop_activity,
  stderr_result,
}

unfoldable pub traces_frame : List Bytes → Bytes
traces_frame [] = []
traces_frame (t ∷ ts) = word 0 ++ (string_frame t ++ traces_frame ts)

unfoldable pub error_frame : ErrorPayload → Bytes
error_frame e =
    string_frame e.type_name
    ++ (word e.verbosity
        ++ (string_frame e.name
            ++ (string_frame e.text
                ++ (word 0 ++ (word (length e.traces) ++ traces_frame e.traces)))))

unfoldable pub field_frame : Field → Bytes
field_frame (int v) = word 0 ++ word v
field_frame (string s) = word 1 ++ string_frame s

unfoldable pub field_items_frame : List Field → Bytes
field_items_frame [] = []
field_items_frame (f ∷ fs) = field_frame f ++ field_items_frame fs

unfoldable pub fields_frame : List Field → Bytes
fields_frame fs = word (length fs) ++ field_items_frame fs

unfoldable pub message_frame : Message → Bytes
message_frame Message.last = word stderr_last
message_frame (Message.error e) = word stderr_error ++ error_frame e
message_frame (next text) = word stderr_next ++ string_frame text
message_frame (start_activity id verbosity activity_type text fields parent) =
    word stderr_start_activity
    ++ (word id
        ++ (word verbosity
            ++ (word activity_type ++ (string_frame text ++ (fields_frame fields ++ word parent)))))
message_frame (stop_activity id) = word stderr_stop_activity ++ word id
message_frame (result id result_type fields) =
    word stderr_result ++ (word id ++ (word result_type ++ fields_frame fields))
message_frame (streaming w) = word w
message_frame (unknown w) = word w
