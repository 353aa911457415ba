-- ===== src/Wire/Examples.antt =====
-- Runs of the wire primitives, as the tests of wire.rs have them.
use claudepod.Prelude.{
  ◌≡◌, refl, ◌≤◌, ◌^◌, true, none, List, [], ◌∷◌, ◌++◌, Bytes, ascii, decimal, bytes_eq, length,
  leb→le, ltb→lt, All,
}
use claudepod.Outcome.{ok, err, message}
use claudepod.Outcome.Trace.{Does}
use claudepod.Wire.{
  Stream, read_string, read_u64_or_eof, read_string_list, write_string_list, le_bytes, wire_code,
}
use claudepod.Wire.Format.{word, string_frame, strings_frame, list_frame}
use claudepod.Wire.Reading.{IsReady, IsReady-all_bytes, stream_trace}
use claudepod.Wire.Writing.{written}
use claudepod.Wire.Chunks.{word_result, read_u64_or_eof-word_result}
use claudepod.Wire.RoundTrip.{
  stream, empty_sink, read_string_list-write_string_list, read_string_list-takes,
}

abbrev two_items : List Bytes
two_items = ascii "one" ∷ ascii "" ∷ []

abbrev two_items_stream : Stream
two_items_stream = stream (list_frame two_items ++ (7 ∷ [])) true

two_items_stream-IsReady : IsReady two_items_stream
unfolding le_bytes ascii list_frame string_frame strings_frame
two_items_stream-IsReady = IsReady-all_bytes two_items_stream refl

bad_padding :
    (read_string 16 (stream (word 3 ++ (111 ∷ 110 ∷ 101 ∷ 0 ∷ 0 ∷ 0 ∷ 0 ∷ 1 ∷ [])) true)).0
    ≡ err (message (ascii "non-zero string padding"))
unfolding wire_code bytes_eq
bad_padding = refl

too_long :
    (read_string 16 (stream (word 17) true)).0
    ≡ err (message (ascii "string length 17 exceeds limit 16"))
unfolding wire_code ascii decimal
too_long = refl

hung_up_between : (read_u64_or_eof (λ _. 3) (stream [] true)).0 ≡ ok none
unfolding wire_code
hung_up_between = refl

read_u64_or_eof-word_result_example :
    read_u64_or_eof (λ _. 3) two_items_stream ≡ word_result two_items_stream.bytes true
read_u64_or_eof-word_result_example = read_u64_or_eof-word_result (λ _. 3) two_items_stream

read_string_list-write_string_list_example :
    read_string_list 2 16
      (stream (written (write_string_list two_items empty_sink).1 ++ (7 ∷ [])) true)
    ≡ (ok two_items, stream (7 ∷ []) true)
unfolding ascii
read_string_list-write_string_list_example =
    read_string_list-write_string_list 2 16 two_items (7 ∷ []) true (leb→le 2 2 refl)
      (ltb→lt 2 (2 ^ 64) refl)
      ((leb→le 3 16 refl, ltb→lt 3 (2 ^ 64) refl), ((leb→le 0 16 refl, ltb→lt 0 (2 ^ 64) refl), tt))

read_string_list-takes_example :
    Does stream_trace
      (read_string_list 2 16)
      two_items_stream
      (λ items t.
        (t ≡ written (write_string_list items empty_sink).1)
        × (length items ≤ 2)
        × All (λ (b : Bytes). length b ≤ 16) items)
      (λ _. Unit {0})
read_string_list-takes_example =
    read_string_list-takes 2 16 two_items_stream two_items_stream-IsReady
