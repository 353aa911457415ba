-- ===== src/Wire/RoundTrip.antt =====
-- Reading back what was written, with whatever follows it on the stream.
use claudepod.Prelude.{
  ℕ, ◌-◌, ◌%◌, ◌≤◌, ◌≡◌, refl, Bool, true, not, List, [], ◌∷◌, ◌++◌, append_assoc, Bytes, length,
  replicate, take-append, drop-append, length-append, length-replicate, All, le→leb, bytes_eq_refl,
  ◌==◌, arith, Bool-cases, inl, inr,
}
use claudepod.Outcome.{ok, M, pure, ensure, ◌>>=◌}
use claudepod.Wire.{
  IsU64, Stream, Sink, write_all, write_string_list, read_exact, read_u64, read_padding,
  read_string, read_strings, read_string_list,
}
use claudepod.Outcome.Trace.{Does, Does-mono}
use claudepod.Wire.Reading.{IsReady, stream_trace, Reads-read_string_list}
use claudepod.Wire.Writing.{written, write_string_list-frame}
use claudepod.Wire.Words.{length-le_bytes, word_back}
use claudepod.Wire.Format.{word, padding, string_frame, strings_frame, list_frame}

abbrev pub stream : Bytes → Bool → Stream
stream bs c = record { bytes = bs; closed = c }

abbrev pub empty_sink : Sink
empty_sink = record { sent = []; buffered = [] }

-- `m` returns `x` from a stream that begins with `frame`, and leaves the rest.
abbrev pub Accepts : {A : Type 0} → M Stream A → Bytes → A → Type 0
Accepts m frame x = (rest : Bytes) (c : Bool) → m (stream (frame ++ rest) c) ≡ (ok x, stream rest c)

pub Accepts-read_exact : (bs : Bytes) → Accepts (read_exact (length bs)) bs bs
unfolding read_exact
Accepts-read_exact bs rest c =
    rw
      (
        le→leb (length bs) (length (bs ++ rest)) (omega (arith, length-append bs rest)),
        take-append,
        drop-append,
      )
      refl

pub Accepts-bind :
    {A B : Type 0} (m : M Stream A) (f : A → M Stream B) (fm fk : Bytes) (x : A) (y : B)
    → Accepts m fm x
    → Accepts (f x) fk y
    → Accepts (m >>= f) (fm ++ fk) y
unfolding ◌>>=◌
Accepts-bind m f fm fk x y h k rest c = rw (append_assoc, h (fk ++ rest) c) (k rest c)

pub Accepts-pure : {A : Type 0} (x : A) → Accepts (pure x) [] x
unfolding pure
Accepts-pure x rest c = refl

pub Accepts-last :
    {A B : Type 0} (m : M Stream A) (g : A → B) (frame : Bytes) (x : A)
    → Accepts m frame x
    → Accepts (m >>= λ y. pure (g y)) frame (g x)
unfolding ◌>>=◌ pure
Accepts-last m g frame x h rest c = rw (h rest c) refl

pub Accepts-ensure : (b : Bool) (text : Bytes) → b ≡ true → Accepts (ensure b text) [] tt
unfolding ensure pure
Accepts-ensure b text h rest c = rw h refl

pub Accepts-read_u64 : (v : ℕ) → IsU64 v → Accepts read_u64 (word v) v
unfolding read_u64 ◌>>=◌ pure
Accepts-read_u64 v h rest c =
    let exact = (rw length-le_bytes at (Accepts-read_exact (word v) rest c)) in
    rw (exact, word_back v h) refl

Accepts-read_zeros : (n : ℕ) → Accepts (read_exact n) (replicate n 0) (replicate n 0)
Accepts-read_zeros n rest c = rw length-replicate at (Accepts-read_exact (replicate n 0) rest c)

pub Accepts-read_padding : (len : ℕ) → Accepts (read_padding len) (padding len) tt
unfolding read_padding ◌>>=◌ pure ensure
Accepts-read_padding len rest c = elim (Bool-cases (len % 8 == 0)) [
  | inl e ↦ rw (e, not) refl
  | inr e ↦ rw (e, not, Accepts-read_zeros (8 - len % 8) rest c, bytes_eq_refl) refl
]

-- A string of an acceptable length is read back from its frame.
pub Accepts-read_string :
    (max_len : ℕ) (s : Bytes)
    → length s ≤ max_len
    → IsU64 (length s)
    → Accepts (read_string max_len) (string_frame s) s
unfolding read_string string_frame
Accepts-read_string max_len s h u =
    Accepts-bind read_u64 _ (word (length s)) (s ++ padding (length s)) (length s) s
      (Accepts-read_u64 (length s) u)
      (Accepts-bind _ _ [] (s ++ padding (length s)) tt s (Accepts-ensure _ _ (le→leb _ _ h)) (
        Accepts-bind _ _ s (padding (length s)) s s (Accepts-read_exact s)
          (Accepts-last _ (λ _. s) (padding (length s)) tt (Accepts-read_padding (length s)))))

abbrev pub IsShort : ℕ → Bytes → Type 0
IsShort max_len s = (length s ≤ max_len) × IsU64 (length s)

pub Accepts-read_strings :
    (max_len : ℕ) (items : List Bytes)
    → All (IsShort max_len) items
    → Accepts (read_strings max_len (length items)) (strings_frame items) items
unfolding read_strings strings_frame
Accepts-read_strings max_len [] h = Accepts-pure []
Accepts-read_strings max_len (item ∷ items) h =
    Accepts-bind _ _ (string_frame item) (strings_frame items) item (item ∷ items)
      (Accepts-read_string max_len item h.0.0 h.0.1)
      (Accepts-last _ (λ rest. item ∷ rest) (strings_frame items) items
        (Accepts-read_strings max_len items h.1))

pub Accepts-read_string_list :
    (max_items max_len : ℕ) (items : List Bytes)
    → length items ≤ max_items
    → IsU64 (length items)
    → All (IsShort max_len) items
    → Accepts (read_string_list max_items max_len) (list_frame items) items
unfolding read_string_list list_frame
Accepts-read_string_list max_items max_len items h u k =
    Accepts-bind read_u64 _ (word (length items)) (strings_frame items) (length items) items
      (Accepts-read_u64 (length items) u)
      (Accepts-bind _ _ [] (strings_frame items) tt items (Accepts-ensure _ _ (le→leb _ _ h))
        (Accepts-read_strings max_len items k))

-- A list of strings that is within the limits is read back from what was written for it, and
-- the bytes behind it stay on the stream.
pub read_string_list-write_string_list :
    (max_items max_len : ℕ) (items : List Bytes) (rest : Bytes) (c : Bool)
    → length items ≤ max_items
    → IsU64 (length items)
    → All (IsShort max_len) items
    → read_string_list max_items max_len
        (stream (written (write_string_list items empty_sink).1 ++ rest) c)
      ≡ (ok items, stream rest c)
unfolding written write_all
read_string_list-write_string_list max_items max_len items rest c h u k =
    rw write_string_list-frame (Accepts-read_string_list max_items max_len items h u k rest c)

-- A string list that is read from a stream of bytes is within the limits, and what was taken is
-- what would be written for it.
pub read_string_list-takes :
    (max_items max_len : ℕ) (s : Stream)
    → IsReady s
    → Does stream_trace
        (read_string_list max_items max_len)
        s
        (λ items t.
          (t ≡ written (write_string_list items empty_sink).1)
          × (length items ≤ max_items)
          × All (λ (b : Bytes). length b ≤ max_len) items)
        (λ _. Unit {0})
unfolding written write_all
read_string_list-takes max_items max_len s r =
    Does-mono stream_trace _ _ (λ items t h. (rw write_string_list-frame h.0, h.1, h.2)) (λ a h. h)
      (Reads-read_string_list max_items max_len s r)
