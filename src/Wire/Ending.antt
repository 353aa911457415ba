-- ===== src/Wire/Ending.antt =====
-- The primitives of src/proxy/wire.rs never wait for a peer that has hung up.
use claudepod.Prelude.{
  ℕ, zero, suc, ◌≡◌, ◌==◌, Bool, true, false, List, [], ◌∷◌, ◌++◌, Bytes, leb, length, take, drop,
  if◌then◌else◌,
}
use claudepod.Outcome.{M, Outcome, ok}
use claudepod.Outcome.Ending.{
  Ended, Ends, Ends-pure, Ends-no_fuel, Ends-if, Ends-bind, Ends-zoom, end_rules,
}
use claudepod.Wire.{
  Stream, Sink, starved, read_exact, read_some, read_u64, word_eof, fill_word, read_u64_or_eof,
  read_padding, read_string, read_strings, read_string_list, write_all, flush, write_u64,
  write_string, write_strings, write_string_list,
}
use claudepod.Wire.Copy.{
  Duplex, reading, writing, copy_u64, copy_string, copy_strings, copy_string_list,
}

abbrev pub Hung : Stream → Type 0
Hung s = s.closed ≡ true

abbrev pub AnySink : Sink → Type 0
AnySink k = Unit {0}

abbrev pub HungInput : Duplex → Type 0
HungInput d = d.input.closed ≡ true

pub Ends-read_exact : (n : ℕ) → Ends Hung (read_exact n)
unfolding read_exact starved
Ends-read_exact n = record { at = λ s h. go s (leb n (length s.bytes)) h }
  where
    go :
        (s : Stream) (b : Bool)
        → Hung s
        → (let r : Outcome Bytes × Stream =
              if b
              then (ok (take n s.bytes), record s { bytes = drop n s.bytes })
              else (starved s.closed, record s { bytes = [] }) in
            Ended r.0 × Hung r.1)
    go s true h = (tt, h)
    go s false h = (rw h tt, h)

Ends-read_some : (space offer : ℕ) → Ends Hung (read_some space offer)
unfolding read_some
Ends-read_some space offer = record { at = λ s h. go s.bytes s.closed h }
  where
    go :
        (bs : Bytes) (closed : Bool)
        → closed ≡ true
        → (let r = read_some space offer (record { bytes = bs; closed = closed }) in
            Ended r.0 × Hung r.1)
    go [] closed h = (rw h tt, h)
    go (b ∷ bs) closed h = (tt, h)

pub Ends-read_u64 : Ends Hung read_u64
unfolding read_u64
Ends-read_u64 = search (end_rules, Ends-read_exact)

Ends-word_eof : (filled : Bytes) → Ends Hung (word_eof filled)
unfolding word_eof
Ends-word_eof filled = search end_rules

Ends-fill_word :
    (chunk : ℕ → ℕ) (fuel : ℕ) (filled : Bytes) → Ends Hung (fill_word chunk fuel filled)
unfolding fill_word
Ends-fill_word chunk zero filled = search end_rules
Ends-fill_word chunk (suc fuel) filled =
    Ends-if _ _ _
      (Ends-bind _ _ (Ends-read_some _ _)
        λ got. go got (length got == 0) (Ends-fill_word chunk fuel (filled ++ got)))
      (Ends-pure _)
  where
    go :
        (got : Bytes) (b : Bool)
        → Ends Hung (fill_word chunk fuel (filled ++ got))
        → Ends Hung
            (elim b [ true ↦ word_eof filled | false ↦ fill_word chunk fuel (filled ++ got) ])
    go got true h = Ends-word_eof filled
    go got false h = h

pub Ends-read_u64_or_eof : (chunk : ℕ → ℕ) → Ends Hung (read_u64_or_eof chunk)
unfolding read_u64_or_eof
Ends-read_u64_or_eof chunk = Ends-fill_word chunk 8 []

Ends-read_padding : (len : ℕ) → Ends Hung (read_padding len)
unfolding read_padding
Ends-read_padding len = search (end_rules, Ends-read_exact)

pub Ends-read_string : (max_len : ℕ) → Ends Hung (read_string max_len)
unfolding read_string
Ends-read_string max_len =
    search (end_rules, Ends-read_u64, Ends-read_exact, Ends-read_padding) depth 12

Ends-read_strings : (max_len count : ℕ) → Ends Hung (read_strings max_len count)
unfolding read_strings
Ends-read_strings max_len zero = search end_rules
Ends-read_strings max_len (suc count) =
    Ends-bind _ _ (Ends-read_string max_len)
      λ item. Ends-bind _ _ (Ends-read_strings max_len count) λ items. Ends-pure _

pub Ends-read_string_list : (max_items max_len : ℕ) → Ends Hung (read_string_list max_items max_len)
unfolding read_string_list
Ends-read_string_list max_items max_len = search (end_rules, Ends-read_u64, Ends-read_strings)

pub Ends-write_all : (bs : Bytes) → Ends AnySink (write_all bs)
unfolding write_all
Ends-write_all bs = record { at = λ k h. (tt, tt) }

pub Ends-flush : Ends AnySink flush
unfolding flush
Ends-flush = record { at = λ k h. (tt, tt) }

pub Ends-write_u64 : (v : ℕ) → Ends AnySink (write_u64 v)
unfolding write_u64
Ends-write_u64 v = Ends-write_all _

pub Ends-write_string : (s : Bytes) → Ends AnySink (write_string s)
unfolding write_string
Ends-write_string s = search (end_rules, Ends-write_u64, Ends-write_all)

Ends-write_strings : (items : List Bytes) → Ends AnySink (write_strings items)
unfolding write_strings
Ends-write_strings [] = search end_rules
Ends-write_strings (item ∷ items) =
    Ends-bind _ _ (Ends-write_string item) λ _. Ends-write_strings items

pub Ends-write_string_list : (items : List Bytes) → Ends AnySink (write_string_list items)
unfolding write_string_list
Ends-write_string_list items = search (end_rules, Ends-write_u64, Ends-write_strings)

module _ {A : Type 0} where
  pub Ends-reading : (m : M Stream A) → Ends Hung m → Ends HungInput (reading m)
  unfolding reading
  Ends-reading m h = Ends-zoom _ _ m (λ d c. c) (λ d s c k. k) h

  pub Ends-writing : (m : M Sink A) → Ends AnySink m → Ends HungInput (writing m)
  unfolding writing
  Ends-writing m h = Ends-zoom _ _ m (λ d c. tt) (λ d s c k. c) h

-- Everything that reads and writes words and strings.
pub ruleset wire_ends = (
  end_rules, Ends-read_u64, Ends-read_string, Ends-read_string_list, Ends-flush, Ends-write_u64,
  Ends-write_string, Ends-write_string_list, Ends-reading, Ends-writing,
)

pub Ends-copy_u64 : Ends HungInput copy_u64
unfolding copy_u64
Ends-copy_u64 = search wire_ends

pub Ends-copy_string : (max_len : ℕ) → Ends HungInput (copy_string max_len)
unfolding copy_string
Ends-copy_string max_len = search wire_ends

Ends-copy_strings : (max_len count : ℕ) → Ends HungInput (copy_strings max_len count)
unfolding copy_strings
Ends-copy_strings max_len zero = search end_rules
Ends-copy_strings max_len (suc count) =
    Ends-bind _ _ (Ends-copy_string max_len) λ _. Ends-copy_strings max_len count

pub Ends-copy_string_list : (max_len : ℕ) → Ends HungInput (copy_string_list max_len)
unfolding copy_string_list
Ends-copy_string_list max_len = search (wire_ends, Ends-copy_strings)
