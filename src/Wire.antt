-- ===== src/Wire.antt =====
-- src/proxy/wire.rs: the primitives of the nix daemon protocol, over explicit byte streams.
-- The copies from one stream to another are in Copy, the proofs in the other children.
pub mod Copy
pub mod Format
pub mod Words
pub mod Reading
pub mod Chunks
pub mod Writing
pub mod Moves
pub mod Verbatim
pub mod Pieces
pub mod RoundTrip
pub mod Ending
mod Examples
use Prim.Native.Nat.{min, max}
use claudepod.Prelude.{
  ℕ, zero, suc, ◌+◌, ◌-◌, ◌*◌, ◌/◌, ◌%◌, ◌^◌, ◌<◌, Bool, true, false, not, Option, none, some, List,
  [], ◌∷◌, ◌++◌, Bytes, ascii, decimal, length, take, drop, replicate, leb, ltb, ◌==◌, bytes_eq,
  if◌then◌else◌,
}
use claudepod.Outcome.{
  Error, library, early_eof, message, Outcome, ok, err, pending, M, pure, fail, no_fuel, ensure,
  ◌>>=◌, ◌>>◌,
}

abbrev pub IsByte : ℕ → Type 0
IsByte b = b < 256

abbrev pub IsU64 : ℕ → Type 0
IsU64 v = v < 2 ^ 64

-- What a peer still sends, and whether it hangs up after that (or keeps the connection and is
-- silent).
pub record Stream : Type 0 where
  pub bytes : Bytes
  pub closed : Bool

-- The two halves of a buffered writer: what has been delivered, and what waits for a flush.
pub record Sink : Type 0 where
  pub sent : Bytes
  pub buffered : Bytes

abbrev pub max_guest_string : ℕ
max_guest_string = 65536

abbrev pub max_host_string : ℕ
max_host_string = 16777216

abbrev pub max_count : ℕ
max_count = 1048576

-- A read that finds no bytes: the peer has hung up, or the future waits.
unfoldable pub starved {ℓ} : {A : Type ℓ} → Bool → Outcome A
starved true = err (library early_eof)
starved false = pending

-- `read_exact` into a buffer of `n` bytes. A short read uses up what there is.
unfoldable pub read_exact : ℕ → M Stream Bytes
read_exact n s =
    if leb n (length s.bytes)
    then (ok (take n s.bytes), record s { bytes = drop n s.bytes })
    else (starved s.closed, record s { bytes = [] })

-- `read` into a buffer of `space` bytes, where the transport hands over `offer` bytes at a time:
-- at least one, or none at the end of the stream.
unfoldable pub read_some : ℕ → ℕ → M Stream Bytes
read_some space offer s = elim s.bytes [
  | [] ↦ (if s.closed then ok [] else pending, s)
  | _ ↦
      let n = min (max 1 offer) space in (ok (take n s.bytes), record s { bytes = drop n s.bytes })
]

-- `u64::from_le_bytes`, and the first `n` bytes of `u64::to_le_bytes`.
unfoldable pub le_value : Bytes → ℕ
le_value [] = 0
le_value (b ∷ bs) = b + 256 * le_value bs

unfoldable pub le_bytes : ℕ → ℕ → Bytes
le_bytes zero v = []
le_bytes (suc n) v = (v % 256) ∷ le_bytes n (v / 256)

unfoldable pub read_u64 : M Stream ℕ
read_u64 = do b ← read_exact 8; pure (le_value b)

-- A read that returned no bytes: the end of the stream, before or inside the word.
unfoldable pub word_eof : Bytes → M Stream (Option ℕ)
word_eof filled =
    if length filled == 0 then pure none else fail (message (ascii "eof in the middle of a u64"))

-- The loop of `read_u64_or_eof` with `filled` bytes in the buffer. `chunk` says how much the
-- transport offers to the read at each fill level.
unfoldable pub fill_word : (ℕ → ℕ) → ℕ → Bytes → M Stream (Option ℕ)
fill_word chunk zero filled =
    if ltb (length filled) 8 then no_fuel else pure (some (le_value filled))
fill_word chunk (suc fuel) filled =
    if ltb (length filled) 8
    then read_some (8 - length filled) (chunk (length filled)) >>= (λ got. elim (length got == 0) [
      | true ↦ word_eof filled
      | false ↦ fill_word chunk fuel (filled ++ got)
    ])
    else pure (some (le_value filled))

-- Each round of the loop takes a byte at least, so eight rounds are enough.
unfoldable pub read_u64_or_eof : (ℕ → ℕ) → M Stream (Option ℕ)
read_u64_or_eof chunk = fill_word chunk 8 []

-- The zero bytes behind a string of `len` bytes.
abbrev pub pad_length : ℕ → ℕ
pad_length len = if len % 8 == 0 then 0 else 8 - len % 8

unfoldable pub read_padding : ℕ → M Stream (Unit {0})
read_padding len =
    if not (len % 8 == 0)
    then (do
      pad ← read_exact (8 - len % 8)
      ensure (bytes_eq pad (replicate (8 - len % 8) 0)) (ascii "non-zero string padding"))
    else pure tt

unfoldable pub read_string : ℕ → M Stream Bytes
read_string max_len = do
  len ← read_u64
  ensure (leb len max_len)
      (ascii "string length " ++ decimal len ++ ascii " exceeds limit " ++ decimal max_len)
  buf ← read_exact len
  read_padding len
  pure buf

-- `for _ in 0..count { items.push(read_string(r, max_len)) }`
unfoldable pub read_strings : ℕ → ℕ → M Stream (List Bytes)
read_strings max_len zero = pure []
read_strings max_len (suc count) = do
  item ← read_string max_len
  items ← read_strings max_len count
  pure (item ∷ items)

unfoldable pub read_string_list : ℕ → ℕ → M Stream (List Bytes)
read_string_list max_items max_len = do
  count ← read_u64
  ensure (leb count max_items)
      (ascii "string count " ++ decimal count ++ ascii " exceeds limit " ++ decimal max_items)
  read_strings max_len count

-- `write_all` to a buffered writer, and its `flush`.
unfoldable pub write_all : Bytes → M Sink (Unit {0})
write_all bs w = (ok tt, record w { buffered = w.buffered ++ bs })

unfoldable pub flush : M Sink (Unit {0})
flush w = (ok tt, record { sent = w.sent ++ w.buffered; buffered = [] })

unfoldable pub write_u64 : ℕ → M Sink (Unit {0})
write_u64 v = write_all (le_bytes 8 v)

unfoldable pub write_string : Bytes → M Sink (Unit {0})
write_string s = do
  write_u64 (length s)
  write_all s
  if not (length s % 8 == 0) then write_all (replicate (8 - length s % 8) 0) else pure tt

unfoldable pub write_strings : List Bytes → M Sink (Unit {0})
write_strings [] = pure tt
write_strings (item ∷ items) = do write_string item; write_strings items

unfoldable pub write_string_list : List Bytes → M Sink (Unit {0})
write_string_list items = do write_u64 (length items); write_strings items

-- The definitions of this file, by one name for `unfolding` lines that run them.
unfoldable pub wire_code : Unit {0}
unfolding pure fail no_fuel ensure ◌>>=◌ starved read_exact read_some le_value le_bytes read_u64
    word_eof fill_word read_u64_or_eof read_padding read_string read_strings read_string_list
    write_all flush write_u64 write_string write_strings write_string_list
wire_code = tt
