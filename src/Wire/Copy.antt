-- ===== src/Wire/Copy.antt =====
-- The `copy_*` functions of src/proxy/wire.rs, over a pair of a stream read and a sink written.
use claudepod.Prelude.{ℕ, zero, suc, ascii, decimal, ◌++◌, leb}
use claudepod.Outcome.{M, pure, ensure, zoom, ◌>>=◌, ◌>>◌}
use claudepod.Wire.{
  Stream, Sink, read_u64, read_string, write_u64, write_string, max_count, wire_code,
}

pub record Duplex : Type 0 where
  pub input : Stream
  pub output : Sink

unfoldable pub reading : {A : Type 0} → M Stream A → M Duplex A
reading = zoom (λ d. d.input) (λ s d. record d { input = s })

unfoldable pub writing : {A : Type 0} → M Sink A → M Duplex A
writing = zoom (λ d. d.output) (λ w d. record d { output = w })

unfoldable pub copy_u64 : M Duplex ℕ
copy_u64 = do v ← reading read_u64; writing (write_u64 v); pure v

unfoldable pub copy_string : ℕ → M Duplex (Unit {0})
copy_string max_len = do s ← reading (read_string max_len); writing (write_string s); pure tt

-- `for _ in 0..count { copy_string(r, w, max_len) }`
unfoldable pub copy_strings : ℕ → ℕ → M Duplex (Unit {0})
copy_strings max_len zero = pure tt
copy_strings max_len (suc count) = do copy_string max_len; copy_strings max_len count

unfoldable pub copy_string_list : ℕ → M Duplex (Unit {0})
copy_string_list max_len = do
  count ← reading read_u64
  ensure (leb count max_count) (ascii "string count " ++ decimal count ++ ascii " exceeds limit")
  writing (write_u64 count)
  copy_strings max_len count

unfoldable pub copy_code : Unit {0}
unfolding wire_code reading writing zoom copy_u64 copy_string copy_strings copy_string_list
copy_code = tt
