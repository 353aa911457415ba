-- ===== src/Wire/Writing.antt =====
-- The writers put out the frames of the wire format, in one piece.
use mathlib.Core.Path.{fun_ext}
use claudepod.Prelude.{
  ℕ, ◌-◌, ◌%◌, ◌≡◌, refl, sym, ap, not, List, [], ◌∷◌, ◌++◌, append_assoc, append-nil, Bytes,
  replicate, ◌==◌, if◌then◌else◌, Bool-cases, inl, inr,
}
use claudepod.Outcome.{M, ok, pure, ◌>>=◌, ◌>>◌}
use claudepod.Wire.{
  Sink, write_all, flush, write_u64, write_string, write_strings, write_string_list,
}
use claudepod.Wire.Format.{word, padding, string_frame, strings_frame, list_frame}

-- All that a sink has been given, delivered or not.
unfoldable pub written : Sink → Bytes
written w = w.sent ++ w.buffered

pub written-write_all : (bs : Bytes) (w : Sink) → written (write_all bs w).1 ≡ written w ++ bs
unfolding written write_all
written-write_all bs w = sym (append_assoc w.sent w.buffered bs)

pub written-flush : (w : Sink) → written (flush w).1 ≡ written w
unfolding written flush
written-flush w = append-nil (w.sent ++ w.buffered)

pub write_all-append : (a b : Bytes) → (write_all a >> write_all b) ≡ write_all (a ++ b)
unfolding ◌>>=◌ write_all
write_all-append a b =
    fun_ext
      λ w. ap (λ (t : Bytes). (ok tt, record w { buffered = t })) (append_assoc w.buffered a b)

pub write_all-nil : pure tt ≡ write_all []
unfolding pure write_all
write_all-nil =
    fun_ext
      λ w. ap (λ (t : Bytes). (ok tt, record w { buffered = t })) (sym (append-nil w.buffered))

pub write_u64-frame : (v : ℕ) → write_u64 v ≡ write_all (word v)
unfolding write_u64
write_u64-frame v = refl

write_padding-frame :
    (len : ℕ)
    → (if not (len % 8 == 0) then write_all (replicate (8 - len % 8) 0) else pure tt)
      ≡ write_all (padding len)
write_padding-frame len = elim (Bool-cases (len % 8 == 0)) [
  | inl e ↦ rw (e, not) write_all-nil
  | inr e ↦ rw (e, not) refl
]

pub write_string-frame : (s : Bytes) → write_string s ≡ write_all (string_frame s)
unfolding write_string string_frame
write_string-frame s = simp (write_u64-frame, write_padding-frame, write_all-append)

pub write_strings-frame :
    (items : List Bytes) → write_strings items ≡ write_all (strings_frame items)
unfolding write_strings strings_frame
write_strings-frame [] = write_all-nil
write_strings-frame (item ∷ items) =
    simp (write_string-frame, write_strings-frame items, write_all-append)

pub write_string_list-frame :
    (items : List Bytes) → write_string_list items ≡ write_all (list_frame items)
unfolding write_string_list list_frame
write_string_list-frame items = simp (write_u64-frame, write_strings-frame items, write_all-append)

pub write_all-then :
    {B : Type 0} (a b : Bytes) (k : M Sink B)
    → (write_all a >>= λ _. (write_all b >>= λ _. k)) ≡ (write_all (a ++ b) >>= λ _. k)
unfolding ◌>>=◌ write_all
write_all-then a b k =
    fun_ext λ w. ap (λ (t : Bytes). k (record w { buffered = t })) (append_assoc w.buffered a b)
