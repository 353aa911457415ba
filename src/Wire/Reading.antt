-- ===== src/Wire/Reading.antt =====
-- What each reader of the wire takes from its stream: exactly the frame of the value it returns.
use claudepod.Prelude.{
  ℕ, zero, suc, ◌-◌, ◌%◌, ◌≤◌, ◌≡◌, refl, sym, ap, ◌∙◌, Bool, true, false, not, [], ◌∷◌, ◌++◌,
  append_assoc, append-nil, Bytes, length, take, take-append-drop, length-take, All,
  All-append_right, All-append_left, leb, ◌==◌, leb→le, ltb, ltb→lt, if◌then◌else◌, bytes_eq→eq,
  arith, Bool-cases, inl, inr,
}
use claudepod.Outcome.{M}
use claudepod.Outcome.Trace.{
  Trace, Post, Does, Does-pure, Does-bind, Does-ensure, Does-ensure_last, Does-mono,
}
use claudepod.Wire.{
  IsByte, IsU64, Stream, starved, read_exact, read_u64, read_padding, read_string, read_strings,
  read_string_list, le_value,
}
use claudepod.Wire.Words.{word_forth, word-IsU64}
use claudepod.Wire.Format.{word, padding, string_frame, strings_frame, list_frame}

pub record Passed (s : Stream) (taken : Bytes) (t : Stream) : Type 0 where
  pub bytes : s.bytes ≡ taken ++ t.bytes
  pub ending : s.closed ≡ t.closed

abbrev pub IsReady : Stream → Type 0
IsReady s = All IsByte s.bytes

pub Passed-follows :
    {s t u : Stream} {a b : Bytes} → Passed s a t → Passed t b u → Passed s (a ++ b) u
Passed-follows {s} {t} {u} {a} {b} p q = record {
  bytes = p.bytes ∙ ap (λ (r : Bytes). a ++ r) q.bytes ∙ sym (append_assoc a b u.bytes);
  ending = p.ending ∙ q.ending;
}

pub Passed-IsReady : {s t : Stream} {a : Bytes} → Passed s a t → IsReady s → IsReady t
Passed-IsReady {s} {t} {a} p h = All-append_right IsByte a t.bytes (rw p.bytes at h)

pub Passed-IsByte : {s t : Stream} {a : Bytes} → Passed s a t → IsReady s → All IsByte a
Passed-IsByte {s} {t} {a} p h = All-append_left IsByte a t.bytes (rw p.bytes at h)

abbrev pub stream_trace : Trace Stream
stream_trace = record {
  Log = Bytes;
  idle = [];
  after = λ a b. a ++ b;
  Evolves = Passed;
  Ready = IsReady;
  still = λ s. record { bytes = refl; ending = refl };
  follows = Passed-follows;
  keeps = Passed-IsReady;
}

abbrev pub Reads : {A : Type 0} → M Stream A → (A → Bytes → Type 0) → Type 0
Reads m P = (s : Stream) → IsReady s → Does stream_trace m s P (λ _. Unit {0})

Does-starved :
    {A : Type 0} (P : A → Bytes → Type 0) (closed : Bool) (a : Bytes)
    → Post P (λ _. Unit {0}) (starved closed) a
unfolding starved
Does-starved P true a = tt
Does-starved P false a = tt

pub Reads-read_exact : (n : ℕ) → Reads (read_exact n) (λ b t. (t ≡ b) × (length b ≡ n))
unfolding read_exact
Reads-read_exact n s r = elim (Bool-cases (leb n (length s.bytes))) [
  | inl e ↦ record {
    log = take n s.bytes;
    evolves = rw e (record { bytes = sym (take-append-drop n s.bytes); ending = refl });
    post = rw e (refl, length-take n s.bytes (leb→le _ _ e));
  }
  | inr e ↦ record {
    log = s.bytes;
    evolves = rw e (record { bytes = sym (append-nil s.bytes); ending = refl });
    post = rw e (Does-starved _ s.closed s.bytes);
  }
]

word_taken :
    {a b : Bytes}
    → All IsByte a
    → a ≡ b
    → length b ≡ 8
    → (a ≡ word (le_value b)) × IsU64 (le_value b)
word_taken {a} {b} r e h =
    let rb : All IsByte b = rw e at r in (e ∙ sym (word_forth b rb h), word-IsU64 b rb h)

pub Reads-read_u64 : Reads read_u64 (λ v t. (t ≡ word v) × IsU64 v)
unfolding read_u64
Reads-read_u64 s r =
    Does-bind stream_trace (Reads-read_exact 8 s r) (λ a h. h)
      λ b a t e h.
        Does-pure stream_trace _ t (rw append-nil (word_taken (Passed-IsByte e r) h.0 h.1))

pub Reads-read_padding : (len : ℕ) → Reads (read_padding len) (λ _ t. t ≡ padding len)
unfolding read_padding
Reads-read_padding len s r = elim (Bool-cases (len % 8 == 0)) [
  | inl e ↦ rw (e, not) (Does-pure stream_trace tt s refl)
  | inr e ↦
      rw (e, not)
        (Does-bind stream_trace (Reads-read_exact (8 - len % 8) s r) (λ a h. h)
          λ b a t p h.
            Does-ensure_last stream_trace _ _ (λ _. tt)
              λ q. rw append-nil (h.0 ∙ bytes_eq→eq _ _ q))
]

pub Reads-read_string :
    (max_len : ℕ) → Reads (read_string max_len) (λ b t. (t ≡ string_frame b) × (length b ≤ max_len))
unfolding read_string string_frame
Reads-read_string max_len s r =
    Does-bind stream_trace (Reads-read_u64 s r) (λ a h. h)
      λ len a₁ s₁ e₁ h₁.
        let r₁ = Passed-IsReady e₁ r in
        Does-ensure stream_trace _ _ _ (λ _. tt)
          λ q.
            Does-bind stream_trace (Reads-read_exact len s₁ r₁) (λ a h. h)
              λ b a₂ s₂ e₂ h₂.
                Does-bind stream_trace (Reads-read_padding len s₂ (Passed-IsReady e₂ r₁)) (λ a h. h)
                  λ _ a₃ s₃ e₃ h₃.
                    Does-pure stream_trace b s₃
                      (rw (append-nil, h₁.0, h₂.0, h₃, h₂.1), omega (arith, leb→le _ _ q, h₂.1))

pub Reads-read_strings :
    (max_len count : ℕ)
    → Reads (read_strings max_len count) (λ items t.
      (t ≡ strings_frame items)
      × (length items ≡ count)
      × All (λ (b : Bytes). length b ≤ max_len) items)
unfolding read_strings strings_frame
Reads-read_strings max_len zero s r = Does-pure stream_trace [] s (refl, refl, tt)
Reads-read_strings max_len (suc count) s r =
    Does-bind stream_trace (Reads-read_string max_len s r) (λ a h. h)
      λ item a₁ s₁ e₁ h₁.
        Does-bind stream_trace (Reads-read_strings max_len count s₁ (Passed-IsReady e₁ r))
          (λ a h. h)
          λ items a₂ s₂ e₂ h₂.
            Does-pure stream_trace (item ∷ items) s₂
              (rw (append-nil, h₁.0, h₂.0), ap suc h₂.1, (h₁.1, h₂.2))

pub Reads-read_string_list :
    (max_items max_len : ℕ)
    → Reads (read_string_list max_items max_len) (λ items t.
      (t ≡ list_frame items)
      × (length items ≤ max_items)
      × All (λ (b : Bytes). length b ≤ max_len) items)
unfolding read_string_list list_frame
Reads-read_string_list max_items max_len s r =
    Does-bind stream_trace (Reads-read_u64 s r) (λ a h. h)
      λ count a₁ s₁ e₁ h₁.
        Does-ensure stream_trace _ _ _ (λ _. tt)
          λ q.
            Does-mono stream_trace _ _
              (λ items a h. (rw (h₁.0, h.0, h.1), omega (arith, leb→le _ _ q, h.1), h.2)) (λ a h. h)
              (Reads-read_strings max_len count s₁ (Passed-IsReady e₁ r))

-- For a stream that is given, the test of its bytes.
abbrev pub all_bytes : Bytes → Bool
all_bytes [] = true
all_bytes (b ∷ bs) = if ltb b 256 then all_bytes bs else false

pub IsReady-all_bytes : (s : Stream) → all_bytes s.bytes ≡ true → IsReady s
IsReady-all_bytes s = go s.bytes
  where
    go : (bs : Bytes) → all_bytes bs ≡ true → All IsByte bs
    go [] h = tt
    go (b ∷ bs) h = elim (Bool-cases (ltb b 256)) [
      | inl e ↦ (ltb→lt b 256 e, go bs (rw e at h))
      | inr e ↦ cc
    ]
