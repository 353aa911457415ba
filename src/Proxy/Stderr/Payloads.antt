-- ===== src/Proxy/Stderr/Payloads.antt =====
-- The payloads of the messages of src/proxy/stderr.rs are read from their frames.
use claudepod.Prelude.{
  ℕ, zero, suc, ◌≡◌, refl, ap, [], ◌∷◌, ◌++◌, append-nil, append_assoc, Bytes, length, ◌==◌, ==_iff,
  Bool-cases, inl, inr,
}
use claudepod.Outcome.{M, pure, ◌>>=◌}
use claudepod.Outcome.Trace.{Does-pure, Does-fail, Does-bind, Does-ensure, Does-mono}
use claudepod.Wire.{Stream, read_u64, read_string, max_host_string}
use claudepod.Wire.Format.{word, string_frame}
use claudepod.Wire.Reading.{Passed-IsReady, Reads, Reads-read_u64, Reads-read_string, stream_trace}
use claudepod.Proxy.Stderr.{
  int, string, read_trace, read_traces, read_error_payload, read_field_value, read_field_items,
  read_fields,
}
use claudepod.Proxy.Stderr.Messages.{
  error_frame, field_frame, field_items_frame, fields_frame, traces_frame,
}

-- `m` takes exactly the frame of what it returns.
abbrev pub Frames : {A : Type 0} → M Stream A → (A → Bytes) → Type 0
Frames m frame = Reads m (λ x t. t ≡ frame x)

pub Frames-read_u64 : Frames read_u64 word
Frames-read_u64 s r = Does-mono stream_trace _ _ (λ v a h. h.0) (λ a h. h) (Reads-read_u64 s r)

pub Frames-read_string : (max_len : ℕ) → Frames (read_string max_len) string_frame
Frames-read_string max_len s r =
    Does-mono stream_trace _ _ (λ v a h. h.0) (λ a h. h) (Reads-read_string max_len s r)

-- One step of a `do` block of readers: its frame stands in front of the frames that follow.
pub Frames-then :
    {A B : Type 0} (frame : A → Bytes) (m : M Stream A) (f : A → M Stream B)
    (P : B → Bytes → Type 0)
    → Frames m frame
    → ((x : A) → Reads (f x) (λ y t. P y (frame x ++ t)))
    → Reads (m >>= f) P
Frames-then frame m f P h k s r =
    Does-bind stream_trace (h s r) (λ a e. e)
      λ x a t e q.
        Does-mono stream_trace _ _ (λ y b p. rw q p) (λ b p. p) (k x t (Passed-IsReady e r))

pub Reads-pure : {A : Type 0} (x : A) (P : A → Bytes → Type 0) → P x [] → Reads (pure x) P
Reads-pure x P h s r = Does-pure stream_trace x s h

pub Reads-last :
    {A B : Type 0} (frame : A → Bytes) (m : M Stream A) (g : A → B) (P : B → Bytes → Type 0)
    → Frames m frame
    → ((x : A) → P (g x) (frame x))
    → Reads (m >>= λ x. pure (g x)) P
Reads-last frame m g P h k = Frames-then frame m _ P h λ x. Reads-pure (g x) _ (rw append-nil (k x))

pub Frames-read_trace : Frames read_trace (λ t. word 0 ++ string_frame t)
unfolding read_trace
Frames-read_trace s r =
    Does-bind stream_trace (Frames-read_u64 s r) (λ a e. e)
      λ have_pos a s₁ e h.
        Does-ensure stream_trace _ _ _ (λ _. tt)
          λ q.
            Does-mono stream_trace (λ t b. a ++ b ≡ word 0 ++ string_frame t) _
              (λ t b p. rw (h, (==_iff have_pos 0).0 q) (ap (λ (u : Bytes). word 0 ++ u) p))
              (λ b p. p) (Frames-read_string max_host_string s₁ (Passed-IsReady e r))

Reads-read_traces :
    (n : ℕ) → Reads (read_traces n) (λ ts t. (t ≡ traces_frame ts) × (length ts ≡ n))
unfolding read_traces traces_frame
Reads-read_traces zero = Reads-pure [] _ (refl, refl)
Reads-read_traces (suc n) = Frames-then _ read_trace _ _ Frames-read_trace λ t s r.
    Does-bind stream_trace (Reads-read_traces n s r) (λ a e. e)
      λ ts a s' e h.
        Does-pure stream_trace (t ∷ ts) s' (rw (append-nil, append_assoc, h.0), ap suc h.1)

pub Frames-read_error_payload : Frames read_error_payload error_frame
unfolding read_error_payload error_frame
Frames-read_error_payload s₀ r₀ =
    Does-bind stream_trace (Frames-read_string max_host_string s₀ r₀) (λ a e. e)
      λ type_name _ s₁ e₁ h₁.
        let r₁ = Passed-IsReady e₁ r₀ in
        Does-bind stream_trace (Frames-read_u64 s₁ r₁) (λ a e. e)
          λ verbosity _ s₂ e₂ h₂.
            let r₂ = Passed-IsReady e₂ r₁ in
            Does-bind stream_trace (Frames-read_string max_host_string s₂ r₂) (λ a e. e)
              λ name _ s₃ e₃ h₃.
                let r₃ = Passed-IsReady e₃ r₂ in
                Does-bind stream_trace (Frames-read_string max_host_string s₃ r₃) (λ a e. e)
                  λ text _ s₄ e₄ h₄.
                    let r₄ = Passed-IsReady e₄ r₃ in
                    Does-bind stream_trace (Frames-read_u64 s₄ r₄) (λ a e. e)
                      λ have_pos _ s₅ e₅ h₅.
                        Does-ensure stream_trace _ _ _ (λ _. tt)
                          λ q.
                            let r₅ = Passed-IsReady e₅ r₄ in
                            Does-bind stream_trace (Frames-read_u64 s₅ r₅) (λ a e. e)
                              λ count _ s₆ e₆ h₆.
                                Does-ensure stream_trace _ _ _ (λ _. tt)
                                  λ _.
                                    Does-bind stream_trace
                                      (Reads-read_traces count s₆ (Passed-IsReady e₆ r₅)) (λ a e. e)
                                      λ traces _ s₇ e₇ h₇. Does-pure stream_trace _ s₇ (
                                        rw (
                                          append-nil,
                                          h₁,
                                          h₂,
                                          h₃,
                                          h₄,
                                          h₅,
                                          h₆,
                                          h₇.0,
                                          (==_iff have_pos 0).0 q,
                                          h₇.1,
                                        ))

Frames-read_field_value :
    (kind : ℕ) → Reads (read_field_value kind) (λ f t. word kind ++ t ≡ field_frame f)
unfolding read_field_value field_frame
Frames-read_field_value kind = elim (Bool-cases (kind == 0)) [
  | inl e ↦ rw e (Reads-last word _ int _ Frames-read_u64 (λ v. rw ((==_iff kind 0).0 e)))
  | inr e ↦ rw e (elim (Bool-cases (kind == 1)) [
    | inl e₁ ↦ rw e₁ (
        Reads-last string_frame _ string _ (Frames-read_string max_host_string)
          (λ v. rw ((==_iff kind 1).0 e₁)))
    | inr e₁ ↦ rw e₁ (λ s r. Does-fail stream_trace _ s tt)
  ])
]

Reads-read_field_items :
    (n : ℕ) → Reads (read_field_items n) (λ fs t. (t ≡ field_items_frame fs) × (length fs ≡ n))
unfolding read_field_items field_items_frame
Reads-read_field_items zero s₀ r₀ = Does-pure stream_trace [] s₀ (refl, refl)
Reads-read_field_items (suc n) s₀ r₀ =
    Does-bind stream_trace (Frames-read_u64 s₀ r₀) (λ a e. e)
      λ kind _ s₁ e₁ h₁.
        let r₁ = Passed-IsReady e₁ r₀ in
        Does-bind stream_trace (Frames-read_field_value kind s₁ r₁) (λ a e. e)
          λ f _ s₂ e₂ h₂.
            Does-bind stream_trace (Reads-read_field_items n s₂ (Passed-IsReady e₂ r₁)) (λ a e. e)
              λ fs _ s₃ e₃ h₃.
                Does-pure stream_trace (f ∷ fs) s₃
                  (rw (append-nil, h₁, ← append_assoc, h₂, h₃.0), ap suc h₃.1)

pub Frames-read_fields : Frames read_fields fields_frame
unfolding read_fields fields_frame
Frames-read_fields s₀ r₀ =
    Does-bind stream_trace (Frames-read_u64 s₀ r₀) (λ a e. e)
      λ count _ s₁ e₁ h₁.
        Does-ensure stream_trace _ _ _ (λ _. tt)
          λ q.
            Does-mono stream_trace _ _ (λ fs a h. rw (h₁, h.0, h.1)) (λ a h. h)
              (Reads-read_field_items count s₁ (Passed-IsReady e₁ r₀))
