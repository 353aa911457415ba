-- ===== src/Proxy/Stderr/Reading.antt =====
-- The readers of src/proxy/stderr.rs take whole messages.
use claudepod.Proxy.Stderr.Payloads.{
  Frames, Frames-read_error_payload, Frames-read_fields, Frames-read_string, Frames-read_u64,
  Reads-last, Reads-pure,
}
use claudepod.Prelude.{
  ℕ, ◌≡◌, refl, Bool, true, false, ◌||◌, ◌++◌, append-nil, ◌==◌, ==_iff, Bool-cases, inl, inr,
  if◌then◌else◌,
}
use claudepod.Outcome.{M}
use claudepod.Outcome.Trace.{Does-pure, Does-bind, Does-mono}
use claudepod.Wire.{Stream, max_host_string}
use claudepod.Wire.Format.{word, string_frame}
use claudepod.Wire.Reading.{Passed-IsReady, Reads, stream_trace}
use claudepod.Proxy.Stderr.{
  Message, next, stop_activity, streaming, unknown, read_start_activity, read_result, read_body,
  read_message, stderr_next, stderr_read, stderr_write, stderr_last, stderr_error,
  stderr_start_activity, stderr_stop_activity, stderr_result,
}
use claudepod.Proxy.Stderr.Messages.{error_frame, message_frame}

-- The rest of a message, after the word `msg`.
abbrev Completes : ℕ → M Stream Message → Type 0
Completes msg m = Reads m (λ x t. word msg ++ t ≡ message_frame x)

Completes-read_start_activity : Completes stderr_start_activity read_start_activity
unfolding read_start_activity message_frame
Completes-read_start_activity s₀ r₀ =
    Does-bind stream_trace (Frames-read_u64 s₀ r₀) (λ a e. e)
      λ id _ s₁ e₁ h₁.
        let r₁ = Passed-IsReady e₁ r₀ in
        Does-bind stream_trace (Frames-read_u64 s₁ r₁) (λ a e. e)
          λ verbosity _ s₂ e₂ h₂.
            let r₂ = Passed-IsReady e₂ r₁ in
            Does-bind stream_trace (Frames-read_u64 s₂ r₂) (λ a e. e)
              λ kind _ s₃ e₃ h₃.
                let r₃ = Passed-IsReady e₃ r₂ in
                Does-bind stream_trace (Frames-read_string max_host_string s₃ r₃) (λ a e. e)
                  λ text _ s₄ e₄ h₄.
                    let r₄ = Passed-IsReady e₄ r₃ in
                    Does-bind stream_trace (Frames-read_fields s₄ r₄) (λ a e. e)
                      λ fields _ s₅ e₅ h₅.
                        Does-bind stream_trace (Frames-read_u64 s₅ (Passed-IsReady e₅ r₄))
                          (λ a e. e)
                          λ parent _ s₆ e₆ h₆.
                            Does-pure stream_trace _ s₆ (rw (append-nil, h₁, h₂, h₃, h₄, h₅, h₆))

Completes-read_result : Completes stderr_result read_result
unfolding read_result message_frame
Completes-read_result s₀ r₀ =
    Does-bind stream_trace (Frames-read_u64 s₀ r₀) (λ a e. e)
      λ id _ s₁ e₁ h₁.
        let r₁ = Passed-IsReady e₁ r₀ in
        Does-bind stream_trace (Frames-read_u64 s₁ r₁) (λ a e. e)
          λ kind _ s₂ e₂ h₂.
            Does-bind stream_trace (Frames-read_fields s₂ (Passed-IsReady e₂ r₁)) (λ a e. e)
              λ fields _ s₃ e₃ h₃. Does-pure stream_trace _ s₃ (rw (append-nil, h₁, h₂, h₃))

-- One arm of the `match` on the first word.
arm :
    (msg k : ℕ) (m n : M Stream Message)
    → Completes k m
    → ((msg == k) ≡ false → Completes msg n)
    → Completes msg (if msg == k then m else n)
arm msg k m n h g = elim (Bool-cases (msg == k)) [
  | inl e ↦ rw (e, (==_iff msg k).0 e) h
  | inr e ↦ rw e (g e)
]

either :
    (msg : ℕ) (b : Bool) (m n : M Stream Message)
    → Completes msg m
    → Completes msg n
    → Completes msg (if b then m else n)
either msg true m n h k = h
either msg false m n h k = k

Completes-read_body : (msg : ℕ) → Completes msg (read_body msg)
unfolding read_body message_frame
Completes-read_body msg = arm msg stderr_last _ _ (Reads-pure Message.last _ (append-nil _)) λ _.
    arm msg stderr_error _ _
      (Reads-last error_frame _ Message.error _ Frames-read_error_payload (λ e. refl))
      λ _.
        arm msg stderr_next _ _
          (Reads-last string_frame _ next _ (Frames-read_string max_host_string) (λ s. refl))
          λ _. arm msg stderr_start_activity _ _ Completes-read_start_activity λ _.
            arm msg stderr_stop_activity _ _
              (Reads-last word _ stop_activity _ Frames-read_u64 (λ v. refl))
              λ _. arm msg stderr_result _ _ Completes-read_result λ _.
                either msg (msg == stderr_read || msg == stderr_write) _ _
                  (Reads-pure (streaming msg) _ (append-nil _))
                  (Reads-pure (unknown msg) _ (append-nil _))

pub Frames-read_message : Frames read_message message_frame
unfolding read_message
Frames-read_message s r =
    Does-bind stream_trace (Frames-read_u64 s r) (λ a e. e)
      λ msg a s₁ e₁ h₁.
        Does-mono stream_trace (λ m b. a ++ b ≡ message_frame m) _ (λ m b h. rw h₁ h) (λ b h. h)
          (Completes-read_body msg s₁ (Passed-IsReady e₁ r))
