-- ===== src/Proxy/Session/Decision.antt =====
-- The whole of an `IsValidPath` op in session.rs, from its word to the flush of the answer.
use claudepod.Proxy.Session.Arguments.{Does-relay_is_valid_path_args, path_sent}
use mathlib.Core.Path.{subst⁻¹}
use claudepod.Prelude.{◌≡◌, refl, ap, ◌∙◌, false, List, Bytes, ascii, Option}
use claudepod.Outcome.{with_context, ◌>>=◌}
use claudepod.Outcome.Trace.{Does, Does-pure, Does-bind, Does-mono, Does-with_context}
use claudepod.Wire.{write_u64, flush}
use claudepod.Wire.Format.{word}
use claudepod.Wire.Moves.{Moved}
use claudepod.Proxy.Ops.{is_valid_path, op_word}
use claudepod.Proxy.RunRoots.{NixRunRoots}
use claudepod.Proxy.Stderr.{Terminal}
use claudepod.Proxy.Stderr.Loops.{relay_without_last}
use claudepod.Proxy.Stderr.Relay.{Exchanged, Broken, relay_without_last-withholds}
use claudepod.Proxy.Session.{World, Answer, Env, to_guest, to_host, host_to_guest}
use claudepod.Proxy.Session.Rounds.{
  another, answer_is_valid_path, intercept_is_valid_path, serve_is_valid_path,
}
use claudepod.Proxy.Session.Traffic.{
  Traffic, Traded-IsOpen, Traded-fills, IsOpen, world_trace, together, together-calm, together_eq,
  calm,
}
use claudepod.Proxy.Session.Halves.{
  guest_got, host_got, downward, Does-host_to_guest, Does-to_guest, Does-to_host, Puts-write_all,
  Puts-flush,
}
use claudepod.Proxy.Session.Answers.{Answered, Does-answer_is_valid_path, Unanswered}

-- A whole question behind its word: the daemon's error is passed on, or its last message withheld
-- and an answer given; `fill` is what a fill comes to.
pub data Intercepted (roots : Option NixRunRoots) (fill : Bytes → Answer (Unit {0})) (a : Traffic)
    : Type 0 where
  daemon_error :
      (path : Bytes) (u : Moved)
      → Exchanged false Terminal.error u
      → a ≡ together (path_sent path) (downward u)
      → Intercepted roots fill a
  answered :
      (path : Bytes) (u : Moved) (b : Traffic)
      → Exchanged false Terminal.last u
      → Answered roots fill path b
      → a ≡ together (path_sent path) (together (downward u) b)
      → Intercepted roots fill a

-- A question that the session ends in: in its arguments, in the host's messages, or after them.
pub data Interrupted (roots : Option NixRunRoots) (fill : Bytes → Answer (Unit {0})) (a : Traffic)
    : Type 0 where
  in_arguments :
      (t x : Bytes) → a ≡ record calm { guest_taken = t; guest_put = x } → Interrupted roots fill a
  in_messages :
      (path : Bytes) (u : Moved)
      → Broken u
      → a ≡ together (path_sent path) (downward u)
      → Interrupted roots fill a
  unanswered :
      (path : Bytes) (u : Moved) (b : Traffic)
      → Exchanged false Terminal.last u
      → Unanswered roots fill path b
      → a ≡ together (path_sent path) (together (downward u) b)
      → Interrupted roots fill a

Does-flush_host :
    (w : World) {E : Traffic → Type 0} → Does world_trace (to_host flush) w (λ _ a. a ≡ calm) E
Does-flush_host w {E} =
    Does-mono world_trace _ E (λ _ b p. p.1 ∙ ap host_got p.2) (λ b p. absurd p.2)
      (Does-to_host (Puts-flush {E = λ _. ⊥} w.host_out))

pub Does-flush_guest :
    (w : World) {E : Traffic → Type 0} → Does world_trace (to_guest flush) w (λ _ a. a ≡ calm) E
Does-flush_guest w {E} =
    Does-mono world_trace _ E (λ _ b p. p.1 ∙ ap guest_got p.2) (λ b p. absurd p.2)
      (Does-to_guest (Puts-flush {E = λ _. ⊥} w.guest_out))

-- The host's messages, and the answer after them.
Does-messages_and_answer :
    (env : Env) (path : Bytes) (fills : List Bytes) (a₀ : Traffic) (w : World)
    → IsOpen w
    → w.fills ≡ fills
    → a₀ ≡ path_sent path
    → Does world_trace
        (with_context (ascii "IsValidPath stderr") (host_to_guest relay_without_last)
          >>= λ terminal. answer_is_valid_path env path terminal)
        w
        (λ _ a. Intercepted env.nix_run_roots (env.fill fills) (together a₀ a))
        (λ a. Interrupted env.nix_run_roots (env.fill fills) (together a₀ a))
unfolding answer_is_valid_path
Does-messages_and_answer env path fills a₀ w o k q =
    Does-bind world_trace
      (Does-with_context world_trace _ (Does-host_to_guest (relay_without_last-withholds _ o.1)))
      (λ a p. in_messages path p.0 p.2 (together_eq q p.1))
      λ terminal a w₁ e₁ h₁.
        go terminal a w₁ (Traded-IsOpen e₁ o)
          (Traded-fills e₁ (ap (λ (x : Traffic). x.filled) h₁.1) ∙ k) h₁
  where
    go :
        (terminal : Terminal) (a : Traffic) (w₁ : World)
        → IsOpen w₁
        → w₁.fills ≡ fills
        → ((u : Moved) × (a ≡ downward u) × Exchanged false terminal u)
        → Does world_trace
            (answer_is_valid_path env path terminal)
            w₁
            (λ _ b. Intercepted env.nix_run_roots (env.fill fills) (together a₀ (together a b)))
            (λ b. Interrupted env.nix_run_roots (env.fill fills) (together a₀ (together a b)))
    go Terminal.error a w₁ o₁ k₁ (u, p, x) =
        Does-pure world_trace tt w₁ (daemon_error path u x (together_eq q (together-calm a ∙ p)))
    go Terminal.last a w₁ o₁ k₁ (u, p, x) =
        Does-mono world_trace _ _
          (λ _ b h. answered path u b x h (together_eq q (together_eq p refl)))
          (λ b h. unanswered path u b x h (together_eq q (together_eq p refl)))
          (Does-answer_is_valid_path env path fills w₁ o₁ k₁)

Does-intercept_is_valid_path :
    (env : Env) (fills : List Bytes) (w : World)
    → IsOpen w
    → w.fills ≡ fills
    → Does world_trace
        (intercept_is_valid_path env)
        w
        (λ _ a. Intercepted env.nix_run_roots (env.fill fills) a)
        (Interrupted env.nix_run_roots (env.fill fills))
unfolding intercept_is_valid_path
Does-intercept_is_valid_path env fills w o k =
    Does-bind world_trace (Does-relay_is_valid_path_args env.texts w o)
      (λ a p. in_arguments p.0 p.1 p.2)
      λ path a w₁ e₁ h₁.
        let o₁ = Traded-IsOpen e₁ o in
        let k₁ = Traded-fills e₁ (ap (λ (x : Traffic). x.filled) h₁) ∙ k in
        Does-bind world_trace {F = λ _. ⊥} (Does-flush_host w₁) (λ b p. absurd p)
          λ _ b w₂ e₂ h₂.
            Does-mono world_trace _ _
              (λ _ c p.
                subst⁻¹
                  (λ (x : Traffic).
                    Intercepted env.nix_run_roots (env.fill fills) (together a (together x c)))
                  h₂ p)
              (λ c p.
                subst⁻¹
                  (λ (x : Traffic).
                    Interrupted env.nix_run_roots (env.fill fills) (together a (together x c)))
                  h₂ p)
              (Does-messages_and_answer env path fills a w₂ (Traded-IsOpen e₂ o₁)
                (Traded-fills e₂ (ap (λ (x : Traffic). x.filled) h₂) ∙ k₁) h₁)

abbrev pub word_sent : Traffic
word_sent = host_got (word (op_word is_valid_path))

-- Where both peers send nothing but bytes, the op has enough fuel. If it succeeds, the guest has sent
-- one path and the host was asked for it; the daemon's messages were passed on up to an error, or its
-- last one withheld; then the guest has a yes if the host said yes, and a no if the path must not be
-- filled or its fill failed; a path that may be filled is filled once, and only after the host's no,
-- and after a fill that succeeds the guest has a yes if the host's second answer is yes, and a no
-- otherwise. If it fails or waits, it has come to one of the points between these, with nothing filled but a path
-- that may be and that the host had denied; it ends in the fill only if the fill never ends.
pub serve_is_valid_path-decision :
    (env : Env) (w : World)
    → IsOpen w
    → Does world_trace
        (serve_is_valid_path env)
        w
        (λ next a.
          (next ≡ another)
          × (b : Traffic) × (a ≡ together word_sent b)
          × Intercepted env.nix_run_roots (env.fill w.fills) b)
        (λ a.
          (b : Traffic) × (a ≡ together word_sent b)
          × Interrupted env.nix_run_roots (env.fill w.fills) b)
unfolding serve_is_valid_path write_u64
serve_is_valid_path-decision env w o =
    Does-bind world_trace {F = λ _. ⊥}
      (Does-mono world_trace (λ _ b. b ≡ word_sent) (λ _. ⊥) (λ _ b p. p.1 ∙ ap host_got p.2)
        (λ b p. p.2)
        (Does-to_host (Puts-write_all {E = λ _. ⊥} (word (op_word is_valid_path)) w.host_out)))
      (λ a p. absurd p)
      λ _ a w₁ e₁ h₁.
        Does-bind world_trace
          (Does-intercept_is_valid_path env w.fills w₁ (Traded-IsOpen e₁ o)
            (Traded-fills e₁ (ap (λ (x : Traffic). x.filled) h₁)))
          (λ b p. (b, together_eq h₁ refl, p))
          λ _ b w₂ e₂ h₂.
            Does-bind world_trace {F = λ _. ⊥} (Does-flush_guest w₂) (λ c p. absurd p)
              λ _ c w₃ e₃ h₃. Does-pure world_trace another w₃ (
                refl,
                b,
                together_eq h₁ (together_eq refl (together_calm_after c h₃) ∙ together-calm b),
                h₂,
              )
  where
    together_calm_after : (c : Traffic) → c ≡ calm → together c calm ≡ calm
    together_calm_after c q = together-calm c ∙ q
