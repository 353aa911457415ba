-- ===== src/Proxy/Session/Answers.antt =====
-- The answer to `IsValidPath` in session.rs, after the host's last message.
use claudepod.Prelude.{
  ℕ, ◌≡◌, refl, ap, ◌∙◌, true, false, not, if◌then◌else◌, append-nil, List, Bytes, ◌==◌, Bool-cases,
  inl, inr, ==_iff, Option,
}
use claudepod.Outcome.Trace.{Does, Does-bind, Does-mono, Does-with_context}
use claudepod.Wire.Format.{word}
use claudepod.Wire.Reading.{Reads-read_u64}
use claudepod.Proxy.RunRoots.{NixRunRoots}
use claudepod.Proxy.Stderr.{Terminal}
use claudepod.Proxy.Session.{World, Answer, Env, to_guest}
use claudepod.Proxy.Session.Rounds.{
  fillable, write_is_valid_path_result, fill_and_recheck, answer_is_valid_path,
}
use claudepod.Proxy.Session.Traffic.{
  Traffic, Traded-IsOpen, Traded-fills, IsOpen, world_trace, together, together_eq, calm,
}
use claudepod.Proxy.Session.Halves.{host_took, Does-from_host}
use claudepod.Proxy.Session.Recheck.{result_frame, Does-answer}
use claudepod.Proxy.Session.Interception.{Filling, Stuck, Does-fill_and_recheck}

-- The answer after the host's last message: the host's yes; its no for a path that must not be
-- filled; its no and a fill.
pub data Answered (roots : Option NixRunRoots) (fill : Bytes → Answer (Unit {0})) (path : Bytes)
    (a : Traffic) : Type 0 where
  host_says_valid :
      (v : ℕ)
      → (v == 0) ≡ false
      → a ≡ record calm { host_taken = word v; guest_put = result_frame true }
      → Answered roots fill path a
  not_fillable :
      fillable roots path ≡ false
      → a ≡ record calm { host_taken = word 0; guest_put = result_frame false }
      → Answered roots fill path a
  filling :
      (b : Traffic)
      → fillable roots path ≡ true
      → Filling fill path b
      → a ≡ together (host_took (word 0)) b
      → Answered roots fill path a

pub data Unanswered (roots : Option NixRunRoots) (fill : Bytes → Answer (Unit {0})) (path : Bytes)
    (a : Traffic) : Type 0 where
  unread : (t : Bytes) → a ≡ host_took t → Unanswered roots fill path a
  stuck :
      (b : Traffic)
      → fillable roots path ≡ true
      → Stuck fill path b
      → a ≡ together (host_took (word 0)) b
      → Unanswered roots fill path a

pub Does-answer_is_valid_path :
    (env : Env) (path : Bytes) (fills : List Bytes) (w : World)
    → IsOpen w
    → w.fills ≡ fills
    → Does world_trace
        (answer_is_valid_path env path Terminal.last)
        w
        (λ _ a. Answered env.nix_run_roots (env.fill fills) path a)
        (Unanswered env.nix_run_roots (env.fill fills) path)
unfolding answer_is_valid_path
Does-answer_is_valid_path env path fills w o k =
    Does-bind world_trace
      (Does-with_context world_trace _ (Does-from_host (Reads-read_u64 w.host_in o.1)))
      (λ a p. unread p.0 p.1)
      λ v a w₁ e₁ h₁.
        let q = h₁.1 ∙ ap host_took h₁.2.0 in
        go v a w₁ (Traded-IsOpen e₁ o) (Traded-fills e₁ (ap (λ (x : Traffic). x.filled) q) ∙ k) q
  where
    go :
        (v : ℕ) (a : Traffic) (w₁ : World)
        → IsOpen w₁
        → w₁.fills ≡ fills
        → a ≡ host_took (word v)
        → Does world_trace
            (if not (v == 0)
              then to_guest (write_is_valid_path_result true)
              else if not (fillable env.nix_run_roots path)
              then to_guest (write_is_valid_path_result false)
              else fill_and_recheck env path)
            w₁
            (λ _ b. Answered env.nix_run_roots (env.fill fills) path (together a b))
            (λ b. Unanswered env.nix_run_roots (env.fill fills) path (together a b))
    go v a w₁ o₁ k₁ q = elim (Bool-cases (v == 0)) [
      | inr z ↦
          rw (z, not)
            (Does-mono world_trace _ _
              (λ _ b p. host_says_valid v z (
                together_eq q p ∙ λ i. record calm {
                  host_taken = append-nil (word v) i;
                  guest_put = result_frame true;
                }))
              (λ b p. absurd p) (Does-answer true w₁ {E = λ _. ⊥}))
      | inl z ↦
          let q₀ = q ∙ ap (λ (x : ℕ). host_took (word x)) ((==_iff v 0).0 z) in
          elim (Bool-cases (fillable env.nix_run_roots path)) [
            | inl f ↦
                rw (z, not, f, not)
                  (Does-mono world_trace _ _ (λ _ b p. filling b f p (together_eq q₀ refl))
                    (λ b p. stuck b f p (together_eq q₀ refl))
                    (Does-fill_and_recheck env path fills w₁ o₁ k₁))
            | inr f ↦
                rw (z, not, f, not)
                  (Does-mono world_trace _ _
                    (λ _ b p. not_fillable f (
                      together_eq q₀ p ∙ λ i. record calm {
                        host_taken = append-nil (word 0) i;
                        guest_put = result_frame false;
                      }))
                    (λ b p. absurd p) (Does-answer false w₁ {E = λ _. ⊥}))
          ]
    ]
