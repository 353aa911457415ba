-- ===== src/Proxy/Session/Interception.antt =====
-- The interception of `IsValidPath` in session.rs: which answer the guest gets, what the host is
-- asked, and which path is filled.
use claudepod.Prelude.{
  ◌≡◌, refl, sym, ap, ◌∙◌, Bool, true, false, if◌then◌else◌, List, [], ◌∷◌, ◌++◌, append-nil, Bytes,
  ascii,
}
use claudepod.Outcome.{pure, rescue, render, ◌>>=◌, ◌>>◌, Error}
use claudepod.Outcome.Trace.{Does, Does-bind, Does-mono}
use claudepod.Proxy.Session.{World, Answer, given, failed, silent, Env, to_guest}
use claudepod.Proxy.Session.Rounds.{
  Recheck, valid, invalid, daemon_error, recheck_is_valid_path, write_is_valid_path_result,
  warn_on_demand_fill, fill_path, answer_recheck, fill_and_recheck,
}
use claudepod.Proxy.Session.Traffic.{
  Traffic, Traded, Traded-IsOpen, Traded-still, IsOpen, world_trace, together, together_eq, calm,
}
use claudepod.Proxy.Session.Halves.{guest_got}
use claudepod.Proxy.Session.Recheck.{
  question, result_frame, Does-answer, Does-warn, Says, asked_again, Does-recheck_is_valid_path,
}

-- The answer that a second answer of the host leads to.
abbrev pub second_answer : Recheck → Bool
second_answer valid = true
second_answer invalid = false
second_answer (daemon_error text) = false

-- The path was filled, and the host asked and read once more.
abbrev filled_and_asked : Bytes → Bytes → Bool → Traffic
filled_and_asked path t answer = record {
  guest_taken = [];
  guest_put = result_frame answer;
  host_taken = t;
  host_put = question path;
  filled = path ∷ [];
}

-- What comes of a fill: it fails, and the guest is told no; or it succeeds, and the host's second
-- answer counts.
pub data Filling (fill : Bytes → Answer (Unit {0})) (path : Bytes) (a : Traffic) : Type 0 where
  fill_failed :
      (error : Error)
      → fill path ≡ failed error
      → a ≡ record calm { guest_put = result_frame false; filled = path ∷ [] }
      → Filling fill path a
  rechecked :
      fill path ≡ given tt
      → (r : Recheck) (t : Bytes) → Says t r
      → a ≡ filled_and_asked path t (second_answer r)
      → Filling fill path a

-- A fill that does not come to an answer: it never ends, or it succeeds and the host has no second
-- answer.
pub data Stuck (fill : Bytes → Answer (Unit {0})) (path : Bytes) (a : Traffic) : Type 0 where
  in_fill : fill path ≡ silent → a ≡ record calm { filled = path ∷ [] } → Stuck fill path a
  in_recheck :
      fill path ≡ given tt
      → (t : Bytes)
      → a ≡ record calm { host_taken = t; host_put = question path; filled = path ∷ [] }
      → Stuck fill path a

abbrev fill_only : Bytes → Traffic
fill_only path = record calm { filled = path ∷ [] }

-- A warning leaves the answer to come.
Does-answer_recheck :
    (path : Bytes) (r : Recheck) (w : World) {E : Traffic → Type 0}
    → Does world_trace
        (answer_recheck path r)
        w
        (λ _ a. a ≡ guest_got (result_frame (second_answer r)))
        E
unfolding answer_recheck
Does-answer_recheck path valid w = Does-answer true w
Does-answer_recheck path invalid w =
    Does-bind world_trace {F = λ _. ⊥} (Does-warn path _ w) (λ a h. absurd h)
      λ _ a w₁ e₁ h₁. Does-mono world_trace _ _ (λ _ b p. rw h₁ p) (λ b p. p) (Does-answer false w₁)
Does-answer_recheck path (daemon_error text) w =
    Does-bind world_trace {F = λ _. ⊥} (Does-warn path _ w) (λ a h. absurd h)
      λ _ a w₁ e₁ h₁. Does-mono world_trace _ _ (λ _ b p. rw h₁ p) (λ b p. p) (Does-answer false w₁)

-- Whether a fill succeeded.
abbrev FillCame : Bool → Answer (Unit {0}) → Type 0
FillCame true r = r ≡ given tt
FillCame false r = (error : Error) × (r ≡ failed error)

-- The world after a fill, whatever came of it.
filled_once :
    {w : World} {path : Bytes} {warnings : List Bytes}
    → Traded w calm w
    → Traded w (fill_only path) (record w { fills = w.fills ++ (path ∷ []); warnings = warnings })
filled_once e = record {
  guest_in = e.guest_in;
  guest_out = e.guest_out;
  host_in = e.host_in;
  host_out = e.host_out;
  fills = refl;
}

-- The call of the fill, with its failure turned into a warning.
Does-try_fill :
    (env : Env) (path : Bytes) (fills : List Bytes) (w : World)
    → w.fills ≡ fills
    → Does world_trace
        (rescue (fill_path env path >> pure true) (λ e.
          warn_on_demand_fill path (ascii "fill failed: " ++ render env.texts e) >> pure false))
        w
        (λ b a. (a ≡ fill_only path) × FillCame b (env.fill fills path))
        (λ a. (a ≡ fill_only path) × (env.fill fills path ≡ silent))
unfolding fill_path rescue ◌>>=◌ pure warn_on_demand_fill
Does-try_fill env path fills w q = known (env.fill w.fills path) refl
  where
    came : {r : Answer (Unit {0})} → env.fill w.fills path ≡ r → env.fill fills path ≡ r
    came e = sym (ap (λ (before : List Bytes). env.fill before path) q) ∙ e

    known :
        (r : Answer (Unit {0}))
        → env.fill w.fills path ≡ r
        → Does world_trace
            (rescue (fill_path env path >> pure true) (λ e.
              warn_on_demand_fill path (ascii "fill failed: " ++ render env.texts e) >> pure false))
            w
            (λ b a. (a ≡ fill_only path) × FillCame b (env.fill fills path))
            (λ a. (a ≡ fill_only path) × (env.fill fills path ≡ silent))
    known (given u) e = record {
      log = fill_only path;
      evolves = rw e (filled_once (Traded-still w));
      post = rw e (refl, came e);
    }
    known (failed error) e = record {
      log = fill_only path;
      evolves = rw e (filled_once (Traded-still w));
      post = rw e (refl, (error, came e));
    }
    known silent e = record {
      log = fill_only path;
      evolves = rw e (filled_once (Traded-still w));
      post = rw e (refl, came e);
    }

asked_then :
    (path t : Bytes) (answer : Bool)
    → together (asked_again path t) (guest_got (result_frame answer))
      ≡ record calm { guest_put = result_frame answer; host_taken = t; host_put = question path }
asked_then path t answer = λ i. record calm {
  guest_put = result_frame answer;
  host_taken = append-nil t i;
  host_put = append-nil (question path) i;
}

-- From the fill to the answer.
pub Does-fill_and_recheck :
    (env : Env) (path : Bytes) (fills : List Bytes) (w : World)
    → IsOpen w
    → w.fills ≡ fills
    → Does world_trace
        (fill_and_recheck env path)
        w
        (λ _ a. Filling (env.fill fills) path a)
        (Stuck (env.fill fills) path)
unfolding fill_and_recheck
Does-fill_and_recheck env path fills w o q =
    Does-bind world_trace (Does-try_fill env path fills w q) (λ a e. in_fill e.1 e.0)
      λ b a w₁ e₁ h₁. go b a w₁ (Traded-IsOpen e₁ o) h₁.0 h₁.1
  where
    go :
        (b : Bool) (a : Traffic) (w₁ : World)
        → IsOpen w₁
        → a ≡ fill_only path
        → FillCame b (env.fill fills path)
        → Does world_trace
            (if b
              then (recheck_is_valid_path path >>= answer_recheck path)
              else to_guest (write_is_valid_path_result false))
            w₁
            (λ _ c. Filling (env.fill fills) path (together a c))
            (λ c. Stuck (env.fill fills) path (together a c))
    go false a w₁ o₁ h₁ (error, came) =
        Does-mono world_trace _ _ (λ _ c p. fill_failed error came (together_eq h₁ p))
          (λ c p. absurd p) (Does-answer false w₁ {E = λ _. ⊥})
    go true a w₁ o₁ h₁ came =
        Does-bind world_trace (Does-recheck_is_valid_path path w₁ o₁)
          (λ c p. in_recheck came p.0 (together_eq h₁ p.1))
          λ r c w₂ e₂ h₂.
            Does-mono world_trace _ _
              (λ _ e p.
                rechecked came r h₂.0 h₂.2
                  (together_eq h₁ (together_eq h₂.1 p ∙ asked_then path h₂.0 _)))
              (λ e p. absurd p) (Does-answer_recheck path r w₂ {E = λ _. ⊥})
