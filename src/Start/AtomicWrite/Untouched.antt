-- ===== src/Start/AtomicWrite/Untouched.antt =====
-- What the steps of an atomic write leave alone: all but the temporary file.
use claudepod.Prelude.{
  ◌≡◌, refl, ap, ◌∙◌, inl, inr, Option, none, some, false, List, [], ◌∷◌, ◌++◌, Bytes, ◌+◌, take,
  bytes_eq, All, All-append, Bool-cases, Option-cases,
}
use claudepod.Outcome.{Error, pure, rescue, ◌>>=◌}
use claudepod.Outcome.Trace.{Does, Does-bind, Does-fail, Does-mono}
use claudepod.Host.{Contents, put_at, Host, Faults, tick, call, remove_file, is_there}
use claudepod.Host.Changes.{host_trace, Torn}
use claudepod.Host.Log.{Change, apply, after}
use claudepod.Start.AtomicWrite.{ignoring, fsync_dir_best_effort, clean_up}

-- Every step is a change of this one file.
abbrev pub Only : Bytes → List Change → Type 0
Only path = All (λ (c : Change). (v : Option Bytes) × (c ≡ (path, v) ∷ []))

-- At the start, between the steps and at the end.
abbrev pub Always : (Contents → Type 0) → List Change → Contents → Type 0
Always P [] f = P f
Always P (c ∷ cs) f = P f × Always P cs (apply c f)

pub Always-append :
    (P : Contents → Type 0) (a b : List Change) (f : Contents)
    → Always P a f
    → Always P b (after a f)
    → Always P (a ++ b) f
Always-append P [] b f h k = k
Always-append P (c ∷ a) b f h k = (h.0, Always-append P a b (apply c f) h.1 k)

pub Always-map :
    (P Q : Contents → Type 0) (log : List Change) (f : Contents)
    → ((g : Contents) → P g → Q g)
    → Always P log f
    → Always Q log f
Always-map P Q [] f k h = k f h
Always-map P Q (c ∷ log) f k h = (k f h.0, Always-map P Q log (apply c f) k h.1)

pub Always-after :
    (P : Contents → Type 0) (log : List Change) (f : Contents) → Always P log f → P (after log f)
Always-after P [] f h = h
Always-after P (c ∷ log) f h = Always-after P log (apply c f) h.1

put_at_ne :
    (path q : Bytes) (v : Option Bytes) (f : Contents)
    → bytes_eq path q ≡ false
    → put_at path v f q ≡ f q
put_at_ne path q v f h = rw h refl

pub Always-Only :
    (path q : Bytes) (value : Option Bytes) (log : List Change) (f : Contents)
    → bytes_eq path q ≡ false
    → Only path log
    → f q ≡ value
    → Always (λ g. g q ≡ value) log f
Always-Only path q value [] f ne o h = h
Always-Only path q value (c ∷ log) f ne ((v, e), o) h = (
  h,
  Always-Only path q value log (apply c f) ne o
      (ap (λ (c : Change). apply c f q) e ∙ put_at_ne path q v f ne ∙ h),
)

pub Torn-Only : (path contents : Bytes) (log : List Change) → Torn path contents log → Only path log
Torn-Only path contents log (inl e) = rw e tt
Torn-Only path contents log (inr (n, e)) = rw e ((some (take n contents), refl), tt)

module _ (faults : Faults) where
  -- A cleaning call that fails is ignored.
  pub Does-ignoring_remove :
      (path : Bytes) (h : Host)
      → Does host_trace (ignoring (remove_file faults path)) h (λ _ log. Only path log) (λ _. ⊥)
  unfolding ignoring rescue remove_file call pure
  Does-ignoring_remove path h = elim (Option-cases (faults h.calls)) [
    | inl n ↦ elim (Bool-cases (is_there path (tick h))) [
      | inl e ↦ record {
        log = ((path, none) ∷ []) ∷ [];
        evolves = rw (n, e) (record { files = refl; past = refl });
        post = rw (n, e) ((none, refl), tt);
      }
      | inr e ↦ record {
        log = [];
        evolves = rw (n, e) (record { files = refl; past = refl });
        post = rw (n, e) tt;
      }
    ]
    | inr (f, q) ↦ record {
      log = [];
      evolves = rw q (record { files = refl; past = refl });
      post = rw q tt;
    }
  ]

  pub Does-fsync_dir_best_effort :
      (dir : Bytes) (h : Host)
      → Does host_trace (fsync_dir_best_effort faults dir) h (λ _ log. log ≡ []) (λ _. ⊥)
  unfolding ignoring rescue fsync_dir_best_effort call pure ◌>>=◌
  Does-fsync_dir_best_effort dir h = elim (Option-cases (faults h.calls)) [
    | inl n ↦ elim (Option-cases (faults (h.calls + 1))) [
      | inl m ↦ record {
        log = [];
        evolves = rw (n, m) (record { files = refl; past = refl });
        post = rw (n, m) refl;
      }
      | inr (f, q) ↦ record {
        log = [];
        evolves = rw (n, q) (record { files = refl; past = refl });
        post = rw (n, q) refl;
      }
    ]
    | inr (f, q) ↦ record {
      log = [];
      evolves = rw q (record { files = refl; past = refl });
      post = rw q refl;
    }
  ]

  pub Does-clean_up :
      (path : Bytes) (e : Error) (h : Host)
      → Does host_trace (clean_up faults path e) h (λ _ _. ⊥) (Only path)
  unfolding clean_up
  Does-clean_up path e h =
      Does-bind host_trace (Does-ignoring_remove path h) (λ log f. absurd f)
        λ _ a t ev o.
          Does-mono host_trace _ _ (λ _ b f. f) (λ b (q : b ≡ []). All-append _ a b o (rw q tt))
            (Does-fail host_trace {P = λ _ _. ⊥} {E = λ b. b ≡ []} e t refl)
