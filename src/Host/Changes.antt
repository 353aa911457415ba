-- ===== src/Host/Changes.antt =====
-- What system calls change: the steps by which the contents of files evolve.
use claudepod.Host.Log.{Change, Changed, Changed-follows}
use claudepod.Prelude.{
  ℕ, ◌≡◌, refl, ◌⊎◌, inl, inr, none, some, List, [], ◌∷◌, ◌++◌, Bytes, take, Bool-cases,
  Option-cases,
}
use claudepod.Outcome.{Outcome}
use claudepod.Outcome.Trace.{Trace, Does, Post}
use claudepod.Host.{
  Host, Faults, tick, settled, call, write_file, remove_file, create_new, rename, read_file,
  is_there,
}

abbrev pub host_trace : Trace Host
host_trace = record {
  Log = List Change;
  idle = [];
  after = λ a b. a ++ b;
  Evolves = Changed;
  Ready = λ _. Unit {0};
  still = λ h. record { files = refl; past = refl };
  follows = Changed-follows;
  keeps = λ _ r. r;
}

module _ {A : Type 0} (faults : Faults) where
  -- A call that fails has changed nothing; else its effect counts.
  pub Does-call :
      (effect : Host → Outcome A × Host) (h : Host) {P : A → List Change → Type 0}
      {E : List Change → Type 0}
      → E []
      → Does host_trace effect (tick h) P E
      → Does host_trace (call faults effect) h P E
  unfolding call
  Does-call effect h {P} {E} e d = elim (Option-cases (faults h.calls)) [
    | inl n ↦ record {
      log = d.log;
      evolves = rw n (record { files = (d.evolves).files; past = (d.evolves).past });
      post = rw n d.post;
    }
    | inr (f, q) ↦ record {
      log = [];
      evolves = rw q (record { files = refl; past = refl });
      post = rw q e;
    }
  ]

-- Nothing but a first part of the bytes, if anything, where the write fails.
abbrev pub Torn : Bytes → Bytes → List Change → Type 0
Torn path contents log = (log ≡ []) ⊎ ((n : ℕ) × (log ≡ ((path, some (take n contents)) ∷ []) ∷ []))

module _ (faults : Faults) where
  -- A call that changes no file.
  pub Does-still :
      {A : Type 0} (r : Host → Outcome A) (h : Host) {P : A → List Change → Type 0}
      → Post P (λ log. log ≡ []) (r (tick h)) []
      → Does host_trace (call faults (λ h. (r h, h))) h P (λ log. log ≡ [])
  Does-still r h p =
      Does-call faults _ h refl
        (record { log = []; evolves = record { files = refl; past = refl }; post = p })

  pub Does-write_file :
      (path contents : Bytes) (h : Host)
      → Does host_trace
          (write_file faults path contents)
          h
          (λ _ log. log ≡ ((path, some contents) ∷ []) ∷ [])
          (Torn path contents)
  unfolding write_file
  Does-write_file path contents h = elim (Option-cases (faults h.calls)) [
    | inl n ↦ record {
      log = ((path, some contents) ∷ []) ∷ [];
      evolves = rw n (record { files = refl; past = refl });
      post = rw n refl;
    }
    | inr (f, q) ↦ elim (Option-cases (f.written)) [
      | inl w ↦ record {
        log = [];
        evolves = rw (q, w) (record { files = refl; past = refl });
        post = rw q (inl refl);
      }
      | inr (n, w) ↦ record {
        log = ((path, some (take n contents)) ∷ []) ∷ [];
        evolves = rw (q, w) (record { files = refl; past = refl });
        post = rw q (inr (n, refl));
      }
    ]
  ]

  pub Does-remove_file :
      (path : Bytes) (h : Host)
      → Does host_trace
          (remove_file faults path)
          h
          (λ _ log. log ≡ ((path, none) ∷ []) ∷ [])
          (λ log. log ≡ [])
  unfolding remove_file
  Does-remove_file path h = Does-call faults _ h refl (elim (Bool-cases (is_there path (tick h))) [
    | inl e ↦ record {
      log = ((path, none) ∷ []) ∷ [];
      evolves = rw e (record { files = refl; past = refl });
      post = rw e refl;
    }
    | inr e ↦ record {
      log = [];
      evolves = rw e (record { files = refl; past = refl });
      post = rw e refl;
    }
  ])

  pub Does-create_new :
      (path : Bytes) (h : Host)
      → Does host_trace
          (create_new faults path)
          h
          (λ _ log. log ≡ ((path, some []) ∷ []) ∷ [])
          (λ log. log ≡ [])
  unfolding create_new
  Does-create_new path h = Does-call faults _ h refl (elim (Bool-cases (is_there path (tick h))) [
    | inl e ↦ record {
      log = [];
      evolves = rw e (record { files = refl; past = refl });
      post = rw e refl;
    }
    | inr e ↦ record {
      log = ((path, some []) ∷ []) ∷ [];
      evolves = rw e (record { files = refl; past = refl });
      post = rw e refl;
    }
  ])

  pub Does-rename :
      (old new contents : Bytes) (h : Host)
      → h.files old ≡ some contents
      → Does host_trace
          (rename faults old new)
          h
          (λ _ log. log ≡ ((old, none) ∷ (new, some contents) ∷ []) ∷ [])
          (λ log. log ≡ [])
  unfolding rename
  Does-rename old new contents h e = Does-call faults _ h refl (record {
    log = ((old, none) ∷ (new, some contents) ∷ []) ∷ [];
    evolves = rw e (record { files = refl; past = refl });
    post = rw e refl;
  })

  -- What is read is what is there.
  pub Does-read_file :
      (path : Bytes) (h : Host)
      → Does host_trace
          (read_file faults path)
          h
          (λ c log. (log ≡ []) × (h.files path ≡ some c))
          (λ log. log ≡ [])
  unfolding read_file
  Does-read_file path h = Does-call faults _ h refl (elim (Option-cases (h.files path)) [
    | inl n ↦ record {
      log = [];
      evolves = rw n (record { files = refl; past = refl });
      post = rw n refl;
    }
    | inr (c, q) ↦ record {
      log = [];
      evolves = rw q (record { files = refl; past = refl });
      post = rw q (refl, refl);
    }
  ])

pub Does-settled :
    {A : Type 0} (r : Outcome A) (h : Host) {P : A → List Change → Type 0}
    {E : List Change → Type 0}
    → Post P E r []
    → Does host_trace (settled r) h P E
unfolding settled
Does-settled r h p = record { log = []; evolves = record { files = refl; past = refl }; post = p }
