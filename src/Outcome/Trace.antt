-- ===== src/Outcome/Trace.antt =====
-- Total correctness of operations by what they log: which bytes moved, which calls were made.
-- A component says once how its state evolves by a log entry; its operations are then specified
-- by the entry that they add, whatever the outcome, and `do` blocks by the rules below.
use claudepod.Prelude.{ℕ, Bool, true, false, ◌≡◌, refl, Bytes}
use claudepod.Outcome.{
  Error, Outcome, ok, err, pending, out_of_fuel, M, pure, fail, ensure, continue, add_context,
  with_context, time_out, within, handle, rescue, ◌>>=◌,
}

pub record Trace (S : Type 0) : Type 1 where
  pub Log : Type 0
  pub idle : Log
  pub after : Log → Log → Log
  pub Evolves : S → Log → S → Type 0
  pub Ready : S → Type 0
  pub still : (s : S) → Evolves s idle s
  pub follows : {s t u : S} {a b : Log} → Evolves s a t → Evolves t b u → Evolves s (after a b) u
  pub keeps : {s t : S} {a : Log} → Evolves s a t → Ready s → Ready t

-- What holds at the end: `P` of a result, `E` of an error or a wait, and no lack of fuel.
abbrev pub Post : {L A : Type 0} → (A → L → Type 0) → (L → Type 0) → Outcome A → L → Type 0
Post P E (ok x) a = P x a
Post P E (err e) a = E a
Post P E pending a = E a
Post P E out_of_fuel a = ⊥

pub Post-map :
    {L K A : Type 0} (P : A → L → Type 0) (E : L → Type 0) (Q : A → K → Type 0) (F : K → Type 0)
    (r : Outcome A) {a : L} {b : K}
    → ((x : A) → P x a → Q x b)
    → (E a → F b)
    → Post P E r a
    → Post Q F r b
Post-map P E Q F (ok x) f g h = f x h
Post-map P E Q F (err e) f g h = g h
Post-map P E Q F pending f g h = g h
Post-map P E Q F out_of_fuel f g h = h

module _ {S : Type 0} (tr : Trace S) where
  pub record Does {A : Type 0} (m : M S A) (s : S) (P : A → tr.Log → Type 0) (E : tr.Log → Type 0)
      : Type 0 where
    pub log : tr.Log
    pub evolves : tr.Evolves s log (m s).1
    pub post : Post P E (m s).0 log

  module _ {A : Type 0} {P : A → tr.Log → Type 0} {E : tr.Log → Type 0} where
    pub Does-pure : (x : A) (s : S) → P x tr.idle → Does (pure x) s P E
    unfolding pure
    Does-pure x s h = record { log = tr.idle; evolves = tr.still s; post = h }

    pub Does-fail : (e : Error) (s : S) → E tr.idle → Does {A = A} (fail e) s P E
    unfolding fail
    Does-fail e s h = record { log = tr.idle; evolves = tr.still s; post = h }

    -- A weaker claim about the same entry.
    pub Does-mono :
        {m : M S A} {s : S} (Q : A → tr.Log → Type 0) (F : tr.Log → Type 0)
        → ((x : A) (a : tr.Log) → P x a → Q x a)
        → ((a : tr.Log) → E a → F a)
        → Does m s P E
        → Does m s Q F
    Does-mono {m} {s} Q F f g d = record {
      log = d.log;
      evolves = d.evolves;
      post = Post-map P E Q F (m s).0 (λ x h. f x d.log h) (λ h. g d.log h) d.post;
    }

    pub Does-with_context :
        (text : Bytes) {m : M S A} {s : S} → Does m s P E → Does (with_context text m) s P E
    unfolding with_context
    Does-with_context text {m} {s} d = record {
      log = d.log;
      evolves = d.evolves;
      post = same (m s).0 d.post;
    }
      where
        same : (r : Outcome A) → Post P E r d.log → Post P E (add_context text r) d.log
        same (ok x) h = h
        same (err e) h = h
        same pending h = h
        same out_of_fuel h = h

    pub Does-within : (secs : ℕ) {m : M S A} {s : S} → Does m s P E → Does (within secs m) s P E
    unfolding within
    Does-within secs {m} {s} d = record {
      log = d.log;
      evolves = d.evolves;
      post = same (m s).0 d.post;
    }
      where
        same : (r : Outcome A) → Post P E r d.log → Post P E (time_out secs r) d.log
        same (ok x) h = h
        same (err e) h = h
        same pending h = h
        same out_of_fuel h = h

  -- The rule of `do`: what follows starts where the first part ended, and is told its result.
  pub Does-bind :
      {A B : Type 0} {P : A → tr.Log → Type 0} {F : tr.Log → Type 0} {Q : B → tr.Log → Type 0}
      {E : tr.Log → Type 0} {m : M S A} {f : A → M S B} {s : S}
      → Does m s P F
      → ((a : tr.Log) → F a → E a)
      → ((x : A) (a : tr.Log) (t : S)
          → tr.Evolves s a t
          → P x a
          → Does (f x) t (λ y b. Q y (tr.after a b)) (λ b. E (tr.after a b)))
      → Does (m >>= f) s Q E
  unfolding ◌>>=◌
  Does-bind {A} {B} {P} {F} {Q} {E} {m} {f} {s} d g k =
      let whole = go (m s).0 (m s).1 d.evolves d.post in
      record { log = whole.log; evolves = whole.evolves; post = whole.post }
    where
      go :
          (r : Outcome A) (t : S)
          → tr.Evolves s d.log t
          → Post P F r d.log
          → Does (λ _. continue r f t) s Q E
      go (ok x) t e h =
          let d' = k x d.log t e h in
          record {
            log = tr.after d.log d'.log;
            evolves = tr.follows e d'.evolves;
            post = Post-map _ _ Q E (f x t).0 (λ y p. p) (λ p. p) d'.post;
          }
      go (err x) t e h = record { log = d.log; evolves = e; post = g d.log h }
      go pending t e h = record { log = d.log; evolves = e; post = g d.log h }
      go out_of_fuel t e h = absurd h

  -- A test that fails ends the block; where it passes, what follows knows that it did.
  pub Does-ensure :
      {B : Type 0} {Q : B → tr.Log → Type 0} {E : tr.Log → Type 0} (b : Bool) (text : Bytes)
      (f : Unit {0} → M S B) {s : S}
      → (b ≡ false → E tr.idle)
      → (b ≡ true → Does (f tt) s Q E)
      → Does (ensure b text >>= f) s Q E
  unfolding ensure fail pure ◌>>=◌
  Does-ensure true text f e k =
      let d = k refl in record { log = d.log; evolves = d.evolves; post = d.post }
  Does-ensure false text f {s} e k = record { log = tr.idle; evolves = tr.still s; post = e refl }

  pub Does-ensure_last :
      {P : Unit {0} → tr.Log → Type 0} {E : tr.Log → Type 0} (b : Bool) (text : Bytes) {s : S}
      → (b ≡ false → E tr.idle)
      → (b ≡ true → P tt tr.idle)
      → Does (ensure b text) s P E
  unfolding ensure fail pure
  Does-ensure_last true text {s} e k = record { log = tr.idle; evolves = tr.still s; post = k refl }
  Does-ensure_last false text {s} e k = record {
    log = tr.idle;
    evolves = tr.still s;
    post = e refl;
  }

  -- A handler starts where the error arose; a wait has no handler.
  pub Does-rescue :
      {A : Type 0} {P : A → tr.Log → Type 0} {F E : tr.Log → Type 0} {m : M S A} {h : Error → M S A}
      {s : S}
      → Does m s P F
      → ((a : tr.Log) → F a → E a)
      → ((e : Error) (a : tr.Log) (t : S)
          → tr.Evolves s a t
          → F a
          → Does (h e) t (λ x b. P x (tr.after a b)) (λ b. E (tr.after a b)))
      → Does (rescue m h) s P E
  unfolding rescue
  Does-rescue {A} {P} {F} {E} {m} {h} {s} d g k =
      let whole = go (m s).0 (m s).1 d.evolves d.post in
      record { log = whole.log; evolves = whole.evolves; post = whole.post }
    where
      go :
          (r : Outcome A) (t : S)
          → tr.Evolves s d.log t
          → Post P F r d.log
          → Does (λ _. handle h r t) s P E
      go (err x) t e f =
          let d' = k x d.log t e f in
          record {
            log = tr.after d.log d'.log;
            evolves = tr.follows e d'.evolves;
            post = Post-map _ _ P E (h x t).0 (λ y p. p) (λ p. p) d'.post;
          }
      go (ok x) t e f = record { log = d.log; evolves = e; post = f }
      go pending t e f = record { log = d.log; evolves = e; post = g d.log f }
      go out_of_fuel t e f = absurd f
