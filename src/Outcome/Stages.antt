-- ===== src/Outcome/Stages.antt =====
-- What an operation leaves behind it, by how it ends.
use claudepod.Prelude.{ℕ, Bool, true, false, Bytes, if◌then◌else◌}
use claudepod.Outcome.{
  Error, Outcome, ok, err, pending, out_of_fuel, M, pure, fail, continue, add_context, ensure,
  with_context, time_out, within, handle, rescue, ◌>>=◌,
}

-- What every state has.
abbrev pub Anyhow : {S : Type 0} → S → Type 0
Anyhow s = Unit {0}

abbrev pub Left :
    {S A : Type 0} → (S → Type 0) → (S → Type 0) → (S → Type 0) → Outcome A → S → Type 0
Left Ok Err Wait (ok x) s = Ok s
Left Ok Err Wait (err e) s = Err s
Left Ok Err Wait pending s = Wait s
Left Ok Err Wait out_of_fuel s = Unit {0}

pub record Leaves {S A : Type 0} (Pre Ok Err Wait : S → Type 0) (m : M S A) : Type 0 where
  pub at : (s : S) → Pre s → Left Ok Err Wait (m s).0 (m s).1

module _ {S A : Type 0} {Pre Ok Err Wait : S → Type 0} where
  pub Leaves-with_context :
      (text : Bytes) {m : M S A}
      → Leaves Pre Ok Err Wait m
      → Leaves Pre Ok Err Wait (with_context text m)
  unfolding with_context
  Leaves-with_context text {m} h = record { at = λ s p. same (m s).0 (m s).1 (h.at s p) }
    where
      same :
          (r : Outcome A) (s : S) → Left Ok Err Wait r s → Left Ok Err Wait (add_context text r) s
      same (ok x) s l = l
      same (err e) s l = l
      same pending s l = l
      same out_of_fuel s l = l

  -- A limit makes an error of a wait.
  pub Leaves-within :
      {Late : S → Type 0} (secs : ℕ) {m : M S A}
      → ((s : S) → Late s → Err s)
      → Leaves Pre Ok Err Late m
      → Leaves Pre Ok Err Wait (within secs m)
  unfolding within
  Leaves-within {Late} secs {m} late h = record { at = λ s p. same (m s).0 (m s).1 (h.at s p) }
    where
      same : (r : Outcome A) (s : S) → Left Ok Err Late r s → Left Ok Err Wait (time_out secs r) s
      same (ok x) s l = l
      same (err e) s l = l
      same pending s l = late s l
      same out_of_fuel s l = l

  pub Leaves-bind :
      {B : Type 0} {Mid : S → Type 0} {m : M S B} {f : B → M S A}
      → Leaves Pre Mid Err Wait m
      → ((x : B) → Leaves Mid Ok Err Wait (f x))
      → Leaves Pre Ok Err Wait (m >>= f)
  unfolding ◌>>=◌
  Leaves-bind {B} {Mid} {m} {f} h k = record { at = λ s p. go (m s).0 (m s).1 (h.at s p) }
    where
      go :
          (r : Outcome B) (s : S)
          → Left Mid Err Wait r s
          → Left Ok Err Wait (continue r f s).0 (continue r f s).1
      go (ok x) s l = (k x).at s l
      go (err e) s l = l
      go pending s l = l
      go out_of_fuel s l = l

  pub Leaves-rescue :
      {Mid : S → Type 0} {m : M S A} {f : Error → M S A}
      → Leaves Pre Ok Mid Wait m
      → ((e : Error) → Leaves Mid Ok Err Wait (f e))
      → Leaves Pre Ok Err Wait (rescue m f)
  unfolding rescue
  Leaves-rescue {Mid} {m} {f} h k = record { at = λ s p. go (m s).0 (m s).1 (h.at s p) }
    where
      go :
          (r : Outcome A) (s : S)
          → Left Ok Mid Wait r s
          → Left Ok Err Wait (handle f r s).0 (handle f r s).1
      go (err e) s l = (k e).at s l
      go (ok x) s l = l
      go pending s l = l
      go out_of_fuel s l = l

  pub Leaves-if :
      (b : Bool) {m n : M S A}
      → Leaves Pre Ok Err Wait m
      → Leaves Pre Ok Err Wait n
      → Leaves Pre Ok Err Wait (if b then m else n)
  Leaves-if true h k = h
  Leaves-if false h k = k

  pub Leaves-pure : (x : A) → ((s : S) → Pre s → Ok s) → Leaves Pre Ok Err Wait (pure x)
  unfolding pure
  Leaves-pure x f = record { at = f }

  pub Leaves-fail :
      (e : Error) → ((s : S) → Pre s → Err s) → Leaves Pre Ok Err Wait (fail {A = A} e)
  unfolding fail
  Leaves-fail e f = record { at = f }

  -- What an operation leaves whatever it does.
  pub Leaves-always :
      {m : M S A}
      → ((s : S) → Pre s → Ok (m s).1 × Err (m s).1 × Wait (m s).1)
      → Leaves Pre Ok Err Wait m
  Leaves-always {m} f = record { at = λ s p. go (m s).0 (m s).1 (f s p) }
    where
      go : (r : Outcome A) (s : S) → Ok s × Err s × Wait s → Left Ok Err Wait r s
      go (ok x) s l = l.0
      go (err e) s l = l.1
      go pending s l = l.2
      go out_of_fuel s l = tt

pub Leaves-ensure :
    {S : Type 0} {Pre Err Wait : S → Type 0} (b : Bool) (text : Bytes)
    → ((s : S) → Pre s → Err s)
    → Leaves Pre Pre Err Wait (ensure b text)
unfolding ensure pure fail
Leaves-ensure true text f = record { at = λ s p. p }
Leaves-ensure false text f = record { at = f }
