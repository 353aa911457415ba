-- ===== src/Outcome/Ending.antt =====
-- Operations that end: where no peer keeps a connection open in silence, none of them waits.
use claudepod.Prelude.{ℕ, Bool, true, false, Bytes, if◌then◌else◌}
use claudepod.Outcome.{
  Error, Outcome, ok, err, pending, out_of_fuel, M, pure, fail, no_fuel, ensure, continue,
  add_context, with_context, time_out, within, handle, rescue, zoom, ◌>>=◌,
}

abbrev pub Ended : {A : Type 0} → Outcome A → Type 0
Ended (ok x) = Unit {0}
Ended (err e) = Unit {0}
Ended pending = ⊥
Ended out_of_fuel = Unit {0}

-- `Heard` says of a state that its peers have hung up, which an operation leaves so.
pub record Ends {S A : Type 0} (Heard : S → Type 0) (m : M S A) : Type 0 where
  pub at : (s : S) → Heard s → Ended (m s).0 × Heard (m s).1

module _ {S A : Type 0} {Heard : S → Type 0} where
  pub Ends-pure : (x : A) → Ends Heard (pure x)
  unfolding pure
  Ends-pure x = record { at = λ s h. (tt, h) }

  pub Ends-fail : (e : Error) → Ends Heard (fail {A = A} e)
  unfolding fail
  Ends-fail e = record { at = λ s h. (tt, h) }

  pub Ends-no_fuel : Ends Heard (no_fuel {A = A})
  unfolding no_fuel
  Ends-no_fuel = record { at = λ s h. (tt, h) }

  pub Ends-if :
      (b : Bool) (m n : M S A) → Ends Heard m → Ends Heard n → Ends Heard (if b then m else n)
  Ends-if true m n h k = h
  Ends-if false m n h k = k

  pub Ends-with_context :
      (text : Bytes) (m : M S A) → Ends Heard m → Ends Heard (with_context text m)
  unfolding with_context
  Ends-with_context text m h = record { at = λ s c. (same (m s).0 (h.at s c).0, (h.at s c).1) }
    where
      same : (r : Outcome A) → Ended r → Ended (add_context text r)
      same (ok x) e = tt
      same (err x) e = tt
      same pending e = e
      same out_of_fuel e = tt

  pub Ends-within : (secs : ℕ) (m : M S A) → Ends Heard m → Ends Heard (within secs m)
  unfolding within
  Ends-within secs m h = record { at = λ s c. (same (m s).0, (h.at s c).1) }
    where
      same : (r : Outcome A) → Ended (time_out secs r)
      same (ok x) = tt
      same (err x) = tt
      same pending = tt
      same out_of_fuel = tt

  pub Ends-rescue :
      (m : M S A) (k : Error → M S A)
      → Ends Heard m
      → ((e : Error) → Ends Heard (k e))
      → Ends Heard (rescue m k)
  unfolding rescue
  Ends-rescue m k h g = record { at = λ s c. go (m s).0 (m s).1 (h.at s c).0 (h.at s c).1 }
    where
      go :
          (r : Outcome A) (t : S)
          → Ended r
          → Heard t
          → Ended (handle k r t).0 × Heard (handle k r t).1
      go (err x) t e c = (g x).at t c
      go (ok x) t e c = (tt, c)
      go pending t e c = absurd e
      go out_of_fuel t e c = (tt, c)

  pub Ends-zoom :
      {T : Type 0} {Part : T → Type 0} (get : S → T) (put : T → S → S) (m : M T A)
      → ((s : S) → Heard s → Part (get s))
      → ((s : S) (t : T) → Heard s → Part t → Heard (put t s))
      → Ends Part m
      → Ends Heard (zoom get put m)
  unfolding zoom
  Ends-zoom get put m f g h = record {
    at = λ s c. let e = h.at (get s) (f s c) in (e.0, g s _ c e.1);
  }

pub Ends-bind :
    {S A B : Type 0} {Heard : S → Type 0} (m : M S A) (f : A → M S B)
    → Ends Heard m
    → ((x : A) → Ends Heard (f x))
    → Ends Heard (m >>= f)
unfolding ◌>>=◌
Ends-bind {S} {A} {B} {Heard} m f h k = record {
  at = λ s c. go (m s).0 (m s).1 (h.at s c).0 (h.at s c).1;
}
  where
    go :
        (r : Outcome A) (t : S)
        → Ended r
        → Heard t
        → Ended (continue r f t).0 × Heard (continue r f t).1
    go (ok x) t e c = (k x).at t c
    go (err x) t e c = (tt, c)
    go pending t e c = absurd e
    go out_of_fuel t e c = (tt, c)

pub Ends-ensure :
    {S : Type 0} {Heard : S → Type 0} (b : Bool) (text : Bytes) → Ends Heard (ensure b text)
unfolding ensure pure fail
Ends-ensure true text = record { at = λ s h. (tt, h) }
Ends-ensure false text = record { at = λ s h. (tt, h) }

-- The rules by which `search` walks a `do` block.
pub ruleset end_rules = (
  Ends-pure, Ends-fail, Ends-no_fuel, Ends-if, Ends-with_context, Ends-within, Ends-rescue,
  Ends-bind, Ends-ensure,
)
