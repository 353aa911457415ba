-- ===== src/Wire/Verbatim.antt =====
-- Byte-identical relaying: what a copy takes from one peer it gives to the other, unchanged.
use claudepod.Prelude.{
  ℕ, zero, suc, ◌≤◌, List, ◌∷◌, length, All, leb→le, arith, ◌≡◌, refl, sym, ap, ◌∙◌, Bool, true, [],
  ◌++◌, append_assoc, append-nil, Bytes,
}
use claudepod.Outcome.{M, pure, ensure, with_context, ◌>>=◌}
use claudepod.Outcome.Trace.{Does, Does-pure, Does-bind, Does-ensure, Does-mono, Does-with_context}
use claudepod.Wire.{Stream, write_all, read_u64, read_string, write_u64, max_count}
use claudepod.Wire.Format.{word, string_frame, strings_frame, list_frame}
use claudepod.Wire.Copy.{
  Duplex, reading, writing, copy_u64, copy_string, copy_strings, copy_string_list,
}
use claudepod.Wire.Reading.{IsReady, Reads, Reads-read_u64, Reads-read_string}
use claudepod.Wire.Writing.{write_string-frame}
use claudepod.Wire.Moves.{Carried-IsReady, duplex_trace, Does-reading, Does-write_all}

-- `p` is a first part of `t`.
abbrev pub Starts : Bytes → Bytes → Type 0
Starts p t = (rest : Bytes) × (t ≡ p ++ rest)

pub Starts-append : (a p : Bytes) {t : Bytes} → Starts p t → Starts (a ++ p) (a ++ t)
Starts-append a p (rest, e) = (rest, ap (λ (r : Bytes). a ++ r) e ∙ sym (append_assoc a p rest))

-- A result comes with everything taken passed on, and what was taken is as `P` says; an error comes
-- with a first part of it passed on.
pub record Relays {A : Type 0} (P : A → Bytes → Type 0) (m : M Duplex A) : Type 0 where
  pub at :
      (d : Duplex)
      → IsReady d.input
      → Does duplex_trace m d (λ x a. (a.put ≡ a.taken) × P x a.taken) (λ a. Starts a.put a.taken)

module _ {A : Type 0} {P : A → Bytes → Type 0} where
  pub Relays-pure : (x : A) → P x [] → Relays P (pure x)
  Relays-pure x p = record { at = λ d r. Does-pure duplex_trace x d (refl, p) }

  pub Relays-with_context :
      (text : Bytes) {m : M Duplex A} → Relays P m → Relays P (with_context text m)
  Relays-with_context text h = record { at = λ d r. Does-with_context duplex_trace text (h.at d r) }

  pub Relays-mono :
      {Q : A → Bytes → Type 0} {m : M Duplex A}
      → ((x : A) (t : Bytes) → P x t → Q x t)
      → Relays P m
      → Relays Q m
  Relays-mono f h = record {
    at = λ d r. Does-mono duplex_trace _ _ (λ x a p. (p.0, f x a.taken p.1)) (λ a p. p) (h.at d r);
  }

  -- A test of what was read before.
  pub Relays-ensure :
      (b : Bool) (text : Bytes) {n : M Duplex A}
      → (b ≡ true → Relays P n)
      → Relays P (ensure b text >>= λ _. n)
  Relays-ensure b text h = record {
    at = λ d r. Does-ensure duplex_trace b text _ (λ _. ([], refl)) (λ q. (h q).at d r);
  }

-- What was read stands on the one side; its frame and the rest are still to be passed on.
Does-pass_on :
    {B : Type 0} (Q : B → Bytes → Type 0) (frame t₁ p₁ : Bytes) (n : M Duplex B) (d : Duplex)
    → IsReady d.input
    → t₁ ≡ frame
    → p₁ ≡ []
    → Relays (λ y u. Q y (t₁ ++ u)) n
    → Does duplex_trace
        (writing (write_all frame) >>= λ _. n)
        d
        (λ y a. (p₁ ++ a.put ≡ t₁ ++ a.taken) × Q y (t₁ ++ a.taken))
        (λ a. Starts (p₁ ++ a.put) (t₁ ++ a.taken))
Does-pass_on Q frame t₁ p₁ n d r t p rest =
    Does-bind duplex_trace {F = λ _. ⊥} (Does-write_all frame d) (λ a h. absurd h)
      λ _ a₂ d₂ e₂ h₂.
        Does-mono duplex_trace _ _
          (λ y a h. (rw (p, t, h₂.1, h₂.0) (ap (λ (u : Bytes). frame ++ u) h.0), rw h₂.0 (h.1)))
          (λ a h. rw (p, t, h₂.1, h₂.0) (Starts-append frame a.put h))
          (rest.at d₂ (Carried-IsReady e₂ r))

module _ {A B : Type 0} {Q : B → Bytes → Type 0} where
  -- A reader and the writer of what it returns, whatever comes of the value afterwards, perhaps with
  -- a test of the value in between.
  pub Relays-copy :
      (frame : A → Bytes) (P : A → Bytes → Type 0) (m : M Stream A) (f : A → M Duplex B)
      → Reads m P
      → ((x : A) (t : Bytes) → P x t → t ≡ frame x)
      → ((x : A) (t : Bytes) → P x t → Relays (λ y u. Q y (t ++ u)) (f x))
      → Relays Q (reading m >>= λ x. writing (write_all (frame x)) >>= λ _. f x)
  Relays-copy frame P m f reads exact rest = record {
    at = λ d r.
        Does-bind duplex_trace (Does-reading (reads d.input r)) (λ a h. (a.taken, rw h.1))
          λ x a₁ d₁ e₁ h₁.
            Does-pass_on Q (frame x) a₁.taken a₁.put (f x) d₁ (Carried-IsReady e₁ r)
              (exact x a₁.taken h₁.0) h₁.1 (rest x a₁.taken h₁.0);
  }

  pub Relays-checked :
      (frame : A → Bytes) (P : A → Bytes → Type 0) (b : A → Bool) (text : A → Bytes)
      (m : M Stream A) (f : A → M Duplex B)
      → Reads m P
      → ((x : A) (t : Bytes) → P x t → b x ≡ true → t ≡ frame x)
      → ((x : A) (t : Bytes) → P x t → b x ≡ true → Relays (λ y u. Q y (t ++ u)) (f x))
      → Relays Q (
          reading m >>= λ x.
          ensure (b x) (text x) >>= λ _. writing (write_all (frame x)) >>= λ _. f x)
  Relays-checked frame P b text m f reads exact rest = record {
    at = λ d r.
        Does-bind duplex_trace (Does-reading (reads d.input r)) (λ a h. (a.taken, rw h.1))
          λ x a₁ d₁ e₁ h₁.
            Does-ensure duplex_trace _ _ _ (λ _. (a₁.taken, rw (h₁.1, append-nil)))
              λ q.
                Does-pass_on Q (frame x) a₁.taken a₁.put (f x) d₁ (Carried-IsReady e₁ r)
                  (exact x a₁.taken h₁.0 q) h₁.1 (rest x a₁.taken h₁.0 q);
  }

pub Relays-bind :
    {A B : Type 0} {U : A → Bytes → Type 0} {Q : B → Bytes → Type 0} {m : M Duplex A}
    {f : A → M Duplex B}
    → Relays U m
    → ((x : A) (u : Bytes) → U x u → Relays (λ y t. Q y (u ++ t)) (f x))
    → Relays Q (m >>= f)
Relays-bind h k = record {
  at = λ d r.
      Does-bind duplex_trace (h.at d r) (λ a e. e)
        λ x a₁ d₁ e₁ h₁.
          Does-mono duplex_trace _ _ (λ y a p. (rw (h₁.0, p.0), p.1))
            (λ a p. rw (h₁.0) (Starts-append a₁.taken a.put p))
            ((k x a₁.taken h₁.1).at d₁ (Carried-IsReady e₁ r));
}

pub Relays-copy_u64 : Relays (λ v t. t ≡ word v) copy_u64
unfolding copy_u64 write_u64
Relays-copy_u64 =
    Relays-copy word _ read_u64 pure Reads-read_u64 (λ v t h. h.0)
      (λ v t h. Relays-pure v (append-nil t ∙ h.0))

pub Relays-copy_string :
    (max_len : ℕ)
    → Relays
        (λ _ t. (s : Bytes) × (t ≡ string_frame s) × (length s ≤ max_len))
        (copy_string max_len)
unfolding copy_string
Relays-copy_string max_len = simp write_string-frame (
    Relays-copy string_frame _ (read_string max_len) (λ _. pure tt) (Reads-read_string max_len)
      (λ v t h. h.0) (λ v t h. Relays-pure tt (v, append-nil t ∙ h.0, h.1)))

pub Relays-copy_strings :
    (max_len count : ℕ)
    → Relays
        (λ _ t.
          (ss : List Bytes) × (t ≡ strings_frame ss)
          × (length ss ≡ count)
          × All (λ (s : Bytes). length s ≤ max_len) ss)
        (copy_strings max_len count)
unfolding copy_strings strings_frame
Relays-copy_strings max_len zero = Relays-pure tt ([], refl, refl, tt)
Relays-copy_strings max_len (suc count) = Relays-bind (Relays-copy_string max_len) λ _ u h.
    Relays-mono (λ _ t k. (h.0 ∷ k.0, rw (h.1, k.1) refl, ap suc k.2, (h.2, k.3)))
      (Relays-copy_strings max_len count)

pub Relays-copy_string_list :
    (max_len : ℕ)
    → Relays
        (λ _ t.
          (ss : List Bytes) × (t ≡ list_frame ss)
          × (length ss ≤ max_count)
          × All (λ (s : Bytes). length s ≤ max_len) ss)
        (copy_string_list max_len)
unfolding copy_string_list write_u64 list_frame
Relays-copy_string_list max_len =
    Relays-checked word _ _ _ read_u64 (copy_strings max_len) Reads-read_u64 (λ v t h q. h.0)
      λ v t h q.
        Relays-mono
          (λ _ u k. (k.0, rw (h.0, k.1, k.2) refl, omega (arith, k.2, leb→le v max_count q), k.3))
          (Relays-copy_strings max_len v)
