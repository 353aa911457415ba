-- ===== src/Proxy/Session/Serving.antt =====
-- One round of the op loop in session.rs, by the op that the guest asks for.
use mathlib.Core.Path.{subst⁻¹, fun_ext}
use claudepod.Prelude.{
  ℕ, ◌≡◌, refl, sym, ap, ◌∙◌, Bool, true, false, if◌then◌else◌, Option, none, some, [], ◌∷◌, ◌++◌,
  append-nil, Bytes, ascii, length, take, take-append-drop, length-take, leb, leb→le, ◌==◌, ==_iff,
  Bool-cases, inl, inr, arith, All-take,
}
use claudepod.Outcome.{M, ok, err, pending, message}
use claudepod.Outcome.Trace.{
  Post, Does, Does-pure, Does-fail, Does-bind, Does-mono, Does-within, Does-rescue,
}
use claudepod.Wire.{Stream, IsByte, read_u64_or_eof}
use claudepod.Wire.Format.{word}
use claudepod.Wire.Words.{word_forth}
use claudepod.Wire.Reading.{IsReady, stream_trace}
use claudepod.Wire.Chunks.{word_result, read_u64_or_eof-word_result}
use claudepod.Wire.Writing.{write_u64-frame}
use claudepod.Proxy.Handshake.{Negotiated}
use claudepod.Proxy.Handshake.Features.{WithPath}
use claudepod.Proxy.Ops.{Op, is_valid_path, set_options, op_word, allowed, name}
use claudepod.Proxy.Ops.Payloads.{Settings, Relays-copy_args}
use claudepod.Proxy.RunRoots.{NixRunRoots}
use claudepod.Proxy.Stderr.{stderr_last}
use claudepod.Proxy.Stderr.Frames.{proxy_error}
use claudepod.Proxy.Session.{World, Answer, Env, args_timeout}
use claudepod.Proxy.Session.Rounds.{another, reject, swallow_options, relay_args}
use claudepod.Proxy.Session.Traffic.{
  Traffic, IsOpen, world_trace, together, together-calm, together_eq, calm,
}
use claudepod.Proxy.Session.Halves.{
  guest_took, guest_got, Does-guest_to_nowhere, Does-to_guest, Puts-write_all,
}
use claudepod.Proxy.Session.Mirrors.{Forwarded, Truncated, Does-refuse_args, Does-write_error}
use claudepod.Proxy.Session.Decision.{word_sent, Intercepted, Interrupted, Does-flush_guest}

-- The peer has sent all that it sends, and hung up.
abbrev pub Spent : Stream → Type 0
Spent s = (s.bytes ≡ []) × (s.closed ≡ true)

-- A word is there, or the guest has hung up between ops.
abbrev pub Asked : Stream → Option ℕ → Bytes → Type 0
Asked s none t = (t ≡ []) × Spent s
Asked s (some v) t = t ≡ word v

nothing_there : (bs : Bytes) → (length bs == 0) ≡ true → bs ≡ []
nothing_there [] h = refl
nothing_there (b ∷ bs) h = absurd (omega (arith, (==_iff _ 0).0 h))

Does-word_result :
    (s : Stream)
    → IsReady s
    → Does stream_trace (λ t. word_result t.bytes t.closed) s (Asked s) (λ _. Unit {0})
Does-word_result s r = elim (Bool-cases (leb 8 (length s.bytes))) [
  | inl e ↦ record {
    log = take 8 s.bytes;
    evolves = rw e (record { bytes = sym (take-append-drop 8 s.bytes); ending = refl });
    post = rw e (
        sym (
          word_forth (take 8 s.bytes) (All-take IsByte 8 s.bytes r)
            (length-take 8 s.bytes (leb→le 8 _ e))));
  }
  | inr e ↦ record {
    log = s.bytes;
    evolves = rw e (record { bytes = sym (append-nil _); ending = refl });
    post = rw e (short s.closed refl);
  }
]
  where
    short :
        (c : Bool)
        → s.closed ≡ c
        → Post
            (Asked s)
            (λ _. Unit {0})
            (if c
              then (if length s.bytes == 0
                  then ok none
                  else err (message (ascii "eof in the middle of a u64")))
              else pending)
            s.bytes
    short false q = tt
    short true q = elim (Bool-cases (length s.bytes == 0)) [
      | inl z ↦ rw z (nothing_there s.bytes z, (nothing_there s.bytes z, q))
      | inr z ↦ rw z tt
    ]

pub Reads-read_u64_or_eof :
    (chunk : ℕ → ℕ) (s : Stream)
    → IsReady s
    → Does stream_trace (read_u64_or_eof chunk) s (Asked s) (λ _. Unit {0})
Reads-read_u64_or_eof chunk s r =
    subst⁻¹ (λ (m : M Stream (Option ℕ)). Does stream_trace m s (Asked s) (λ _. Unit {0}))
      (fun_ext (read_u64_or_eof-word_result chunk)) (Does-word_result s r)

-- The ops that go to the host daemon as they are.
abbrev pub IsRelayed : Op → Type 0
IsRelayed set_options = ⊥
IsRelayed is_valid_path = ⊥
IsRelayed op = Unit {0}

-- A round that was served, after a handshake that agreed on `n`.
pub data Served (roots : Option NixRunRoots) (n : Negotiated) (a : Traffic) : Type 0 where
  options_swallowed :
      (t : Bytes)
      → Settings t
      → a ≡ record calm {
        guest_taken = word (op_word set_options) ++ t;
        guest_put = word stderr_last;
      }
      → Served roots n a
  forwarded :
      (feature : Bool) (op : Op) (b : Traffic)
      → IsRelayed op
      → WithPath n feature
      → Forwarded feature op b
      → a ≡ together (guest_took (word (op_word op))) b
      → Served roots n a
  path_answered :
      (fill : Bytes → Answer (Unit {0})) (b : Traffic)
      → Intercepted roots fill b
      → a ≡ together (guest_took (word (op_word is_valid_path))) (together word_sent b)
      → Served roots n a

-- A round that ends the session.
pub data Ended (roots : Option NixRunRoots) (a : Traffic) : Type 0 where
  in_word : (t : Bytes) → a ≡ guest_took t → Ended roots a
  rejected :
      (v : ℕ) (text : Bytes)
      → allowed v ≡ none
      → a ≡ record calm { guest_taken = word v; guest_put = proxy_error text }
      → Ended roots a
  in_options :
      (t x : Bytes)
      → a ≡ record calm { guest_taken = word (op_word set_options) ++ t; guest_put = x }
      → Ended roots a
  truncated :
      (op : Op) (b : Traffic)
      → IsRelayed op
      → Truncated op b
      → a ≡ together (guest_took (word (op_word op))) b
      → Ended roots a
  interrupted :
      (fill : Bytes → Answer (Unit {0})) (b : Traffic)
      → Interrupted roots fill b
      → a ≡ together (guest_took (word (op_word is_valid_path))) (together word_sent b)
      → Ended roots a

pub Does-reject :
    (v : ℕ) (w : World)
    → Does world_trace
        (reject v)
        w
        (λ _ _. ⊥)
        (λ a. (text : Bytes) × (a ≡ guest_got (proxy_error text)))
unfolding reject
Does-reject v w =
    Does-bind world_trace {F = λ _. ⊥} (Does-write_error _ w) (λ a h. absurd h)
      λ _ a w₁ e₁ h₁. Does-fail world_trace _ w₁ (_, together-calm a ∙ h₁)

-- Only the frame of the options matters: nothing of them goes anywhere.
pub Does-swallow_options :
    (env : Env) (n : Negotiated) (w : World)
    → IsOpen w
    → Does world_trace
        (swallow_options env n)
        w
        (λ next a.
          (next ≡ another)
          × (t : Bytes) × (a ≡ record calm { guest_taken = t; guest_put = word stderr_last })
          × Settings t)
        (λ a. (t : Bytes) × (x : Bytes) × (a ≡ record calm { guest_taken = t; guest_put = x }))
unfolding swallow_options relay_args
Does-swallow_options env n w o = simp write_u64-frame (
    Does-bind world_trace
      (Does-rescue world_trace
        (Does-within world_trace args_timeout (
          Does-mono world_trace (λ _ a. (t : Bytes) × (a ≡ guest_took t) × Settings t)
            (λ a. (t : Bytes) × (x : Bytes) × (a ≡ record calm { guest_taken = t; guest_put = x }))
            (λ _ a p. (p.0.taken, p.1, p.2.1)) (λ a p. (p.0.taken, [], p.1))
            (Does-guest_to_nowhere ((Relays-copy_args set_options n).at _ o.0))))
        (λ a p. p)
        λ e a w₁ e₁ h₁.
          Does-mono world_trace _ _ (λ _ b p. absurd p)
            (λ b p. (
              h₁.0,
              h₁.1 ++ proxy_error p.0,
              together_eq h₁.2 p.1 ∙ λ i. record calm {
                guest_taken = append-nil h₁.0 i;
                guest_put = h₁.1 ++ proxy_error p.0;
              },
            ))
            (Does-refuse_args env.texts (name set_options) e w₁))
      (λ a p. p)
      λ _ a w₁ e₁ h₁.
        Does-bind world_trace {F = λ _. ⊥}
          (Does-mono world_trace (λ _ b. b ≡ guest_got (word stderr_last)) (λ _. ⊥)
            (λ _ b p. p.1 ∙ ap guest_got p.2) (λ b p. p.2)
            (Does-to_guest (Puts-write_all {E = λ _. ⊥} (word stderr_last) w₁.guest_out)))
          (λ b p. absurd p)
          λ _ b w₂ e₂ h₂.
            Does-bind world_trace {F = λ _. ⊥} (Does-flush_guest w₂) (λ c p. absurd p)
              λ _ c w₃ e₃ h₃. Does-pure world_trace another w₃ (
                refl,
                h₁.0,
                together_eq h₁.1 (together_eq h₂ (together_calm_after c h₃)) ∙ (λ i. record calm {
                  guest_taken = append-nil h₁.0 i;
                  guest_put = append-nil (word stderr_last) i;
                }),
                h₁.2,
              ))
  where
    together_calm_after : (c : Traffic) → c ≡ calm → together c calm ≡ calm
    together_calm_after c q = together-calm c ∙ q
