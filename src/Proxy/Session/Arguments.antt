-- ===== src/Proxy/Session/Arguments.antt =====
-- The arguments of an intercepted `IsValidPath` of session.rs, on their way to the host daemon.
use claudepod.Prelude.{◌≡◌, refl, ap, ◌∙◌, [], append-nil, Bytes}
use claudepod.Outcome.{LibraryError}
use claudepod.Outcome.Trace.{Does, Does-pure, Does-bind, Does-mono, Does-within, Does-rescue}
use claudepod.Wire.{max_guest_string}
use claudepod.Wire.Copy.{Duplex}
use claudepod.Wire.Format.{string_frame}
use claudepod.Wire.Reading.{IsReady, Reads-read_string}
use claudepod.Wire.Writing.{write_string-frame}
use claudepod.Wire.Moves.{Moved, duplex_trace, Does-reading, Does-write_all}
use claudepod.Proxy.Stderr.Frames.{proxy_error}
use claudepod.Proxy.Session.{World, args_timeout}
use claudepod.Proxy.Session.Rounds.{copy_path, relay_is_valid_path_args}
use claudepod.Proxy.Session.Traffic.{Traffic, IsOpen, world_trace, together_eq, calm}
use claudepod.Proxy.Session.Halves.{guest_took, upward, Does-guest_to_host}
use claudepod.Proxy.Session.Mirrors.{Does-refuse_args}

-- The arguments on their way.
abbrev pub path_sent : Bytes → Traffic
path_sent path = record calm { guest_taken = string_frame path; host_put = string_frame path }

Does-copy_path :
    (d : Duplex)
    → IsReady d.input
    → Does duplex_trace copy_path d
        (λ path a. (a.taken ≡ string_frame path) × (a.put ≡ string_frame path))
        (λ a. a.put ≡ [])
unfolding copy_path
Does-copy_path d r = simp write_string-frame (
    Does-bind duplex_trace (Does-reading (Reads-read_string max_guest_string d.input r))
      (λ a p. p.1)
      λ path a d₁ e₁ h₁.
        Does-bind duplex_trace {F = λ _. ⊥} (Does-write_all (string_frame path) d₁)
          (λ b p. absurd p)
          λ _ b d₂ e₂ h₂.
            Does-pure duplex_trace path d₂
              (rw (h₁.0.0, h₂.0, append-nil) refl, rw (h₁.1, h₂.1, append-nil) refl))

pub Does-relay_is_valid_path_args :
    (texts : LibraryError → Bytes) (w : World)
    → IsOpen w
    → Does world_trace
        (relay_is_valid_path_args texts)
        w
        (λ path a. a ≡ path_sent path)
        (λ a. (t : Bytes) × (x : Bytes) × (a ≡ record calm { guest_taken = t; guest_put = x }))
unfolding relay_is_valid_path_args
Does-relay_is_valid_path_args texts w o =
    Does-rescue world_trace
      (Does-within world_trace args_timeout (
        Does-mono world_trace (λ path a. a ≡ path_sent path) (λ a. (t : Bytes) × (a ≡ guest_took t))
          (λ path a p. p.1 ∙ ap upward (moved p.2.0 p.2.1))
          (λ a p. (p.0.taken, p.1 ∙ ap upward (moved refl p.2)))
          (Does-guest_to_host (Does-copy_path _ o.0))))
      (λ a p. (p.0, [], p.1))
      λ e a w₁ e₁ h₁.
        Does-mono world_trace _ _ (λ _ b p. absurd p)
          (λ b p. (
            h₁.0,
            proxy_error p.0,
            together_eq h₁.1 p.1 ∙ λ i. record calm {
              guest_taken = append-nil h₁.0 i;
              guest_put = proxy_error p.0;
            },
          ))
          (Does-refuse_args texts _ e w₁)
  where
    moved : {a : Moved} {t p : Bytes} → a.taken ≡ t → a.put ≡ p → a ≡ record { taken = t; put = p }
    moved x y = λ i. record { taken = x i; put = y i }
