-- ===== src/Proxy/Session/Mirrored.antt =====
-- What session.rs passes on unchanged between the guest and the host daemon.
use claudepod.Prelude.{◌≡◌, refl, ap, ◌∙◌, [], Bytes}
use claudepod.Outcome.{M, pure, with_context, ◌>>=◌}
use claudepod.Outcome.Trace.{Does, Does-pure, Does-bind, Does-mono, Does-with_context}
use claudepod.Wire.{flush}
use claudepod.Wire.Copy.{Duplex}
use claudepod.Wire.Reading.{IsReady}
use claudepod.Wire.Moves.{Moved, duplex_trace}
use claudepod.Wire.Verbatim.{Starts, Starts-append, Relays}
use claudepod.Proxy.Session.{World, to_guest, to_host, guest_to_host, host_to_guest}
use claudepod.Proxy.Session.Traffic.{Traffic, Traded-IsOpen, IsOpen, world_trace, together, calm}
use claudepod.Proxy.Session.Halves.{
  upward, downward, guest_got, host_got, Does-guest_to_host, Does-host_to_guest, Does-to_guest,
  Does-to_host, Puts-flush,
}

-- Everything was passed on, and nothing filled.
pub record Mirrored (a : Traffic) : Type 0 where
  pub up : a.host_put ≡ a.guest_taken
  pub down : a.guest_put ≡ a.host_taken
  pub filled : a.filled ≡ []

-- The host has a first part of what the guest sent, and nothing was filled.
pub record Cut (a : Traffic) : Type 0 where
  pub up : Starts a.host_put a.guest_taken
  pub filled : a.filled ≡ []

pub record Mirrors {A : Type 0} (V : A → Traffic → Type 0) (m : M World A) : Type 0 where
  pub at : (w : World) → IsOpen w → Does world_trace m w (λ x a. V x a × Mirrored a) Cut

pub Mirrored-calm : Mirrored calm
Mirrored-calm = record { up = refl; down = refl; filled = refl }

pub both-Mirrored : {a b : Traffic} → Mirrored a → Mirrored b → Mirrored (together a b)
both-Mirrored h k = record {
  up = rw (h.up, k.up);
  down = rw (h.down, k.down);
  filled = rw (h.filled, k.filled);
}

pub then-Cut : {a b : Traffic} → Mirrored a → Cut b → Cut (together a b)
then-Cut {a} {b} h k = record {
  up = rw h.up (Starts-append a.guest_taken b.host_put k.up);
  filled = rw (h.filled, k.filled);
}

module _ {A : Type 0} {V : A → Traffic → Type 0} where
  pub Mirrors-pure : (x : A) → V x calm → Mirrors V (pure x)
  Mirrors-pure x v = record { at = λ w o. Does-pure world_trace x w (v, Mirrored-calm) }

  pub Mirrors-with_context :
      (text : Bytes) {m : M World A} → Mirrors V m → Mirrors V (with_context text m)
  Mirrors-with_context text h = record { at = λ w o. Does-with_context world_trace text (h.at w o) }

pub Mirrors-bind :
    {A B : Type 0} {U : A → Traffic → Type 0} {V : B → Traffic → Type 0} {m : M World A}
    {f : A → M World B}
    → Mirrors U m
    → ((x : A) (b : Traffic) → U x b → Mirrors (λ y a. V y (together b a)) (f x))
    → Mirrors V (m >>= f)
Mirrors-bind h k = record {
  at = λ w o.
      Does-bind world_trace (h.at w o) (λ a e. e)
        λ x a w₁ e₁ h₁.
          Does-mono world_trace _ _ (λ y b p. (p.0, both-Mirrored h₁.1 p.1))
            (λ b p. then-Cut h₁.1 p) ((k x a h₁.0).at w₁ (Traded-IsOpen e₁ o));
}

pub Mirrors-guest_to_host :
    {A : Type 0} {P : A → Bytes → Type 0} {m : M Duplex A}
    → Relays P m
    → Mirrors (λ x a. (u : Moved) × (a ≡ upward u) × P x u.taken) (guest_to_host m)
Mirrors-guest_to_host h = record {
  at = λ w o.
      Does-mono world_trace _ _
        (λ x b p. ((p.0, p.1, p.2.1), rw p.1 (record { up = p.2.0; down = refl; filled = refl })))
        (λ b p. rw p.1 (record { up = p.2; filled = refl })) (Does-guest_to_host (h.at _ o.0));
}

-- What comes from the host: a result has been passed on whole.
pub Mirrors-host_to_guest :
    {A : Type 0} (P : A → Bytes → Type 0) {m : M Duplex A} {E : Moved → Type 0}
    → ((d : Duplex)
        → IsReady d.input
        → Does duplex_trace m d (λ x a. (a.put ≡ a.taken) × P x a.taken) E)
    → Mirrors (λ x a. (u : Moved) × (a ≡ downward u) × P x u.taken) (host_to_guest m)
Mirrors-host_to_guest P h = record {
  at = λ w o.
      Does-mono world_trace _ _
        (λ x b p. ((p.0, p.1, p.2.1), rw p.1 (record { up = refl; down = p.2.0; filled = refl })))
        (λ b p. rw p.1 (record { up = ([], refl); filled = refl })) (Does-host_to_guest (h _ o.1));
}

pub Mirrors-flush_host : Mirrors (λ _ a. a ≡ calm) (to_host flush)
Mirrors-flush_host = record {
  at = λ w o.
      Does-mono world_trace _ _
        (λ x b p. let q : b ≡ calm = p.1 ∙ ap host_got p.2 in (q, rw q Mirrored-calm))
        (λ b p. absurd p.2) (Does-to_host (Puts-flush {E = λ _. ⊥} w.host_out));
}

pub Mirrors-flush_guest : Mirrors (λ _ a. a ≡ calm) (to_guest flush)
Mirrors-flush_guest = record {
  at = λ w o.
      Does-mono world_trace _ _
        (λ x b p. let q : b ≡ calm = p.1 ∙ ap guest_got p.2 in (q, rw q Mirrored-calm))
        (λ b p. absurd p.2) (Does-to_guest (Puts-flush {E = λ _. ⊥} w.guest_out));
}
