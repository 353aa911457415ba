-- ===== src/Proxy/Session/Dialling.antt =====
-- The host daemon is dialled only for a guest that has sent the magic of the protocol.
use claudepod.Prelude.{◌≡◌, refl, ap, ◌∙◌, ◌⊎◌, inl, inr, ◌++◌, Bytes, ascii}
use claudepod.Outcome.{
  M, Outcome, ok, err, pending, out_of_fuel, zoom, within, with_context, ◌>>=◌, continue,
}
use claudepod.Outcome.Trace.{Post, Post-map, Does, Does-mono, Does-with_context, Does-within}
use claudepod.Wire.Format.{word}
use claudepod.Wire.Reading.{IsReady}
use claudepod.Proxy.Handshake.{worker_magic_1, guest_magic}
use claudepod.Proxy.Handshake.Legs.{guest_magic-word}
use claudepod.Proxy.Session.{World, Env, handshake_timeout, from_guest, establish}
use claudepod.Proxy.Session.Rounds.{run}
use claudepod.Proxy.Session.Traffic.{Traffic, world_trace}
use claudepod.Proxy.Session.Halves.{Does-from_guest, guest_took}

-- The first step of `run`.
abbrev pub greet : M World (Unit {0})
greet = with_context (ascii "guest handshake") (within handshake_timeout (from_guest guest_magic))

pub Does-greet :
    (w : World)
    → IsReady w.guest_in
    → Does world_trace greet w
        (λ _ a. a ≡ guest_took (word worker_magic_1))
        (λ a. (t : Bytes) × (a ≡ guest_took t))
Does-greet w r = Does-with_context world_trace _ (
    Does-within world_trace _ (
      Does-mono world_trace _ _ (λ _ a p. p.1 ∙ ap guest_took p.2) (λ a p. (p.0, p.1))
        (Does-from_guest (guest_magic-word w.guest_in r))))

-- Nothing was dialled and nothing sent to a host.
pub record Untouched (w w' : World) : Type 0 where
  pub dials : w'.dials ≡ w.dials
  pub host_out : w'.host_out ≡ w.host_out

greet-Untouched : (w : World) → Untouched w (greet w).1
unfolding with_context within from_guest zoom
greet-Untouched w = record { dials = refl; host_out = refl }

-- What follows a first step that does not succeed does not happen.
after_first :
    {A B : Type 0} {X : Type 0} (r : Outcome (Unit {0})) (k : Unit {0} → M World A)
    (l : A → M World B) (w s : World)
    → Untouched w s
    → Post (λ (_ : Unit {0}) (_ : Unit {0}). X) (λ _. Unit {0}) r tt
    → Untouched w (continue (continue r k s).0 l (continue r k s).1).1 ⊎ X
after_first (ok a) k l w s u h = inr h
after_first (err e) k l w s u h = inl u
after_first pending k l w s u h = inl u
after_first out_of_fuel k l w s u h = inl u

-- For a guest that sends nothing but bytes, either the session has dialled no host daemon and sent
-- it nothing, or what the guest sends begins with the magic of the protocol.
pub run-word :
    (env : Env) (w : World)
    → IsReady w.guest_in
    → Untouched w (run env w).1
      ⊎ ((rest : Bytes) × (w.guest_in.bytes ≡ word worker_magic_1 ++ rest))
unfolding run establish ◌>>=◌
run-word env w r =
    let d = Does-greet w r in
    after_first (greet w).0 _ _ w (greet w).1 (greet-Untouched w) (
      Post-map _ _ (λ _ _. (rest : Bytes) × (w.guest_in.bytes ≡ word worker_magic_1 ++ rest))
        (λ _. Unit {0}) (greet w).0
        (λ x p. (
          (greet w).1.guest_in.bytes,
          d.evolves.guest_in.bytes
              ∙ ap (λ (a : Traffic). a.guest_taken ++ (greet w).1.guest_in.bytes) p,
        ))
        (λ e. tt) d.post)
