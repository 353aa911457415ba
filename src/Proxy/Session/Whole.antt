-- ===== src/Proxy/Session/Whole.antt =====
-- A whole session of session.rs, from its first byte to its end.
use claudepod.Prelude.{
  ◌≡◌, ◌⊎◌, ◌∙◌, ◌++◌, ap, true, inl, inr, refl, Option, suc, Bytes, length, arith,
}
use claudepod.Outcome.Trace.{Does, Does-bind, Does-mono}
use claudepod.Proxy.Handshake.{Negotiated}
use claudepod.Wire.{Stream}
use claudepod.Proxy.RunRoots.{NixRunRoots}
use claudepod.Proxy.Session.{World, Env}
use claudepod.Proxy.Session.Rounds.{op_loop, run}
use claudepod.Proxy.Session.Traffic.{Traffic, Traded, Traded-IsOpen, IsOpen, world_trace, together}
use claudepod.Proxy.Session.Opening.{Fresh, Settled, Unsettled, establish-Settled}
use claudepod.Proxy.Session.Loop.{Finished, Died, op_loop-rounds}

-- The handshake, and served rounds up to the guest's end: all is taken that the guest sent.
pub record Completed (roots : Option NixRunRoots) (s : Stream) (a : Traffic) : Type 0 where
  pub rest : Stream
  pub negotiated : Negotiated
  pub opening : Traffic
  pub rounds : Traffic
  pub settled : Settled negotiated opening
  pub finished : Finished roots negotiated rest rounds
  pub whole : a ≡ together opening rounds
  pub taken : s.bytes ≡ a.guest_taken
  pub closed : s.closed ≡ true

-- The handshake, and a round that was not served.
pub record Aborted (roots : Option NixRunRoots) (a : Traffic) : Type 0 where
  pub negotiated : Negotiated
  pub opening : Traffic
  pub rounds : Traffic
  pub settled : Settled negotiated opening
  pub died : Died roots negotiated rounds
  pub whole : a ≡ together opening rounds

-- Where both peers send nothing but bytes, and the host daemon's connection starts with what dialling
-- gives and nothing written, a session has enough fuel. If it succeeds, its traffic is that of a
-- settled handshake and of a number of served rounds, and every byte is taken that the guest sends
-- before it hangs up; if it fails or waits, it is that of an unsettled
-- handshake, or that of a settled one, of a number of served rounds and of one more that was not.
pub run-Completed :
    (env : Env) (w : World)
    → IsOpen w
    → Fresh env.connect w
    → Does world_trace
        (run env)
        w
        (λ _ a. Completed env.nix_run_roots w.guest_in a)
        (λ a. Unsettled a ⊎ Aborted env.nix_run_roots a)
unfolding run
run-Completed env w o f =
    Does-bind world_trace (establish-Settled env w o f) (λ a h. inl h)
      λ n a w₁ e₁ h₁.
        let d = rounds n a w₁ e₁ h₁ (Traded-IsOpen e₁ o) in
        record { log = d.log; evolves = d.evolves; post = d.post }
  where
    rounds :
        (n : Negotiated) (a : Traffic) (w₁ : World)
        → Traded w a w₁
        → Settled n a
        → IsOpen w₁
        → Does world_trace
            (op_loop env n (suc (length w₁.guest_in.bytes)))
            w₁
            (λ _ b. Completed env.nix_run_roots w.guest_in (together a b))
            (λ b. Unsettled (together a b) ⊎ Aborted env.nix_run_roots (together a b))
    rounds n a w₁ e h o₁ =
        Does-mono world_trace _ _
          (λ _ b p. record {
            negotiated = n;
            opening = a;
            rounds = b;
            settled = h;
            rest = w₁.guest_in;
            finished = p;
            whole = refl;
            taken = e.guest_in.bytes ∙ ap (λ (t : Bytes). a.guest_taken ++ t) p.taken;
            closed = e.guest_in.ending ∙ p.closed;
          })
          (λ b p. inr (record {
            negotiated = n;
            opening = a;
            rounds = b;
            settled = h;
            died = p;
            whole = refl;
          }))
          (op_loop-rounds env n (suc (length w₁.guest_in.bytes)) w₁ o₁ (omega arith))
