-- ===== src/Proxy/Session/Loop.antt =====
-- The op loop of session.rs, round by round.
use claudepod.Prelude.{
  true, ℕ, zero, suc, ◌≤◌, ◌<◌, ◌≡◌, refl, sym, ap, ◌∙◌, Option, none, some, List, [], ◌∷◌, ◌++◌,
  append-nil, append_assoc, Bytes, length, length-append, arith, All,
}
use claudepod.Outcome.{pure}
use claudepod.Outcome.Trace.{Does, Does-pure, Does-bind, Does-mono}
use claudepod.Wire.{Stream}
use claudepod.Wire.Format.{word}
use claudepod.Wire.Words.{length-le_bytes}
use claudepod.Proxy.Handshake.{Negotiated}
use claudepod.Proxy.Ops.{Op, is_valid_path, set_options, op_word, allowed}
use claudepod.Proxy.Ops.Allowlist.{allowed_iff}
use claudepod.Proxy.RunRoots.{NixRunRoots}
use claudepod.Proxy.Stderr.Frames.{proxy_error}
use claudepod.Proxy.Session.{World, Env}
use claudepod.Proxy.Session.Rounds.{Next, hung_up, another, serve_op, serve_word, op_round, op_loop}
use claudepod.Proxy.Session.Traffic.{
  Traffic, Traded, Traded-IsOpen, IsOpen, world_trace, together, together-calm, together_eq, calm,
}
use claudepod.Proxy.Session.Halves.{guest_took, Does-from_guest}
use claudepod.Proxy.Session.Mirrors.{relay_op-mirrors}
use claudepod.Proxy.Session.Decision.{serve_is_valid_path-decision}
use claudepod.Proxy.Stderr.Relay.{Passed-length}
use claudepod.Proxy.Session.Serving.{
  Asked, Spent, Reads-read_u64_or_eof, Served, options_swallowed, forwarded, path_answered, Ended,
  in_word, rejected, in_options, truncated, interrupted, Does-reject, Does-swallow_options,
}

-- A round of the loop.
abbrev pub Round : Option NixRunRoots → Negotiated → Stream → Next → Traffic → Type 0
Round roots n s hung_up a = (a ≡ calm) × Spent s
Round roots n s another a = Served roots n a

Does-serve_op :
    (env : Env) (n : Negotiated) (op : Op) (a₀ : Traffic) (w : World) (s : Stream)
    → IsOpen w
    → a₀ ≡ guest_took (word (op_word op))
    → Does world_trace
        (serve_op env n op)
        w
        (λ next a. Round env.nix_run_roots n s next (together a₀ a))
        (λ a. Ended env.nix_run_roots (together a₀ a))
unfolding serve_op
Does-serve_op env n set_options a₀ w s o q =
    Does-mono world_trace _ _ (λ next a p. rw p.0 (options_swallowed p.1 p.3 (together_eq q p.2)))
      (λ a p. in_options p.0 p.1 (together_eq q p.2)) (Does-swallow_options env n w o)
Does-serve_op env n is_valid_path a₀ w s o q =
    Does-mono world_trace _ _ (λ next a p. rw p.0 (path_answered _ p.1 p.3 (together_eq q p.2)))
      (λ a p. interrupted _ p.0 p.2 (together_eq q p.1)) (serve_is_valid_path-decision env w o)
Does-serve_op env n op a₀ w s o q =
    Does-mono world_trace _ _
      (λ next a p. rw p.0 (forwarded p.1 op a tt p.2 p.3 (together_eq q refl)))
      (λ a p. truncated op a tt p (together_eq q refl)) (relay_op-mirrors env n op w o)

Does-serve_word :
    (env : Env) (n : Negotiated) (v : ℕ) (found : Option Op) (a : Traffic) (w : World) (s : Stream)
    → IsOpen w
    → a ≡ guest_took (word v)
    → allowed v ≡ found
    → Does world_trace
        (serve_word env n v found)
        w
        (λ next b. Round env.nix_run_roots n s next (together a b))
        (λ b. Ended env.nix_run_roots (together a b))
unfolding serve_word
Does-serve_word env n v none a w s o q found =
    Does-mono world_trace _ _ (λ next b p. absurd p)
      (λ b p. rejected v p.0 found (
        together_eq q p.1 ∙ λ i. record calm {
          guest_taken = append-nil (word v) i;
          guest_put = proxy_error p.0;
        }))
      (Does-reject v w)
Does-serve_word env n v (some op) a w s o q found =
    Does-serve_op env n op a w s o
      (q ∙ ap (λ (x : ℕ). guest_took (word x)) (sym ((allowed_iff v op).0 found)))

-- Where both peers send nothing but bytes, a round of the op loop has enough fuel. If it succeeds,
-- the guest has hung up between ops, or one op was served: the options were read whole, answered with
-- the last marker and nothing of them sent to the host; a path was asked for; or one of the six other
-- ops was relayed with its arguments and its answer, a realisation with a path exactly if that feature
-- was agreed. If it fails or waits for a peer, the host was sent nothing unless the guest's word stood
-- for one of these seven ops.
pub op_round-served :
    (env : Env) (n : Negotiated) (w : World)
    → IsOpen w
    → Does world_trace
        (op_round env n)
        w
        (λ next a. Round env.nix_run_roots n w.guest_in next a)
        (Ended env.nix_run_roots)
unfolding op_round
op_round-served env n w o =
    Does-bind world_trace (Does-from_guest (Reads-read_u64_or_eof env.chunk w.guest_in o.0))
      (λ a p. in_word p.0 p.1) λ word a w₁ e₁ h₁. go word a w₁ (Traded-IsOpen e₁ o) (h₁.1) h₁.2
  where
    go :
        (found : Option ℕ) (a : Traffic) {t : Bytes} (w₁ : World)
        → IsOpen w₁
        → a ≡ guest_took t
        → Asked w.guest_in found t
        → Does world_trace
            (elim found [ none ↦ pure hung_up | some v ↦ serve_word env n v (allowed v) ])
            w₁
            (λ next b. Round env.nix_run_roots n w.guest_in next (together a b))
            (λ b. Ended env.nix_run_roots (together a b))
    go none a w₁ o₁ q p =
        Does-pure world_trace hung_up w₁ ((together-calm a ∙ q ∙ ap guest_took p.0, p.1))
    go (some v) a w₁ o₁ q p =
        Does-mono world_trace _ _ (λ next b h. h) (λ b h. h)
          (Does-serve_word env n v (allowed v) a w₁ w.guest_in o₁ (q ∙ ap guest_took p) refl)

abbrev pub total : List Traffic → Traffic
total [] = calm
total (x ∷ xs) = together x (total xs)

-- A session whose guest hung up between ops, with all taken that it sent, and one that ended in a
-- round.
pub record Finished (roots : Option NixRunRoots) (n : Negotiated) (s : Stream) (a : Traffic)
    : Type 0 where
  pub rounds : List Traffic
  pub served : All (Served roots n) rounds
  pub whole : a ≡ total rounds
  pub taken : s.bytes ≡ a.guest_taken
  pub closed : s.closed ≡ true

pub record Died (roots : Option NixRunRoots) (n : Negotiated) (a : Traffic) : Type 0 where
  pub rounds : List Traffic
  pub served : All (Served roots n) rounds
  pub end : Traffic
  pub ended : Ended roots end
  pub whole : a ≡ together (total rounds) end

together_assoc : (a b c : Traffic) → together (together a b) c ≡ together a (together b c)
together_assoc a b c = λ i. record {
  guest_taken = append_assoc a.guest_taken b.guest_taken c.guest_taken i;
  guest_put = append_assoc a.guest_put b.guest_put c.guest_put i;
  host_taken = append_assoc a.host_taken b.host_taken c.host_taken i;
  host_put = append_assoc a.host_put b.host_put c.host_put i;
  filled = append_assoc a.filled b.filled c.filled i;
}

word_first : (v : ℕ) (bs : Bytes) → 1 ≤ length (word v ++ bs)
word_first v bs = omega (arith, length-append (word v) bs, length-le_bytes 8 v)

Served-pos :
    (roots : Option NixRunRoots) (n : Negotiated) (a : Traffic)
    → Served roots n a
    → 1 ≤ length a.guest_taken
Served-pos roots n a (options_swallowed t h e) = rw e (word_first _ t)
Served-pos roots n a (forwarded f op b r x h e) = rw e (word_first _ _)
Served-pos roots n a (path_answered f b h e) = rw e (word_first _ _)

-- With more fuel than the guest still sends bytes, and where both peers send nothing but bytes, the
-- op loop has enough fuel. Its traffic is that of a number of served rounds, and it succeeds as the
-- guest hangs up between ops, with every byte taken that it sends; or it fails or waits for a peer in one more round.
pub op_loop-rounds :
    (env : Env) (n : Negotiated) (fuel : ℕ) (w : World)
    → IsOpen w
    → length w.guest_in.bytes < fuel
    → Does world_trace
        (op_loop env n fuel)
        w
        (λ _ a. Finished env.nix_run_roots n w.guest_in a)
        (Died env.nix_run_roots n)
unfolding op_loop
op_loop-rounds env n zero w o lt = absurd (omega arith)
op_loop-rounds env n (suc fuel) w o lt =
    Does-bind world_trace (op_round-served env n w o)
      (λ a h. record { rounds = []; served = tt; end = a; ended = h; whole = refl })
      λ next a w₁ e₁ h₁.
        go (λ w' o' lt'. op_loop-rounds env n fuel w' o' lt') next a w₁ (Traded-IsOpen e₁ o) e₁ h₁
  where
    go :
        ((w' : World)
          → IsOpen w'
          → length w'.guest_in.bytes < fuel
          → Does world_trace
              (op_loop env n fuel)
              w'
              (λ _ a. Finished env.nix_run_roots n w'.guest_in a)
              (Died env.nix_run_roots n))
        → (next : Next) (a : Traffic) (w₁ : World) → IsOpen w₁
        → Traded w a w₁
        → Round env.nix_run_roots n w.guest_in next a
        → Does world_trace
            (elim next [ hung_up ↦ pure tt | another ↦ op_loop env n fuel ])
            w₁
            (λ _ b. Finished env.nix_run_roots n w.guest_in (together a b))
            (λ b. Died env.nix_run_roots n (together a b))
    go loop hung_up a w₁ o₁ e₁ h = Does-pure world_trace tt w₁ (record {
      rounds = [];
      served = tt;
      whole = together-calm a ∙ h.0;
      taken = h.1.0 ∙ sym (ap (λ (x : Traffic). x.guest_taken) (together-calm a ∙ h.0));
      closed = h.1.1;
    })
    go loop another a w₁ o₁ e₁ h =
        Does-mono world_trace _ _
          (λ _ b f. record {
            rounds = a ∷ f.rounds;
            served = (h, f.served);
            whole = together_eq refl f.whole;
            taken = e₁.guest_in.bytes ∙ ap (λ (t : Bytes). a.guest_taken ++ t) f.taken;
            closed = e₁.guest_in.ending ∙ f.closed;
          })
          (λ b f. record {
            rounds = a ∷ f.rounds;
            served = (h, f.served);
            end = f.end;
            ended = f.ended;
            whole = together_eq refl f.whole ∙ sym (together_assoc a (total f.rounds) f.end);
          })
          (loop w₁ o₁
            (omega (arith, Served-pos env.nix_run_roots n a h, Passed-length _ _ _ e₁.guest_in)))
