-- ===== src/Proxy/Session/Opening.antt =====
-- `run` of session.rs up to the op loop.
use claudepod.Prelude.{◌≡◌, ◌⊎◌, inl, inr, refl, sym, ◌∙◌, ℕ, [], ◌++◌, append-nil, Bytes, ascii}
use claudepod.Outcome.{M, with_context, ◌>>=◌}
use claudepod.Outcome.Trace.{Does, Does-bind, Does-mono, Does-with_context}
use claudepod.Wire.{Stream, Sink}
use claudepod.Wire.Format.{word}
use claudepod.Wire.Reading.{Passed}
use claudepod.Wire.Writing.{written}
use claudepod.Wire.Moves.{Moved, duplex_trace}
use claudepod.Wire.Verbatim.{Starts}
use claudepod.Proxy.Handshake.{Negotiated, worker_magic_1, upstream}
use claudepod.Proxy.Handshake.Legs.{hello, upstream-Agreed}
use claudepod.Proxy.Handshake.Guest.{welcome}
use claudepod.Proxy.Session.{World, Answer, Env, given, failed, silent, with_host, dial, establish}
use claudepod.Proxy.Session.Traffic.{
  Traffic, Traded, Traded-IsOpen, still_in, IsOpen, world_trace, together, together_eq, calm,
}
use claudepod.Proxy.Session.Halves.{guest_took}
use claudepod.Proxy.Session.Pairs.{with_the_guest, with_the_host, Does-with_host}
use claudepod.Proxy.Session.Mirrored.{Mirrored}
use claudepod.Proxy.Session.Dialling.{Does-greet}
use claudepod.Proxy.Session.Greeting.{
  Accepted, Does-guest_steps, Greeted, Negotiates, Welcomed, Starts-more, guest_steps,
}

-- What a session has done that ends before the op loop: it fills nothing, the host daemon is sent
-- something only behind the guest's magic, and the proxy's hello first; the guest is told something
-- only once a version was agreed with the host daemon, and that version first.
pub record Unsettled (a : Traffic) : Type 0 where
  pub filled : a.filled ≡ []
  pub asked :
      (a.host_put ≡ []) ⊎ Starts hello a.host_put × Starts (word worker_magic_1) a.guest_taken
  pub told :
      (a.guest_put ≡ [])
      ⊎ ((n : Negotiated) × (u : Moved) × (taken : Bytes) × Negotiates n u
          × (a.host_taken ≡ u.taken ++ taken)
          × Starts (welcome n) a.guest_put)

-- A session that has come to the op loop.
pub record Settled (n : Negotiated) (a : Traffic) : Type 0 where
  pub host : Moved
  pub guest : Moved
  pub relayed : Traffic
  pub negotiates : Negotiates n host
  pub accepted : Accepted n guest
  pub mirrored : Mirrored relayed
  pub welcomed : Welcomed relayed
  pub whole :
      a
      ≡ together
          (guest_took (word worker_magic_1))
          (together (with_the_host host) (together (with_the_guest guest) relayed))

-- Both legs, behind the guest's magic.
abbrev legs : M World Negotiated
legs = do n ← with_context (ascii "host daemon handshake") (with_host upstream); guest_steps n

-- The traffic of the legs that failed.
abbrev Undone : Traffic → Type 0
Undone b =
    (b.filled ≡ [])
    × Starts hello b.host_put
    × ((b.guest_put ≡ [])
        ⊎ ((n : Negotiated) × (u : Moved) × (taken : Bytes) × Negotiates n u
            × (b.host_taken ≡ u.taken ++ taken)
            × Starts (welcome n) b.guest_put))

Does-legs :
    (w : World)
    → IsOpen w
    → Does world_trace legs w
        (λ n a.
          (u : Moved) × (b : Traffic) × (a ≡ together (with_the_host u) b)
          × Negotiates n u
          × Greeted n b)
        Undone
Does-legs w o =
    Does-bind world_trace
      (Does-with_context world_trace _ (
        Does-with_host (
          Does-mono duplex_trace (λ n u. Negotiates n u) (λ u. Starts hello u.put) (λ _ u h. h)
            (λ u h. h) (upstream-Agreed (record { input = w.host_in; output = w.host_out }) o.1))))
      (λ a h. rw h.1 (refl, h.2, inl refl))
      λ n a w₁ e₁ h₁.
        Does-mono world_trace _ _ (λ m b h. rw h.0 (h₁.0, b, together_eq h₁.1 refl, h₁.2, h.1))
          (λ b h. rw h₁.1 (
            h.1,
            Starts-more hello b.host_put (asked h₁.2),
            inr (n, h₁.0, b.host_taken, h₁.2, refl, h.0),
          ))
          (Does-guest_steps n w₁ (Traded-IsOpen e₁ o))
  where
    asked : {n : Negotiated} {u : Moved} → Negotiates n u → Starts hello u.put
    asked h = (_, h.4)

-- The host's halves are already as dialling leaves them: with the bytes of the daemon's that answers,
-- and nothing written.
abbrev pub Fresh : Answer Stream → World → Type 0
Fresh (given s) w = Passed w.host_in [] s × (written w.host_out ≡ [])
Fresh c w = Unit {0}

-- The guest's part alone leaves them so.
Fresh-kept :
    (c : Answer Stream) (t : Bytes) {w w' : World}
    → Fresh c w
    → Traded w (guest_took t) w'
    → Fresh c w'
Fresh-kept (given s) t h e = (
  record { bytes = sym e.host_in.bytes ∙ h.0.bytes; ending = sym e.host_in.ending ∙ h.0.ending },
  e.host_out ∙ append-nil _ ∙ h.1,
)
Fresh-kept (failed x) t h e = tt
Fresh-kept silent t h e = tt

Does-dial :
    (env : Env) (w : World)
    → Fresh env.connect w
    → Does world_trace (dial env) w (λ _ a. a ≡ calm) (λ a. a ≡ calm)
unfolding dial written
Does-dial env w f = go env.connect f
  where
    evolved :
        {s : Stream} {k : Sink} {n : ℕ}
        → Passed w.host_in [] s
        → written k ≡ written w.host_out ++ []
        → Traded w calm (record w { host_in = s; host_out = k; dials = n })
    evolved p q = record {
      guest_in = still_in _;
      guest_out = sym (append-nil _);
      host_in = p;
      host_out = q;
      fills = sym (append-nil _);
    }

    go :
        (c : Answer Stream)
        → Fresh c w
        → Does world_trace (dial (record env { connect = c })) w (λ _ a. a ≡ calm) (λ a. a ≡ calm)
    go (given s) h = record {
      log = calm;
      evolves = evolved (h.0) (sym (append-nil _ ∙ h.1));
      post = refl;
    }
    go (failed x) h = record {
      log = calm;
      evolves = evolved (still_in _) (sym (append-nil _));
      post = refl;
    }
    go silent h = record {
      log = calm;
      evolves = evolved (still_in _) (sym (append-nil _));
      post = refl;
    }

Undone-Unsettled :
    (b : Traffic) → Undone b → Unsettled (together (guest_took (word worker_magic_1)) b)
Undone-Unsettled b h = record { filled = h.0; asked = inr (h.1, (_, refl)); told = h.2 }

took-Unsettled : (t : Bytes) → Unsettled (guest_took t)
took-Unsettled t = record { filled = refl; asked = inl refl; told = inl refl }

-- Where both peers send nothing but bytes, `run` has enough fuel up to the op loop. If it gets there,
-- it has taken the guest's magic, agreed on a version with the host daemon, told the guest of it and
-- accepted the guest's, and passed on unchanged the guest's fields, whole, and the daemon's version,
-- trusted flag and greeting messages, whole. If it fails or waits, it has filled
-- nothing, sent the host daemon something only behind the guest's magic, and told the guest something
-- only behind an agreed version.
pub establish-Settled :
    (env : Env) (w : World)
    → IsOpen w
    → Fresh env.connect w
    → Does world_trace (establish env) w Settled Unsettled
unfolding establish
establish-Settled env w o f =
    Does-bind world_trace (Does-greet w o.0) (λ a h. rw h.1 (took-Unsettled h.0))
      λ _ a w₁ e₁ h₁.
        let o₁ = Traded-IsOpen e₁ o in
        Does-bind world_trace
          (Does-with_context world_trace _
            (Does-dial env w₁ (Fresh-kept env.connect _ f (rw h₁ at e₁))))
          (λ b h. rw (h₁, h) (took-Unsettled _))
          λ _ b w₂ e₂ h₂.
            Does-mono world_trace _ _ (λ n c h. settled h₁ h₂ h)
              (λ c h. rw (h₁, h₂) (Undone-Unsettled c h)) (Does-legs w₂ (Traded-IsOpen e₂ o₁))
  where
    settled :
        {n : Negotiated} {a b c : Traffic}
        → a ≡ guest_took (word worker_magic_1)
        → b ≡ calm
        → (u : Moved) × (d : Traffic) × (c ≡ together (with_the_host u) d)
          × Negotiates n u
          × Greeted n d
        → Settled n (together a (together b c))
    settled p q (u, d, e, neg, (g, r, i, acc, mir, wel)) = record {
      host = u;
      guest = g;
      relayed = r;
      negotiates = neg;
      accepted = acc;
      mirrored = mir;
      welcomed = wel;
      whole = together_eq p (together_eq q (e ∙ together_eq {a = with_the_host u} refl i));
    }
