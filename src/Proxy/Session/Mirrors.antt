-- ===== src/Proxy/Session/Mirrors.antt =====
-- Rounds that pass everything on: what the guest sent goes to the host, and the host's answer back.
use claudepod.Proxy.Session.Mirrored.{
  Mirrors, Mirrors-bind, Mirrors-flush_guest, Mirrors-flush_host, Mirrors-guest_to_host,
  Mirrors-host_to_guest, Mirrors-pure, Mirrors-with_context,
}
use claudepod.Prelude.{Bool, ◌≡◌, refl, ap, ◌∙◌, [], ◌++◌, append-nil, Bytes, ascii}
use claudepod.Outcome.{M, LibraryError, Error, context, render, ◌>>=◌}
use claudepod.Outcome.Trace.{Does, Does-fail, Does-bind, Does-mono, Does-within, Does-rescue}
use claudepod.Wire.{write_u64}
use claudepod.Wire.Format.{word}
use claudepod.Wire.Moves.{Moved, duplex_trace}
use claudepod.Wire.Verbatim.{Starts, Starts-append}
use claudepod.Proxy.Handshake.{Negotiated, realisation_with_path}
use claudepod.Proxy.Handshake.Features.{WithPath, realisation_with_path-WithPath}
use claudepod.Proxy.Ops.{Op, op_word, name}
use claudepod.Proxy.Ops.Payloads.{Arguments, Result, Relays-copy_args, Relays-copy_result}
use claudepod.Proxy.Stderr.{Terminal, write_error}
use claudepod.Proxy.Stderr.Frames.{proxy_error, write_error-frame}
use claudepod.Proxy.Stderr.Relay.{Messages, Exchanged-Messages, relay-verbatim}
use claudepod.Proxy.Session.{World, Env, args_timeout, to_guest, to_host}
use claudepod.Proxy.Session.Rounds.{Next, another, refuse_args, relay_args, copy_reply, relay_op}
use claudepod.Proxy.Session.Traffic.{
  Traffic, Traded-IsOpen, IsOpen, world_trace, together, calm, together-calm,
}
use claudepod.Proxy.Session.Halves.{
  upward, downward, guest_got, host_got, Does-to_guest, Does-to_host, sink_trace, Puts-write_all,
  Puts-flush,
}

-- The error that the guest is told of, and the end.
pub Does-write_error :
    (msg : Bytes) (w : World) {E : Traffic → Type 0}
    → Does world_trace (to_guest (write_error msg)) w (λ _ b. b ≡ guest_got (proxy_error msg)) E
Does-write_error msg w {E} = rw write_error-frame (
    Does-mono world_trace _ E (λ x b p. p.1 ∙ ap guest_got p.2) (λ b p. absurd p.2)
      (Does-to_guest {P = λ _ a. a ≡ proxy_error msg} {E = λ _. ⊥} (
        Does-bind sink_trace {F = λ _. ⊥} (Puts-write_all (proxy_error msg) w.guest_out)
          (λ a h. absurd h)
          λ _ a k e h.
            Does-mono sink_trace (λ _ b. a ++ b ≡ proxy_error msg) (λ _. ⊥)
              (λ _ b q. rw h (ap (λ (t : Bytes). proxy_error msg ++ t) q ∙ append-nil _)) (λ b q. q)
              (Puts-flush {E = λ _. ⊥} k))))

pub Does-refuse_args :
    {A : Type 0} (texts : LibraryError → Bytes) (what : Bytes) (e : Error) (w : World)
    → Does world_trace
        (refuse_args {A = A} texts what e)
        w
        (λ _ _. ⊥)
        (λ b. (text : Bytes) × (b ≡ guest_got (proxy_error text)))
unfolding refuse_args
Does-refuse_args texts what e w =
    Does-bind world_trace {F = λ _. ⊥} (Does-write_error _ w) (λ a h. absurd h)
      λ _ a w₁ e₁ h₁.
        Does-fail world_trace _ w₁
          (render texts (context (what ++ ascii " arguments") e), together-calm a ∙ h₁)

Mirrors-relay_args :
    {V : Unit {0} → Traffic → Type 0} (texts : LibraryError → Bytes) (op : Op)
    {m : M World (Unit {0})}
    → Mirrors V m
    → Mirrors V (relay_args texts op m)
unfolding relay_args
Mirrors-relay_args texts op h = record {
  at = λ w o.
      Does-rescue world_trace (Does-within world_trace args_timeout (h.at w o)) (λ a c. c)
        λ e a w₁ e₁ c.
          Does-mono world_trace _ _ (λ _ b q. absurd q)
            (λ b q. rw q.1 (record { up = rw (append-nil, append-nil) c.up; filled = rw c.filled }))
            (Does-refuse_args texts (name op) e w₁);
}

-- What follows the daemon's messages: the op's result behind the last one, nothing behind an error.
abbrev Rest : Op → Bool → Terminal → Bytes → Type 0
Rest op feature Terminal.error t = t ≡ []
Rest op feature Terminal.last t = Result op feature t

-- The daemon's reply to an op.
abbrev pub Reply : Op → Bool → Bytes → Type 0
Reply op feature t =
    (end : Terminal) × (u : Bytes) × (v : Bytes) × (t ≡ u ++ v)
    × Messages end u
    × Rest op feature end v

Mirrors-copy_reply :
    (op : Op) (n : Negotiated) (t : Terminal)
    → Mirrors
        (λ _ a. (u : Moved) × (a ≡ downward u) × Rest op (realisation_with_path n) t u.taken)
        (copy_reply op n t)
unfolding copy_reply
Mirrors-copy_reply op n Terminal.error =
    Mirrors-pure tt (record { taken = []; put = [] }, refl, refl)
Mirrors-copy_reply op n Terminal.last =
    Mirrors-with_context _ (Mirrors-host_to_guest _ (Relays-copy_result op n).at)

-- The word of the op, and everything behind it: the op's arguments, and the daemon's reply.
pub record Forwarded (feature : Bool) (op : Op) (a : Traffic) : Type 0 where
  pub up : a.host_put ≡ word (op_word op) ++ a.guest_taken
  pub down : a.guest_put ≡ a.host_taken
  pub filled : a.filled ≡ []
  pub arguments : Arguments op feature a.guest_taken
  pub reply : Reply op feature a.host_taken

pub record Truncated (op : Op) (a : Traffic) : Type 0 where
  pub up : Starts a.host_put (word (op_word op) ++ a.guest_taken)
  pub filled : a.filled ≡ []

-- What a relayed op passes on behind its word.
abbrev Exchange : Bool → Op → Next → Traffic → Type 0
Exchange feature op next a =
    (next ≡ another) × Arguments op feature a.guest_taken × Reply op feature a.host_taken

Does-word_first :
    (feature : Bool) (op : Op) {m : M World Next} (w : World)
    → IsOpen w
    → Mirrors (Exchange feature op) m
    → Does world_trace
        (to_host (write_u64 (op_word op)) >>= λ _. m)
        w
        (λ next a. (next ≡ another) × Forwarded feature op a)
        (Truncated op)
unfolding write_u64
Does-word_first feature op w o h =
    Does-bind world_trace {F = λ _. ⊥}
      (Does-mono world_trace (λ _ b. b ≡ host_got (word (op_word op))) (λ _. ⊥)
        (λ _ b p. p.1 ∙ ap host_got p.2) (λ b p. p.2)
        (Does-to_host (Puts-write_all {E = λ _. ⊥} (word (op_word op)) w.host_out)))
      (λ a q. absurd q)
      λ _ a w₁ e₁ h₁.
        Does-mono world_trace _ _
          (λ x b p. (
            p.0.0,
            rw h₁ (record {
              up = ap (λ (t : Bytes). word (op_word op) ++ t) p.1.up;
              down = p.1.down;
              filled = p.1.filled;
              arguments = p.0.1;
              reply = p.0.2;
            }),
          ))
          (λ b p.
            rw h₁ (record {
              up = Starts-append (word (op_word op)) b.host_put p.up;
              filled = p.filled;
            }))
          (h.at w₁ (Traded-IsOpen e₁ o))

exchanged :
    (feature : Bool) (op : Op) {terminal : Terminal} {a b c d e : Traffic} (u v x : Moved)
    → a ≡ upward u
    → b ≡ calm
    → c ≡ downward v
    → d ≡ downward x
    → e ≡ calm
    → Arguments op feature u.taken
    → Messages terminal v.taken
    → Rest op feature terminal x.taken
    → Exchange feature op another
        (together a (together b (together c (together d (together e calm)))))
exchanged feature op {terminal = terminal} u v x p q r s t args messages rest =
    rw (p, q, r, s, t, append-nil)
      (
        refl,
        args,
        (
          terminal,
          v.taken,
          x.taken,
          ap (λ (y : Bytes). v.taken ++ y) (append-nil x.taken),
          messages,
          rest,
        ),
      )

Does-relay_op :
    (env : Env) (n : Negotiated) (op : Op) (w : World)
    → IsOpen w
    → Does world_trace
        (relay_op env n op)
        w
        (λ next a. (next ≡ another) × Forwarded (realisation_with_path n) op a)
        (Truncated op)
unfolding relay_op
Does-relay_op env n op w o = Does-word_first (realisation_with_path n) op w o (
    Mirrors-bind (Mirrors-relay_args env.texts op (Mirrors-guest_to_host (Relays-copy_args op n)))
      λ _ a p. Mirrors-bind Mirrors-flush_host λ _ b q.
        Mirrors-bind
          (Mirrors-with_context _ (
            Mirrors-host_to_guest Messages λ d r.
              Does-mono duplex_trace (λ t a. (a.put ≡ a.taken) × Messages t a.taken) _
                (λ t a h. (h.0, Exchanged-Messages h.1)) (λ a h. h) (relay-verbatim d r)))
          λ terminal c r. Mirrors-bind (Mirrors-copy_reply op n terminal) λ _ d s.
            Mirrors-bind Mirrors-flush_guest λ _ e t.
              Mirrors-pure another
                (exchanged (realisation_with_path n) op p.0 r.0 s.0 p.1 q r.1 s.1 t p.2 r.2 s.2))

-- Where both peers send nothing but bytes, an op that is relayed has enough fuel. If it succeeds, the
-- guest has sent the arguments that the protocol has for the op, and the host has the op's word and
-- these byte for byte; the host has sent log messages and an error message, or log messages, a last
-- one and the result that the protocol has for the op, and the guest has these byte for byte; and
-- nothing was filled. A realisation comes with a path exactly if that feature was agreed. If it fails
-- or waits, the host has a first part of the word and of what was taken from the guest, and nothing
-- was filled.
pub relay_op-mirrors :
    (env : Env) (n : Negotiated) (op : Op) (w : World)
    → IsOpen w
    → Does world_trace
        (relay_op env n op)
        w
        (λ next a. (next ≡ another) × (b : Bool) × WithPath n b × Forwarded b op a)
        (Truncated op)
relay_op-mirrors env n op w o =
    Does-mono world_trace _ _ (λ next a h. (h.0, _, realisation_with_path-WithPath n, h.1))
      (λ a h. h) (Does-relay_op env n op w o)
