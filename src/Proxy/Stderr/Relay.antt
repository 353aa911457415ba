-- ===== src/Proxy/Stderr/Relay.antt =====
-- The relay of stderr messages hands on whole messages, byte for byte, and has enough fuel.
use claudepod.Prelude.{
  All, ℕ, zero, suc, ◌+◌, ◌≤◌, ◌<◌, ◌≡◌, refl, sym, ap, ◌∙◌, Bool, true, false, Option, none, some,
  List, [], ◌∷◌, ◌++◌, append-nil, append_assoc, Bytes, length, length-append, arith, inl, inr, ◌⊎◌,
}
use claudepod.Outcome.{pure}
use claudepod.Outcome.Trace.{Does, Does-pure, Does-bind, Does-mono}
use claudepod.Wire.{le_bytes, Stream}
use claudepod.Wire.Copy.{Duplex}
use claudepod.Wire.Reading.{Passed, IsReady}
use claudepod.Wire.Moves.{Moved, both, Carried-IsReady, duplex_trace, Does-reading}
use claudepod.Proxy.Stderr.{Terminal, Message}
use claudepod.Proxy.Stderr.Loops.{relay_loop, relay_inner, relay, relay_without_last}
use claudepod.Proxy.Stderr.Messages.{message_frame}
use claudepod.Proxy.Stderr.Reading.{Frames-read_message}
use claudepod.Proxy.Stderr.Frames.{proxy_error}
use claudepod.Proxy.Stderr.Forward.{verdict, shown, passes, IsLog, Violation, Does-forward}

unfoldable pub messages_frame : List Message → Bytes
messages_frame [] = []
messages_frame (m ∷ ms) = message_frame m ++ messages_frame ms

-- A complete exchange: log messages of the kinds that are let through, and a last one that the guest sees as `shown` says.
pub record Exchanged (fl : Bool) (t : Terminal) (a : Moved) : Type 0 where
  pub logs : List Message
  pub end : Message
  pub logs_go_on : All IsLog logs
  pub end_is : verdict end ≡ some t
  pub taken : a.taken ≡ messages_frame logs ++ message_frame end
  pub put : a.put ≡ messages_frame logs ++ shown fl end

-- The bytes of a complete exchange.
abbrev pub Messages : Terminal → Bytes → Type 0
Messages t u =
    (logs : List Message) × (end : Message) × All IsLog logs
    × (verdict end ≡ some t)
    × (u ≡ messages_frame logs ++ message_frame end)

pub Exchanged-Messages :
    {fl : Bool} {t : Terminal} {a : Moved} → Exchanged fl t a → Messages t a.taken
Exchanged-Messages h = (h.logs, h.end, h.logs_go_on, h.end_is, h.taken)

-- A broken one: the guest has whole messages, and behind them at most one error of the proxy.
pub record Broken (a : Moved) : Type 0 where
  pub logs : List Message
  pub rest : Bytes
  pub logs_go_on : All IsLog logs
  pub taken : a.taken ≡ messages_frame logs ++ rest
  pub put :
      (a.put ≡ messages_frame logs)
      ⊎ ((text : Bytes) × (a.put ≡ messages_frame logs ++ proxy_error text))

pub message_frame-pos : (m : Message) → 1 ≤ length (message_frame m)
unfolding message_frame le_bytes
message_frame-pos Message.last = omega arith
message_frame-pos m = omega arith

pub Passed-length :
    (s t : Stream) (a : Bytes) → Passed s a t → length s.bytes ≡ length a + length t.bytes
Passed-length s t a p = ap length p.bytes ∙ length-append a t.bytes

-- One more message in front.
Exchanged-after :
    (fl : Bool) (t : Terminal) (m : Message) (a b c : Moved)
    → IsLog m
    → shown fl m ≡ message_frame m
    → a.taken ≡ message_frame m
    → a.put ≡ []
    → b.taken ≡ []
    → b.put ≡ shown fl m
    → Exchanged fl t c
    → Exchanged fl t (both a (both b c))
unfolding messages_frame
Exchanged-after fl t m a b c v sh at ap' bt bp x = record {
  logs = m ∷ x.logs;
  end = x.end;
  logs_go_on = (v, x.logs_go_on);
  end_is = x.end_is;
  taken = rw (at, bt, x.taken, append_assoc);
  put = rw (ap', bp, sh, x.put, append_assoc);
}

Broken-after :
    (fl : Bool) (m : Message) (a b c : Moved)
    → IsLog m
    → shown fl m ≡ message_frame m
    → a.taken ≡ message_frame m
    → a.put ≡ []
    → b.taken ≡ []
    → b.put ≡ shown fl m
    → Broken c
    → Broken (both a (both b c))
unfolding messages_frame
Broken-after fl m a b c v sh at ap' bt bp x = record {
  logs = m ∷ x.logs;
  rest = x.rest;
  logs_go_on = (v, x.logs_go_on);
  taken = rw (at, bt, x.taken, append_assoc);
  put = elim x.put [
    | inl e ↦ inl (rw (ap', bp, sh, e))
    | inr (text, e) ↦ inr (text, rw (ap', bp, sh, e, append_assoc))
  ];
}

log_shown : (fl : Bool) (m : Message) → verdict m ≡ none → shown fl m ≡ message_frame m
log_shown fl Message.last v = cc
log_shown fl m v = refl

-- What the loop does after a message, by the message's verdict.
Does-next :
    (fl : Bool) (fuel : ℕ) (m : Message) (t : Option Terminal) (a b : Moved) (d : Duplex)
    → verdict m ≡ t
    → passes m ≡ true
    → a.taken ≡ message_frame m
    → a.put ≡ []
    → b.taken ≡ []
    → b.put ≡ shown fl m
    → Does duplex_trace (relay_loop fl fuel) d (Exchanged fl) Broken
    → Does duplex_trace
        (elim t [ none ↦ relay_loop fl fuel | some terminal ↦ pure terminal ])
        d
        (λ x c. Exchanged fl x (both a (both b c)))
        (λ c. Broken (both a (both b c)))
Does-next fl fuel m none a b d v ps at ap' bt bp loop =
    let sh = log_shown fl m v in
    Does-mono duplex_trace _ _ (λ x c h. Exchanged-after fl x m a b c (v, ps) sh at ap' bt bp h)
      (λ c h. Broken-after fl m a b c (v, ps) sh at ap' bt bp h) loop
Does-next fl fuel m (some t) a b d v ps at ap' bt bp loop = Does-pure duplex_trace t d (record {
  logs = [];
  end = m;
  logs_go_on = tt;
  end_is = v;
  taken = unfold messages_frame in rw (at, bt, append-nil);
  put = unfold messages_frame in rw (ap', bp, append-nil);
})

Broken-read : (a : Moved) → a.put ≡ [] → Broken a
unfolding messages_frame
Broken-read a h = record { logs = []; rest = a.taken; logs_go_on = tt; taken = refl; put = inl h }

Broken-message :
    (m : Message) (a b : Moved)
    → a.taken ≡ message_frame m
    → a.put ≡ []
    → Violation b
    → Broken (both a b)
unfolding messages_frame
Broken-message m a b at ap' (bt, text, bp) = record {
  logs = [];
  rest = message_frame m;
  logs_go_on = tt;
  taken = rw (at, bt, append-nil);
  put = inr (text, rw (ap', bp));
}

Does-relay_loop :
    (fl : Bool) (fuel : ℕ) (d : Duplex)
    → IsReady d.input
    → length d.input.bytes < fuel
    → Does duplex_trace (relay_loop fl fuel) d (Exchanged fl) Broken
unfolding relay_loop
Does-relay_loop fl zero d r lt = absurd (omega arith)
Does-relay_loop fl (suc fuel) d r lt =
    Does-bind duplex_trace (Does-reading {d = d} (Frames-read_message d.input r))
      (λ a h. Broken-read a h.1)
      λ m a d₁ e₁ h₁.
        let r₁ = Carried-IsReady e₁ r in
        Does-bind duplex_trace (Does-forward fl m d₁) (λ b h. Broken-message m a b h₁.0 h₁.1 h)
          λ t b d₂ e₂ h₂. Does-next fl fuel m t a b d₂ (sym h₂.2) h₂.3 h₁.0 h₁.1 h₂.0 h₂.1 (
            Does-relay_loop fl fuel d₂ (Carried-IsReady e₂ r₁) (
              omega (
                arith,
                message_frame-pos m,
                ap length h₁.0,
                Passed-length _ _ _ e₁.input,
                Passed-length _ _ _ e₂.input,
              )))

pub Does-relay_inner :
    (fl : Bool) (d : Duplex)
    → IsReady d.input
    → Does duplex_trace (relay_inner fl) d (Exchanged fl) Broken
unfolding relay_inner
Does-relay_inner fl d r =
    let h = Does-relay_loop fl (suc (length d.input.bytes)) d r (omega arith) in
    record { log = h.log; evolves = h.evolves; post = h.post }

shown_all : (m : Message) → shown true m ≡ message_frame m
unfolding message_frame
shown_all Message.last = refl
shown_all m = refl

-- From a stream of bytes the relay has enough fuel. If it succeeds, it has taken log messages, none of
-- them a streaming or an unknown one, and one last or error message, which it names, and has put them
-- byte for byte; if it fails or waits, it has put a number of whole log messages, again none streaming
-- or unknown, and behind them at most one error message of the proxy.
pub relay-verbatim :
    (d : Duplex)
    → IsReady d.input
    → Does duplex_trace relay d (λ t a. (a.put ≡ a.taken) × Exchanged true t a) Broken
unfolding relay
relay-verbatim d r =
    Does-mono duplex_trace _ _ (λ t a h. (rw (h.taken, h.put, shown_all), h)) (λ a h. h)
      (Does-relay_inner true d r)

-- From a stream of bytes the relay that withholds the last marker has enough fuel. If it succeeds, it
-- has taken log messages, none of them a streaming or an unknown one, and one last or error message,
-- which it names, and has put the log messages byte for byte, and behind them an error message but no
-- last one; if it fails or waits, it has put a number of whole log messages, again none streaming or
-- unknown, and behind them at most one error message of the proxy.
pub relay_without_last-withholds :
    (d : Duplex) → IsReady d.input → Does duplex_trace relay_without_last d (Exchanged false) Broken
unfolding relay_without_last
relay_without_last-withholds d r = Does-relay_inner false d r
