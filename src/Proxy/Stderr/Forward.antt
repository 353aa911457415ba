-- ===== src/Proxy/Stderr/Forward.antt =====
-- What the relay does with one message.
use claudepod.Prelude.{
  ◌≡◌, refl, ◌∙◌, Bool, true, false, Option, none, some, [], append-nil, Bytes, if◌then◌else◌,
}
use claudepod.Outcome.Laws.{pure-bind}
use claudepod.Outcome.{message, pure, fail, ◌>>=◌}
use claudepod.Outcome.Trace.{Does, Does-pure, Does-fail}
use claudepod.Wire.{write_all, flush}
use claudepod.Wire.Format.{word}
use claudepod.Wire.Copy.{Duplex, writing}
use claudepod.Wire.Writing.{write_u64-frame, write_string-frame}
use claudepod.Wire.Moves.{Moved, duplex_trace, Does-emit, Does-flushed, writing-then}
use claudepod.Proxy.Stderr.{
  Terminal, Message, next, start_activity, stop_activity, result, streaming, unknown, stderr_last,
}
use claudepod.Proxy.Stderr.Loops.{violation, forward}
use claudepod.Proxy.Stderr.Messages.{message_frame}
use claudepod.Proxy.Stderr.Frames.{
  write_error_payload-frame, write_fields-frame, proxy_error, writing-write_error,
}

-- The op's last message, and where it ends the exchange.
abbrev pub verdict : Message → Option Terminal
verdict Message.last = some Terminal.last
verdict (Message.error e) = some Terminal.error
verdict _ = none

-- What the guest sees of a message.
abbrev pub shown : Bool → Message → Bytes
shown forward_last Message.last = if forward_last then word stderr_last else []
shown forward_last m = message_frame m

-- A message that the relay passes on, and what a message that it does not pass on leads to.
abbrev pub passes : Message → Bool
passes (streaming w) = false
passes (unknown w) = false
passes _ = true

-- A log message: no end of the exchange, and of a kind that is let through.
abbrev pub IsLog : Message → Type 0
IsLog m = (verdict m ≡ none) × (passes m ≡ true)

abbrev pub Passing : Bool → Message → Option Terminal → Moved → Type 0
Passing fl m t a = (a.taken ≡ []) × (a.put ≡ shown fl m) × (t ≡ verdict m) × (passes m ≡ true)

abbrev pub Violation : Moved → Type 0
Violation a = (a.taken ≡ []) × (text : Bytes) × (a.put ≡ proxy_error text)

-- The two ways in which a message is handed on: with a flush behind it, or as the last one.
Does-flushed_message :
    (m : Message) (fl : Bool) (d : Duplex)
    → message_frame m ≡ shown fl m
    → none ≡ verdict m
    → passes m ≡ true
    → Does duplex_trace
        (writing (write_all (message_frame m)) >>= λ _. (writing flush >>= λ _. pure none))
        d
        (Passing fl m)
        Violation
Does-flushed_message m fl d e v p =
    Does-emit _ d (message_frame m) λ d₁ _.
      Does-flushed _ d₁ λ d₂ _. Does-pure duplex_trace none d₂ (refl, append-nil _ ∙ e, v, p)

Does-last_message :
    (t : Terminal) (m : Message) (fl : Bool) (d : Duplex)
    → some t ≡ verdict m
    → passes m ≡ true
    → Does duplex_trace
        (writing (write_all (shown fl m)) >>= λ _. pure (some t))
        d
        (Passing fl m)
        Violation
Does-last_message t m fl d v p =
    Does-emit _ d (shown fl m) λ d₁ _. Does-pure duplex_trace (some t) d₁ (refl, append-nil _, v, p)

Does-violation :
    (text : Bytes) (P : Option Terminal → Moved → Type 0) (d : Duplex)
    → Does duplex_trace (violation text) d P Violation
unfolding violation
Does-violation text P d = rw (writing-write_error text (fail (message text))) (
    Does-emit _ d (proxy_error text)
      λ d₁ _. Does-flushed _ d₁ λ d₂ _. Does-fail duplex_trace _ d₂ (refl, text, append-nil _))

ruleset frames = (
  write_u64-frame, write_string-frame, write_fields-frame, write_error_payload-frame, writing-then,
)

pub Does-forward :
    (fl : Bool) (m : Message) (d : Duplex)
    → Does duplex_trace (forward fl m) d (Passing fl m) Violation
unfolding forward message_frame
Does-forward true Message.last d =
    simp frames (Does-last_message Terminal.last Message.last true d refl refl)
Does-forward false Message.last d =
    rw pure-bind (Does-pure duplex_trace _ d (refl, refl, refl, refl))
Does-forward fl (Message.error e) d =
    simp frames (Does-last_message Terminal.error (Message.error e) fl d refl refl)
Does-forward fl (next text) d = simp frames (Does-flushed_message (next text) fl d refl refl refl)
Does-forward fl (start_activity id verbosity kind text fields parent) d =
    simp frames (
      Does-flushed_message (start_activity id verbosity kind text fields parent) fl d refl refl
        refl)
Does-forward fl (stop_activity id) d =
    simp frames (Does-flushed_message (stop_activity id) fl d refl refl refl)
Does-forward fl (result id kind fields) d =
    simp frames (Does-flushed_message (result id kind fields) fl d refl refl refl)
Does-forward fl (streaming w) d = Does-violation _ _ d
Does-forward fl (unknown w) d = Does-violation _ _ d
