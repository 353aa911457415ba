-- ===== src/Proxy/Stderr/Drain.antt =====
-- Draining takes whole messages up to the last one, and has enough fuel.
use claudepod.Prelude.{
  All, ℕ, zero, suc, ◌<◌, ◌≡◌, refl, ap, some, List, [], ◌∷◌, ◌++◌, append-nil, append_assoc, Bytes,
  length, arith,
}
use claudepod.Outcome.{pure}
use claudepod.Outcome.Trace.{Does, Does-pure, Does-fail, Does-bind, Does-mono}
use claudepod.Wire.{Stream}
use claudepod.Wire.Reading.{Passed-IsReady, IsReady, Reads, stream_trace}
use claudepod.Proxy.Stderr.{Terminal, Drained, Message, streaming, unknown}
use claudepod.Proxy.Stderr.Loops.{
  Drain, done, more, absorb, drain_loop, drain_to_terminal, drained_result, drain_to_last,
}
use claudepod.Proxy.Stderr.Messages.{message_frame}
use claudepod.Proxy.Stderr.Reading.{Frames-read_message}
use claudepod.Proxy.Stderr.Forward.{verdict, IsLog}
use claudepod.Proxy.Stderr.Relay.{messages_frame, message_frame-pos, Passed-length}

-- The drained end of an exchange that ended so.
abbrev pub drained_as : Drained → Terminal
drained_as Drained.last = Terminal.last
drained_as (Drained.error text) = Terminal.error

pub record Emptied (r : Drained) (t : Bytes) : Type 0 where
  pub logs : List Message
  pub end : Message
  pub logs_go_on : All IsLog logs
  pub end_is : verdict end ≡ some (drained_as r)
  pub taken : t ≡ messages_frame logs ++ message_frame end

-- What one message comes to: an end that it is, or more to read.
abbrev Absorbed : Message → Drain → Type 0
Absorbed m (done d) = verdict m ≡ some (drained_as d)
Absorbed m (more logs) = IsLog m

Reads-absorb :
    (logs : List Bytes) (m : Message) → Reads (absorb logs m) (λ r t. (t ≡ []) × Absorbed m r)
unfolding absorb
Reads-absorb logs (streaming w) s r = Does-fail stream_trace _ s tt
Reads-absorb logs (unknown w) s r = Does-fail stream_trace _ s tt
Reads-absorb logs Message.last s r = Does-pure stream_trace _ s (refl, refl)
Reads-absorb logs (Message.error e) s r = Does-pure stream_trace _ s (refl, refl)
Reads-absorb logs m s r = Does-pure stream_trace _ s (refl, (refl, refl))

Does-Absorbed :
    (fuel : ℕ) (m : Message) (d : Drain) (a b : Bytes) (s : Stream)
    → Absorbed m d
    → a ≡ message_frame m
    → b ≡ []
    → ((logs : List Bytes) → Does stream_trace (drain_loop fuel logs) s Emptied (λ _. Unit {0}))
    → Does stream_trace
        (elim d [ done x ↦ pure x | more logs ↦ drain_loop fuel logs ])
        s
        (λ x c. Emptied x (a ++ (b ++ c)))
        (λ _. Unit {0})
unfolding messages_frame
Does-Absorbed fuel m (done x) a b s v at bt loop =
    Does-pure stream_trace x s
      (record { logs = []; end = m; logs_go_on = tt; end_is = v; taken = rw (at, bt, append-nil) })
Does-Absorbed fuel m (more logs) a b s v at bt loop =
    Does-mono stream_trace _ _
      (λ x c h. record {
        logs = m ∷ h.logs;
        end = h.end;
        logs_go_on = (v, h.logs_go_on);
        end_is = h.end_is;
        taken = rw (at, bt, h.taken, append_assoc);
      })
      (λ c h. h) (loop logs)

Does-drain_loop :
    (fuel : ℕ) (logs : List Bytes) (s : Stream)
    → IsReady s
    → length s.bytes < fuel
    → Does stream_trace (drain_loop fuel logs) s Emptied (λ _. Unit {0})
unfolding drain_loop
Does-drain_loop zero logs s r lt = absurd (omega arith)
Does-drain_loop (suc fuel) logs s r lt =
    Does-bind stream_trace (Frames-read_message s r) (λ a e. e)
      λ m a s₁ e₁ h₁.
        let r₁ = Passed-IsReady e₁ r in
        Does-bind stream_trace (Reads-absorb logs m s₁ r₁) (λ a e. e)
          λ d b s₂ e₂ h₂. Does-Absorbed fuel m d a b s₂ h₂.1 h₁ h₂.0 λ logs'.
            Does-drain_loop fuel logs' s₂ (Passed-IsReady e₂ r₁) (
              omega (
                arith,
                message_frame-pos m,
                ap length h₁,
                Passed-length _ _ _ e₁,
                Passed-length _ _ _ e₂,
              ))

pub Reads-drain_to_terminal : Reads drain_to_terminal Emptied
unfolding drain_to_terminal
Reads-drain_to_terminal s r =
    let h = Does-drain_loop (suc (length s.bytes)) [] s r (omega arith) in
    record { log = h.log; evolves = h.evolves; post = h.post }

Reads-drained_result :
    (d : Drained) → Reads (drained_result d) (λ _ t. (t ≡ []) × (drained_as d ≡ Terminal.last))
unfolding drained_result
Reads-drained_result Drained.last s r = Does-pure stream_trace _ s (refl, refl)
Reads-drained_result (Drained.error text) s r = Does-fail stream_trace _ s tt

pub Reads-drain_to_last :
    Reads drain_to_last (λ _ t. (d : Drained) × (drained_as d ≡ Terminal.last) × Emptied d t)
unfolding drain_to_last
Reads-drain_to_last s r =
    Does-bind stream_trace (Reads-drain_to_terminal s r) (λ a e. e)
      λ d a s₁ e₁ h₁.
        Does-mono stream_trace
          (λ _ t. (x : Drained) × (drained_as x ≡ Terminal.last) × Emptied x (a ++ t)) _
          (λ _ t h. (d, h.1, rw (h.0, append-nil) h₁)) (λ a h. h)
          (Reads-drained_result d s₁ (Passed-IsReady e₁ r))

-- From a stream of bytes, draining has enough fuel, and where it has a result it has taken whole log
-- messages, none of them a streaming or an unknown one, and the one last or error message that the
-- result stands for.
pub drain_to_terminal-takes :
    (s : Stream) → IsReady s → Does stream_trace drain_to_terminal s Emptied (λ _. Unit {0})
drain_to_terminal-takes s r = Reads-drain_to_terminal s r

-- From a stream of bytes, draining to the last marker has enough fuel, and it succeeds only behind
-- whole log messages, none of them a streaming or an unknown one, and a last message: an error message
-- of the daemon is an error.
pub drain_to_last-takes :
    (s : Stream)
    → IsReady s
    → Does stream_trace drain_to_last s
        (λ _ t. (d : Drained) × (drained_as d ≡ Terminal.last) × Emptied d t)
        (λ _. Unit {0})
drain_to_last-takes s r = Reads-drain_to_last s r
