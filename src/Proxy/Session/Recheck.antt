-- ===== src/Proxy/Session/Recheck.antt =====
-- The second question to the host daemon, after a fill, and the parts that the interception of
-- `IsValidPath` is made of.
use claudepod.Prelude.{
  ℕ, ◌≡◌, refl, ap, ◌∙◌, Bool, true, false, if◌then◌else◌, [], ◌++◌, append-nil, Bytes, ◌==◌,
  Bool-cases, inl, inr,
}
use claudepod.Outcome.{M, ◌>>=◌}
use claudepod.Outcome.Trace.{Does, Does-pure, Does-bind, Does-mono, Does-with_context}
use claudepod.Wire.{Sink}
use claudepod.Wire.Format.{word, string_frame}
use claudepod.Wire.Reading.{Reads-read_u64}
use claudepod.Wire.Writing.{write_u64-frame, write_string-frame, write_all-append}
use claudepod.Proxy.Ops.{is_valid_path, op_word}
use claudepod.Proxy.Stderr.{Drained, stderr_last}
use claudepod.Proxy.Stderr.Drain.{Emptied, Reads-drain_to_terminal}
use claudepod.Proxy.Session.{World, to_guest, to_host}
use claudepod.Proxy.Session.Rounds.{
  Recheck, valid, invalid, daemon_error, recheck_result, recheck_is_valid_path,
  write_is_valid_path_result, warn_on_demand_fill,
}
use claudepod.Proxy.Session.Traffic.{
  Traffic, Traded-IsOpen, Traded-still, IsOpen, world_trace, together, together-calm, calm,
}
use claudepod.Proxy.Session.Halves.{
  sink_trace, guest_got, host_got, host_took, Does-from_host, Does-to_guest, Does-to_host,
  Puts-write_all, Puts-flush,
}

-- The question for a path, and the answer that the guest reads.
abbrev pub question : Bytes → Bytes
question path = word (op_word is_valid_path) ++ string_frame path

abbrev pub result_frame : Bool → Bytes
result_frame answer = word stderr_last ++ word (if answer then 1 else 0)

-- A writer to the host, with what comes after it.
Does-put_host :
    {B : Type 0} {Q : B → Traffic → Type 0} {E : Traffic → Type 0} (frame : Bytes)
    {m : M Sink (Unit {0})} {n : M World B} (w : World)
    → IsOpen w
    → ((k : Sink) → Does sink_trace m k (λ _ a. a ≡ frame) (λ _. ⊥))
    → ((w' : World)
        → IsOpen w'
        → Does world_trace n w'
            (λ y a. Q y (together (host_got frame) a))
            (λ a. E (together (host_got frame) a)))
    → Does world_trace (to_host m >>= λ _. n) w Q E
Does-put_host {Q = Q} {E = E} frame w o puts k =
    Does-bind world_trace {F = λ _. ⊥}
      (Does-mono world_trace (λ _ b. b ≡ host_got frame) (λ _. ⊥) (λ _ b p. p.1 ∙ ap host_got p.2)
        (λ b p. p.2) (Does-to_host (puts w.host_out)))
      (λ a q. absurd q)
      λ _ a w₁ e₁ h₁.
        Does-mono world_trace _ _ (λ y b q. rw h₁ q) (λ b q. rw h₁ q) (k w₁ (Traded-IsOpen e₁ o))

pub Does-answer :
    (answer : Bool) (w : World) {E : Traffic → Type 0}
    → Does world_trace
        (to_guest (write_is_valid_path_result answer))
        w
        (λ _ a. a ≡ guest_got (result_frame answer))
        E
unfolding write_is_valid_path_result
Does-answer answer w {E} =
    simp (write_u64-frame, write_all-append)
      (Does-mono world_trace _ E (λ x b p. p.1 ∙ ap guest_got p.2) (λ b p. absurd p.2)
        (Does-to_guest {P = λ _ a. a ≡ result_frame answer} {E = λ _. ⊥}
          (Puts-write_all (result_frame answer) w.guest_out)))

pub Does-warn :
    (path reason : Bytes) (w : World) {E : Traffic → Type 0}
    → Does world_trace (warn_on_demand_fill path reason) w (λ _ a. a ≡ calm) E
unfolding warn_on_demand_fill
Does-warn path reason w = record {
  log = calm;
  evolves =
      let e = Traded-still w in
      record {
        guest_in = e.guest_in;
        guest_out = e.guest_out;
        host_in = e.host_in;
        host_out = e.host_out;
        fills = e.fills;
      };
  post = refl;
}

-- What the host says to the second question, by the bytes that it sends.
abbrev pub Says : Bytes → Recheck → Type 0
Says t valid =
    (u : Bytes) × (v : ℕ) × Emptied Drained.last u × (t ≡ u ++ word v) × ((v == 0) ≡ false)
Says t invalid =
    (u : Bytes) × (v : ℕ) × Emptied Drained.last u × (t ≡ u ++ word v) × ((v == 0) ≡ true)
Says t (daemon_error text) = Emptied (Drained.error text) t

-- The host was only read.
abbrev Heard : Traffic → Type 0
Heard a = (t : Bytes) × (a ≡ host_took t)

recheck-Says :
    (u t : Bytes) (v : ℕ)
    → Emptied Drained.last u
    → t ≡ word v
    → Says (u ++ t) (if v == 0 then invalid else valid)
recheck-Says u t v h p = elim (Bool-cases (v == 0)) [
  | inl e ↦ rw e (u, v, h, ap (λ (x : Bytes). u ++ x) p, e)
  | inr e ↦ rw e (u, v, h, ap (λ (x : Bytes). u ++ x) p, e)
]

Does-recheck_result :
    (d : Drained) (u : Bytes) (w : World)
    → IsOpen w
    → Emptied d u
    → Does world_trace
        (recheck_result d)
        w
        (λ r a. (t : Bytes) × (a ≡ host_took t) × Says (u ++ t) r)
        Heard
unfolding recheck_result
Does-recheck_result Drained.last u w o h =
    Does-bind world_trace
      (Does-with_context world_trace _ (Does-from_host (Reads-read_u64 w.host_in o.1)))
      (λ a p. (p.0, p.1))
      λ v a w₁ e₁ h₁.
        Does-pure world_trace _ w₁ (h₁.0, together-calm a ∙ h₁.1, recheck-Says u h₁.0 v h h₁.2.0)
Does-recheck_result (Drained.error text) u w o h =
    Does-pure world_trace (daemon_error text) w ([], refl, rw append-nil h)

-- The host was asked once more, and read.
abbrev pub asked_again : Bytes → Bytes → Traffic
asked_again path t = record calm { host_taken = t; host_put = question path }

asking :
    (path t : Bytes) {a : Traffic}
    → a ≡ host_took t
    → together
        (host_got (word (op_word is_valid_path)))
        (together (host_got (string_frame path)) (together (host_got []) a))
      ≡ asked_again path t
asking path t p =
    ap
      (λ (a : Traffic).
        together (host_got (word (op_word is_valid_path)))
          (together (host_got (string_frame path)) (together (host_got []) a)))
      p
    ∙ ap
        (λ (x : Bytes). record calm {
          host_taken = t;
          host_put = word (op_word is_valid_path) ++ x;
        })
        (append-nil (string_frame path))

pub Does-recheck_is_valid_path :
    (path : Bytes) (w : World)
    → IsOpen w
    → Does world_trace
        (recheck_is_valid_path path)
        w
        (λ r a. (t : Bytes) × (a ≡ asked_again path t) × Says t r)
        (λ a. (t : Bytes) × (a ≡ asked_again path t))
unfolding recheck_is_valid_path
Does-recheck_is_valid_path path w o =
    simp (write_u64-frame, write_string-frame)
      (Does-put_host (word (op_word is_valid_path)) w o (Puts-write_all _) λ w₁ o₁.
        Does-put_host (string_frame path) w₁ o₁ (Puts-write_all _) λ w₂ o₂.
          Does-put_host [] w₂ o₂ Puts-flush λ w₃ o₃.
            Does-bind world_trace
              (Does-with_context world_trace _
                (Does-from_host (Reads-drain_to_terminal w₃.host_in o₃.1)))
              (λ a p. (p.0, asking path p.0 p.1))
              λ d a w₄ e₄ h₄.
                Does-mono world_trace _ _
                  (λ r b p. (h₄.0 ++ p.0, asking path (h₄.0 ++ p.0) (rw (h₄.1, p.1) refl), p.2))
                  (λ b p. (h₄.0 ++ p.0, asking path (h₄.0 ++ p.0) (rw (h₄.1, p.1) refl)))
                  (Does-recheck_result d h₄.0 w₄ (Traded-IsOpen e₄ o₃) h₄.2))
