-- ===== src/Proxy/Session/Fills.antt =====
-- A session of session.rs has only paths of the run roots filled.
use claudepod.Prelude.{◌≡◌, ap, true, ◌⊎◌, inl, inr, Option, List, [], ◌∷◌, Bytes, All, All-append}
use claudepod.Outcome.{Outcome, ok, err, pending, out_of_fuel}
use claudepod.Outcome.Trace.{Post}
use claudepod.Wire.{Stream}
use claudepod.Proxy.Handshake.{Negotiated}
use claudepod.Proxy.RunRoots.{NixRunRoots}
use claudepod.Proxy.Session.{World, Answer, Env}
use claudepod.Proxy.Session.Rounds.{fillable, run}
use claudepod.Proxy.Session.Traffic.{Traffic, together, IsOpen}
use claudepod.Proxy.Session.Interception.{
  Filling, fill_failed, rechecked, Stuck, in_fill, in_recheck,
}
use claudepod.Proxy.Session.Answers.{
  Answered, host_says_valid, not_fillable, filling, Unanswered, unread, stuck,
}
use claudepod.Proxy.Session.Decision.{
  Intercepted, daemon_error, answered, Interrupted, in_arguments, in_messages, unanswered,
}
use claudepod.Proxy.Session.Serving.{
  Served, options_swallowed, forwarded, path_answered, Ended, in_word, rejected, in_options,
  truncated, interrupted,
}
use claudepod.Proxy.Session.Loop.{total, Finished, Died}
use claudepod.Proxy.Session.Opening.{Fresh, Settled, Unsettled}
use claudepod.Proxy.Session.Whole.{Completed, Aborted, run-Completed}

module _ (roots : Option NixRunRoots) where
  abbrev pub Fillable : List Bytes → Type 0
  Fillable = All (λ (path : Bytes). fillable roots path ≡ true)

  Filling-filled :
      (fill : Bytes → Answer (Unit {0})) (path : Bytes) (a : Traffic)
      → Filling fill path a
      → a.filled ≡ path ∷ []
  Filling-filled fill path a (fill_failed error came e) = ap (λ (x : Traffic). x.filled) e
  Filling-filled fill path a (rechecked came r t s e) = ap (λ (x : Traffic). x.filled) e

  Stuck-filled :
      (fill : Bytes → Answer (Unit {0})) (path : Bytes) (a : Traffic)
      → Stuck fill path a
      → a.filled ≡ path ∷ []
  Stuck-filled fill path a (in_fill never e) = ap (λ (x : Traffic). x.filled) e
  Stuck-filled fill path a (in_recheck came t e) = ap (λ (x : Traffic). x.filled) e

  Answered-Fillable :
      (fill : Bytes → Answer (Unit {0})) (path : Bytes) (a : Traffic)
      → Answered roots fill path a
      → Fillable a.filled
  Answered-Fillable fill path a (host_says_valid v z e) = rw (ap (λ (x : Traffic). x.filled) e) tt
  Answered-Fillable fill path a (not_fillable f e) = rw (ap (λ (x : Traffic). x.filled) e) tt
  Answered-Fillable fill path a (filling b f h e) =
      rw (ap (λ (x : Traffic). x.filled) e, Filling-filled fill path b h) (f, tt)

  Unanswered-Fillable :
      (fill : Bytes → Answer (Unit {0})) (path : Bytes) (a : Traffic)
      → Unanswered roots fill path a
      → Fillable a.filled
  Unanswered-Fillable fill path a (unread t e) = rw (ap (λ (x : Traffic). x.filled) e) tt
  Unanswered-Fillable fill path a (stuck b f h e) =
      rw (ap (λ (x : Traffic). x.filled) e, Stuck-filled fill path b h) (f, tt)

  Intercepted-Fillable :
      (fill : Bytes → Answer (Unit {0})) (a : Traffic)
      → Intercepted roots fill a
      → Fillable a.filled
  Intercepted-Fillable fill a (daemon_error path u x e) = rw (ap (λ (x : Traffic). x.filled) e) tt
  Intercepted-Fillable fill a (answered path u b x h e) =
      rw (ap (λ (x : Traffic). x.filled) e) (Answered-Fillable fill path b h)

  Interrupted-Fillable :
      (fill : Bytes → Answer (Unit {0})) (a : Traffic)
      → Interrupted roots fill a
      → Fillable a.filled
  Interrupted-Fillable fill a (in_arguments t x e) = rw (ap (λ (x : Traffic). x.filled) e) tt
  Interrupted-Fillable fill a (in_messages path u x e) = rw (ap (λ (x : Traffic). x.filled) e) tt
  Interrupted-Fillable fill a (unanswered path u b x h e) =
      rw (ap (λ (x : Traffic). x.filled) e) (Unanswered-Fillable fill path b h)

  Served-Fillable : (n : Negotiated) (a : Traffic) → Served roots n a → Fillable a.filled
  Served-Fillable n a (options_swallowed t h e) = rw (ap (λ (x : Traffic). x.filled) e) tt
  Served-Fillable n a (forwarded f op b r x h e) =
      rw (ap (λ (x : Traffic). x.filled) e, h.filled) tt
  Served-Fillable n a (path_answered fill b h e) =
      rw (ap (λ (x : Traffic). x.filled) e) (Intercepted-Fillable fill b h)

  Ended-Fillable : (a : Traffic) → Ended roots a → Fillable a.filled
  Ended-Fillable a (in_word t e) = rw (ap (λ (x : Traffic). x.filled) e) tt
  Ended-Fillable a (rejected v text x e) = rw (ap (λ (x : Traffic). x.filled) e) tt
  Ended-Fillable a (in_options t x e) = rw (ap (λ (x : Traffic). x.filled) e) tt
  Ended-Fillable a (truncated op b r h e) = rw (ap (λ (x : Traffic). x.filled) e, h.filled) tt
  Ended-Fillable a (interrupted fill b h e) =
      rw (ap (λ (x : Traffic). x.filled) e) (Interrupted-Fillable fill b h)

  total-Fillable :
      (n : Negotiated) (rounds : List Traffic)
      → All (Served roots n) rounds
      → Fillable (total rounds).filled
  total-Fillable n [] h = tt
  total-Fillable n (a ∷ rest) h =
      All-append _ a.filled (total rest).filled (Served-Fillable n a h.0)
        (total-Fillable n rest h.1)

  both-Fillable :
      (a b c : Traffic)
      → a ≡ together b c
      → Fillable b.filled
      → Fillable c.filled
      → Fillable a.filled
  both-Fillable a b c e h k =
      rw (ap (λ (x : Traffic). x.filled) e) (All-append _ b.filled c.filled h k)

  Settled-Fillable : (n : Negotiated) (a : Traffic) → Settled n a → Fillable a.filled
  Settled-Fillable n a h = rw (ap (λ (x : Traffic). x.filled) h.whole, h.mirrored.filled) tt

  Finished-Fillable :
      (n : Negotiated) (s : Stream) (a : Traffic) → Finished roots n s a → Fillable a.filled
  Finished-Fillable n s a h =
      rw (ap (λ (x : Traffic). x.filled) h.whole) (total-Fillable n h.rounds h.served)

  Died-Fillable : (n : Negotiated) (a : Traffic) → Died roots n a → Fillable a.filled
  Died-Fillable n a h =
      both-Fillable a (total h.rounds) h.end h.whole (total-Fillable n h.rounds h.served)
        (Ended-Fillable h.end h.ended)

  Completed-Fillable : (s : Stream) (a : Traffic) → Completed roots s a → Fillable a.filled
  Completed-Fillable s a h =
      both-Fillable a h.opening h.rounds h.whole (Settled-Fillable _ _ h.settled)
        (Finished-Fillable _ _ _ h.finished)

  stopped-Fillable : (a : Traffic) → Unsettled a ⊎ Aborted roots a → Fillable a.filled
  stopped-Fillable a (inl h) = rw h.filled tt
  stopped-Fillable a (inr h) =
      both-Fillable a h.opening h.rounds h.whole (Settled-Fillable _ _ h.settled)
        (Died-Fillable _ _ h.died)

  Post-Fillable :
      {A : Type 0} (s : Stream) (r : Outcome A) (a : Traffic)
      → Post (λ _ x. Completed roots s x) (λ x. Unsettled x ⊎ Aborted roots x) r a
      → Fillable a.filled
  Post-Fillable s (ok x) a h = Completed-Fillable s a h
  Post-Fillable s (err e) a h = stopped-Fillable a h
  Post-Fillable s pending a h = stopped-Fillable a h
  Post-Fillable s out_of_fuel a h = absurd h

-- Where both peers send nothing but bytes, and the host daemon's connection starts with what dialling
-- gives and nothing written, a session that starts with no fills has asked only for fills of paths
-- that the run roots contain, whatever comes of it.
pub run-Fillable :
    (env : Env) (w : World)
    → IsOpen w
    → Fresh env.connect w
    → w.fills ≡ []
    → Fillable env.nix_run_roots (run env w).1.fills
run-Fillable env w o f e =
    let d = run-Completed env w o f in
    rw (d.evolves.fills, e) (Post-Fillable env.nix_run_roots w.guest_in (run env w).0 d.log d.post)
