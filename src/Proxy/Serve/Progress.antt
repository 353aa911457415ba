-- ===== src/Proxy/Serve/Progress.antt =====
-- The accept loop does not get stuck: a client that connects is accepted in the end.
use claudepod.Prelude.{ℕ, zero, suc, ◌+◌, ◌≤◌, ◌≡◌, refl, ap, Bool, arith}
use claudepod.Proxy.Serve.{
  max_sessions, Phase, acquiring, accepting, sleeping, Server, serve_start, acquire, accept, awake,
  session_ended, Reaches, here, there,
}
use claudepod.Proxy.Serve.Capacity.{held, IsSound-start, IsSound-Reaches}

-- A later state in which one more connection has been accepted. This started one more session, so at
-- most one has ended where there are no fewer of them.
abbrev pub AcceptsOne : Server → Type 0
AcceptsOne s =
    (t : Server) × Reaches s t × (t.accepted ≡ s.accepted + 1) × (s.sessions ≤ t.sessions)

module _ (s : Server) where
  -- The loop has a permit and waits for a connection.
  accept_now :
      (t : Server)
      → Reaches s t
      → t.phase ≡ accepting
      → t.accepted ≡ s.accepted
      → s.sessions ≤ t.sessions + 1
      → AcceptsOne s
  accept_now t r p e l = (_, there s t _ r (accept t p), ap (λ n. n + 1) e, l)

  -- The semaphore has a permit for it.
  take_permit :
      (t : Server) (n : ℕ)
      → Reaches s t
      → t.phase ≡ acquiring
      → t.permits ≡ suc n
      → t.accepted ≡ s.accepted
      → s.sessions ≤ t.sessions + 1
      → AcceptsOne s
  take_permit t n r p q e l = accept_now _ (there s t _ r (acquire t n p q)) refl e l

  -- No permit is left, so a session ends first.
  wait_for_session : (n : ℕ) → s.phase ≡ acquiring → s.sessions ≡ suc n → AcceptsOne s
  wait_for_session n p q =
      take_permit _ s.permits (there s s _ (here s) (session_ended s n q)) p (omega arith) refl
        (omega (arith, q))

  at_semaphore :
      (permits sessions : ℕ)
      → s.phase ≡ acquiring
      → s.permits ≡ permits
      → s.sessions ≡ sessions
      → permits + sessions ≡ max_sessions
      → AcceptsOne s
  at_semaphore (suc n) sessions p q r e = take_permit s n (here s) p q refl (omega arith)
  at_semaphore zero (suc n) p q r e = wait_for_session n p r
  at_semaphore zero zero p q r e = absurd (omega (arith, e))

  in_phase :
      (phase : Phase)
      → s.phase ≡ phase
      → s.permits + held s.phase + s.sessions ≡ max_sessions
      → AcceptsOne s
  in_phase acquiring p e =
      at_semaphore s.permits s.sessions p refl refl (omega (arith, e, ap held p))
  in_phase accepting p e = accept_now s (here s) p refl (omega arith)
  in_phase sleeping p e =
      take_permit _ s.permits (there s s _ (here s) (awake s p)) refl (omega arith) refl
        (omega arith)

-- From every state that the accept loop reaches, steps of it and of its sessions lead to a state in
-- which one more connection has been accepted, and of those and the sessions before it at most one
-- has ended.
pub Reaches-progress : (first : Bool) (s : Server) → Reaches (serve_start first) s → AcceptsOne s
Reaches-progress first s r =
    in_phase s s.phase refl (IsSound-Reaches first r (IsSound-start first)).permits
