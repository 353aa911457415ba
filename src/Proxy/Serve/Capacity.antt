-- ===== src/Proxy/Serve/Capacity.antt =====
-- The accept loop never has more sessions than permits, and runs its hook once.
use claudepod.Prelude.{
  ℕ, ◌+◌, ◌≤◌, ◌≡◌, refl, ap, Bool, true, false, if◌then◌else◌, ◌==◌, Bool-cases, inl, inr, arith,
}
use claudepod.Proxy.Serve.{
  max_sessions, Phase, acquiring, accepting, sleeping, Server, serve_start, take_hook, Step,
  acquire, accept, accept_failed, awake, session_ended, Reaches, here, there,
}

-- The permit that the loop itself has.
abbrev pub held : Phase → ℕ
held acquiring = 0
held accepting = 1
held sleeping = 1

abbrev pub count : Bool → ℕ
count true = 1
count false = 0

-- Every permit is somewhere; the hook is there until the first connection, or it has run.
pub record IsSound (first : Bool) (s : Server) : Type 0 where
  pub permits : s.permits + held s.phase + s.sessions ≡ max_sessions
  pub hook : s.hook ≡ (if s.accepted == 0 then first else false)
  pub runs : s.hook_runs + count s.hook ≡ count first

pub IsSound-start : (first : Bool) → IsSound first (serve_start first)
unfolding serve_start
IsSound-start first = record { permits = refl; hook = refl; runs = omega arith }

not_first : (first : Bool) (n : ℕ) → false ≡ (if n + 1 == 0 then first else false)
not_first first n = ground arith

ran : (b : Bool) (n m : ℕ) → n + count b ≡ m → (if b then n + 1 else n) + 0 ≡ m
ran true n m h = omega (arith, h)
ran false n m h = h

IsSound-Step : (first : Bool) {s t : Server} → Step s t → IsSound first s → IsSound first t
unfolding take_hook
IsSound-Step first (acquire s n p q) h = record {
  permits = omega (arith, h.permits, ap held p, q);
  hook = h.hook;
  runs = h.runs;
}
IsSound-Step first (accept s p) h = record {
  permits = omega (arith, h.permits, ap held p);
  hook = not_first first s.accepted;
  runs = ran s.hook s.hook_runs (count first) h.runs;
}
IsSound-Step first (accept_failed s p) h = record {
  permits = omega (arith, h.permits, ap held p);
  hook = h.hook;
  runs = h.runs;
}
IsSound-Step first (awake s p) h = record {
  permits = omega (arith, h.permits, ap held p);
  hook = h.hook;
  runs = h.runs;
}
IsSound-Step first (session_ended s n p) h = record {
  permits = omega (arith, h.permits, p);
  hook = h.hook;
  runs = h.runs;
}

pub IsSound-Reaches :
    (first : Bool) {s t : Server} → Reaches s t → IsSound first s → IsSound first t
IsSound-Reaches first (here s) h = h
IsSound-Reaches first (there s t u r step) h = IsSound-Step first step (IsSound-Reaches first r h)

runs_once :
    (first : Bool) (b : Bool) (accepted runs : ℕ)
    → b ≡ (if accepted == 0 then first else false)
    → runs + count b ≡ count first
    → runs ≡ (if accepted == 0 then 0 else count first)
runs_once first b accepted runs e h = elim (Bool-cases (accepted == 0)) [
  | inl z ↦ rw z (cancel (runs) (count first) (h' z))
  | inr z ↦ rw z (plain (count b) (ap count (rw z at e)) h)
]
  where
    cancel : (n m : ℕ) → n + m ≡ m → n ≡ 0
    cancel n m q = omega (arith, q)

    h' : (accepted == 0) ≡ true → runs + count first ≡ count first
    h' z = rw (ap count (rw z at e)) at h

    plain : (n : ℕ) → n ≡ 0 → runs + n ≡ count first → runs ≡ count first
    plain n q r = omega (arith, q, r)

-- In every state that the accept loop reaches there are at most as many sessions as its limit, and
-- the hook, if there is one, has run once if a connection was accepted, and otherwise not at all.
pub Reaches-capacity :
    (first : Bool) (s : Server)
    → Reaches (serve_start first) s
    → (s.sessions ≤ max_sessions) × (s.hook_runs ≡ (if s.accepted == 0 then 0 else count first))
Reaches-capacity first s r =
    let h = IsSound-Reaches first r (IsSound-start first) in
    (omega (arith, h.permits), runs_once first s.hook s.accepted s.hook_runs h.hook h.runs)
