-- ===== src/Proxy/Serve.antt =====
-- src/proxy.rs: the accept loop, as the steps of the loop and of the sessions that it has started.
pub mod Capacity
pub mod Progress
mod Examples
use claudepod.Prelude.{ℕ, suc, ◌+◌, ◌-◌, ◌<◌, ◌≤◌, ◌≡◌, Bool, true, false, if◌then◌else◌}

abbrev pub max_sessions : ℕ
max_sessions = 32

-- Where the loop is: at the semaphore; in `accept` with a permit; asleep with it after a failure.
pub data Phase : Type 0 where
  acquiring accepting sleeping : Phase

-- `permits` are the semaphore's permits that are left. A started session has one until it ends.
-- `hook` is whether `on_first_accept` is still there, `hook_runs` how often it ran.
pub record Server : Type 0 where
  pub phase : Phase
  pub permits : ℕ
  pub sessions : ℕ
  pub accepted : ℕ
  pub hook : Bool
  pub hook_runs : ℕ

unfoldable pub serve_start : Bool → Server
serve_start hook = record {
  phase = acquiring;
  permits = max_sessions;
  sessions = 0;
  accepted = 0;
  hook = hook;
  hook_runs = 0;
}

-- `if let Some(hook) = on_first_accept.take() { hook(); }`
unfoldable pub take_hook : Server → Server
take_hook s = record s { hook = false; hook_runs = if s.hook then s.hook_runs + 1 else s.hook_runs }

-- One step of the loop, or the end of a session. A permit that a failed `accept` held is given back
-- when the loop goes on after its sleep.
pub data Step : Server → Server → Type 0 where
  acquire :
      (s : Server) (n : ℕ)
      → s.phase ≡ acquiring
      → s.permits ≡ suc n
      → Step s (record s { phase = accepting; permits = n })
  accept :
      (s : Server)
      → s.phase ≡ accepting
      → Step s (record (take_hook s) {
        phase = acquiring;
        sessions = s.sessions + 1;
        accepted = s.accepted + 1;
      })
  accept_failed : (s : Server) → s.phase ≡ accepting → Step s (record s { phase = sleeping })
  awake :
      (s : Server)
      → s.phase ≡ sleeping
      → Step s (record s { phase = acquiring; permits = s.permits + 1 })
  session_ended :
      (s : Server) (n : ℕ)
      → s.sessions ≡ suc n
      → Step s (record s { sessions = n; permits = s.permits + 1 })

pub data Reaches : Server → Server → Type 0 where
  here : (s : Server) → Reaches s s
  there : (s t u : Server) → Reaches s t → Step t u → Reaches s u
