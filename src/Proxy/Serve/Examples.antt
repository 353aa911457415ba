-- ===== src/Proxy/Serve/Examples.antt =====
-- The accept loop with its first connection.
use claudepod.Prelude.{◌≡◌, ◌≤◌, refl, true, false, if◌then◌else◌, ◌==◌}
use claudepod.Proxy.Serve.{
  max_sessions, acquiring, Server, serve_start, take_hook, acquire, accept, Reaches, here, there,
}
use claudepod.Proxy.Serve.Capacity.{count, Reaches-capacity}
use claudepod.Proxy.Serve.Progress.{AcceptsOne, Reaches-progress}

abbrev connected : Server
connected = record {
  phase = acquiring;
  permits = 31;
  sessions = 1;
  accepted = 1;
  hook = false;
  hook_runs = 1;
}

first_connection : Reaches (serve_start true) connected
unfolding serve_start take_hook
first_connection =
    there _ _ _ (there _ _ _ (here _) (acquire (serve_start true) 31 refl refl)) (accept _ refl)

Reaches-capacity_example :
    (connected.sessions ≤ max_sessions)
    × (connected.hook_runs ≡ (if connected.accepted == 0 then 0 else count true))
Reaches-capacity_example = Reaches-capacity true connected first_connection

Reaches-progress_example : AcceptsOne connected
Reaches-progress_example = Reaches-progress true connected first_connection
