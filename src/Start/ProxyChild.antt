-- ===== src/Start/ProxyChild.antt =====
-- How src/bin/claudepod-start.rs starts the nix proxy on a socket that it has bound.
use claudepod.Prelude.{
  ℕ, Option, none, some, Bool, not, List, [], ◌∷◌, ◌++◌, Bytes, ascii, decimal, if◌then◌else◌,
}
use claudepod.Outcome.{
  Outcome, ok, message, M, pure, fail, rescue, with_context, add_context, ◌>>=◌, ◌>>◌,
}
use claudepod.Paths.{path_join, parent}
use claudepod.Utf8.{from_utf8_lossy}
use claudepod.Host.{Host, Faults, call, required, settled, create_dir_all, remove_file, create_new}
use claudepod.Start.AtomicWrite.{unless_gone}

abbrev pub host_daemon_socket : Bytes
host_daemon_socket = ascii "/nix/var/nix/daemon-socket/socket"

-- What the launcher is told from outside: directories of the xdg library, its own executable, its
-- process number and the number of the listener's descriptor.
pub record Process : Type 0 where
  pub runtime_file : Bytes → Option Bytes
  pub data_home : Option Bytes
  pub current_exe : Outcome Bytes
  pub pid : ℕ
  pub listen_fd : ℕ

unfoldable pub state_dir : Process → Outcome Bytes
state_dir process =
    required (ascii "HOME is not set and XDG_DATA_HOME is unavailable") process.data_home

abbrev parent_or_empty : Option Bytes → Bytes
parent_or_empty none = []
parent_or_empty (some dir) = dir

-- `path.with_file_name(name)` of a path that has a file name.
unfoldable pub with_file_name : Bytes → Bytes → Bytes
with_file_name path name = path_join (parent_or_empty (parent path)) name

unfoldable pub sibling : Process → Bytes → Outcome Bytes
sibling process name =
    elim (add_context (ascii "resolve own executable path") process.current_exe) [
      | ok path ↦ ok (with_file_name path name)
      | other ↦ other
    ]

-- The arguments of the proxy.
unfoldable pub proxy_arguments : Process → Option Bytes → List Bytes
proxy_arguments process nix_run_roots =
    ascii "--listen-fd"
    ∷ decimal process.listen_fd
    ∷ ascii "--parent-pid"
    ∷ decimal process.pid
    ∷ elim nix_run_roots [ none ↦ [] | some path ↦ ascii "--nix-run-roots" ∷ path ∷ [] ]

-- The socket is, as a file, one without contents.
module _ (faults : Faults) (process : Process) where
  unfoldable pub private_socket_path : Bytes → M Host Bytes
  private_socket_path name = do
    state ← settled (state_dir process)
    let run_dir = path_join state (ascii "run")
    with_context (ascii "create " ++ from_utf8_lossy run_dir) (create_dir_all faults run_dir)
    pure (path_join run_dir name)

  unfoldable pub proxy_socket_path : M Host Bytes
  proxy_socket_path =
      let name = ascii "nix-proxy-" ++ (decimal process.pid ++ ascii ".sock") in
      elim (process.runtime_file name) [ some path ↦ pure path | none ↦ private_socket_path name ]

  -- `spawn` is what the operating system makes of the program and its arguments.
  unfoldable pub spawn_nix_proxy :
      (Bytes → List Bytes → Outcome (Unit {0})) → Bool → Option Bytes → M Host Bytes
  spawn_nix_proxy spawn daemon_there nix_run_roots =
      if not daemon_there
      then fail (
          message (
            ascii "host nix daemon socket "
            ++ (host_daemon_socket ++ ascii " not found; is nix-daemon running?")))
      else do
        socket_path ← proxy_socket_path
        rescue (remove_file faults socket_path)
            (unless_gone (ascii "remove stale " ++ from_utf8_lossy socket_path))
        with_context (ascii "listen on " ++ from_utf8_lossy socket_path)
            (create_new faults socket_path)
        with_context (ascii "chmod " ++ from_utf8_lossy socket_path) (call faults (λ h. (ok tt, h)))
        with_context (ascii "clear CLOEXEC on proxy listener") (call faults (λ h. (ok tt, h)))
        proxy_bin ← settled (sibling process (ascii "claudepod-nix-proxy"))
        with_context (ascii "spawn " ++ from_utf8_lossy proxy_bin)
            (settled (spawn proxy_bin (proxy_arguments process nix_run_roots)))
        pure socket_path
