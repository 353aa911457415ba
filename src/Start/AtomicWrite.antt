-- ===== src/Start/AtomicWrite.antt =====
-- How src/bin/claudepod-start.rs replaces the manifest of the nix run roots: through a file beside
-- it that is renamed when it is complete and loads.
pub mod Names
pub mod Untouched
pub mod Filled
pub mod Replaced
mod Examples
use claudepod.Prelude.{
  ℕ, Option, none, some, Bool, true, false, [], ◌∷◌, ◌++◌, Bytes, ascii, decimal, length, ◌==◌,
  if◌then◌else◌,
}
use claudepod.Outcome.{
  Outcome, Error, library, message, io, not_found, ok, err, context, M, pure, fail, rescue,
  with_context, ◌>>=◌, ◌>>◌,
}
use claudepod.Paths.{path_join, file_name, parent}
use claudepod.Utf8.{from_utf8_lossy}
use claudepod.Host.{
  Host, Faults, call, required, settled, create_dir_all, sync_all, remove_file, create_new,
  write_file, rename, read_file,
}
use claudepod.Proxy.RunRoots.{NixRunRoots, load}

-- `.filter(|dir| !dir.as_os_str().is_empty()).unwrap_or_else(|| Path::new("."))`
unfoldable pub manifest_dir : Option Bytes → Bytes
manifest_dir none = ascii "."
manifest_dir (some dir) = if length dir == 0 then ascii "." else dir

-- The hidden name beside the manifest, with the process's number.
unfoldable pub tmp_name : ℕ → Bytes → Bytes
tmp_name pid name = b'.' ∷ (name ++ (b'.' ∷ (decimal pid ++ ascii ".tmp")))

unfoldable pub manifest_file_name : Bytes → Outcome Bytes
manifest_file_name path =
    required (ascii "manifest path has no file name: " ++ from_utf8_lossy path) (file_name path)

-- A stale file may be gone already.
abbrev pub unless_gone : Bytes → Error → M Host (Unit {0})
unless_gone text (library (io not_found)) = pure tt
unless_gone text e = fail (context text e)

-- `let _ = …`
unfoldable pub ignoring : M Host (Unit {0}) → M Host (Unit {0})
ignoring m = rescue m (λ e. pure tt)

module _ (faults : Faults) where
  unfoldable pub create_manifest_temp_file : ℕ → Bytes → Bytes → M Host Bytes
  create_manifest_temp_file pid dir path = do
    name ← settled (manifest_file_name path)
    let tmp_path = path_join dir (tmp_name pid name)
    rescue (remove_file faults tmp_path)
        (unless_gone (ascii "remove stale " ++ from_utf8_lossy tmp_path))
    with_context (ascii "create " ++ from_utf8_lossy tmp_path) (create_new faults tmp_path)
    pure tmp_path

  -- `File::open` and `sync_all`, whose errors are dropped.
  unfoldable pub fsync_dir_best_effort : Bytes → M Host (Unit {0})
  fsync_dir_best_effort dir = ignoring (call faults (λ h. (ok tt, h)) >>= λ _. sync_all faults dir)

  -- `NixRunRoots::load`
  unfoldable pub load_file : Bytes → M Host NixRunRoots
  load_file path h = let (contents, h') = read_file faults path h in (load path contents, h')

  -- The closure whose result is looked at.
  unfoldable pub fill_and_rename : Bytes → Bytes → Bytes → Bytes → M Host (Unit {0})
  fill_and_rename dir path tmp_path contents = do
    with_context (ascii "write " ++ from_utf8_lossy tmp_path) (write_file faults tmp_path contents)
    with_context (ascii "fsync " ++ from_utf8_lossy tmp_path) (sync_all faults tmp_path)
    load_file tmp_path
    with_context
        (ascii "rename " ++ (from_utf8_lossy tmp_path ++ (ascii " to " ++ from_utf8_lossy path)))
        (rename faults tmp_path path)
    fsync_dir_best_effort dir

  unfoldable pub clean_up : Bytes → Error → M Host (Unit {0})
  clean_up tmp_path e = do ignoring (remove_file faults tmp_path); fail e

  unfoldable pub write_nix_run_roots_manifest_atomic : ℕ → Bytes → Bytes → M Host (Unit {0})
  write_nix_run_roots_manifest_atomic pid path contents = do
    let dir = manifest_dir (parent path)
    with_context (ascii "create " ++ from_utf8_lossy dir) (create_dir_all faults dir)
    tmp_path ← create_manifest_temp_file pid dir path
    rescue (fill_and_rename dir path tmp_path contents) (clean_up tmp_path)

-- The definitions of this file, by one name for `unfolding` lines that run them.
unfoldable pub atomic_write_code : Unit {0}
unfolding manifest_dir tmp_name manifest_file_name ignoring create_manifest_temp_file
    fsync_dir_best_effort load_file fill_and_rename clean_up write_nix_run_roots_manifest_atomic
atomic_write_code = tt
