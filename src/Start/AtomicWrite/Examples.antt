-- ===== src/Start/AtomicWrite/Examples.antt =====
-- An atomic write in a directory with an old manifest.
use claudepod.Prelude.{◌≡◌, refl, some, none, [], Bytes, ascii, bytes_eq, ◌==◌, if◌then◌else◌}
use claudepod.Outcome.{rescue, pure, fail, with_context, ◌>>=◌}
use claudepod.Outcome.Trace.{Does}
use claudepod.Host.{Contents, Host, Fault, Faults, host_code}
use claudepod.Host.Changes.{host_trace}
use claudepod.Proxy.RunRoots.{run_roots_code}
use claudepod.Start.AtomicWrite.{write_nix_run_roots_manifest_atomic, atomic_write_code}
use claudepod.Start.AtomicWrite.Untouched.{Always}
use claudepod.Start.AtomicWrite.Replaced.{Replaces, write_nix_run_roots_manifest_atomic-Replaces}

abbrev manifest_path : Bytes
manifest_path = ascii "/c/m.txt"

abbrev old_contents : Contents
old_contents path = if bytes_eq path manifest_path then some (ascii "/nix/store/a-b\n") else none

abbrev cache : Host
cache = record { files = old_contents; links = λ path. none; mounts = []; past = []; calls = 0 }

abbrev new_manifest : Bytes
new_manifest = ascii "/nix/store/c-d\n"

-- The fourth call is the write, which fails half way.
abbrev full_disk : Faults
full_disk n = if n == 3 then some (record { error = 28; written = some 5 }) else none

abbrev disk_error : Fault
disk_error = record { error = 28; written = some 5 }

no_temporary_left :
    (write_nix_run_roots_manifest_atomic full_disk 7 manifest_path new_manifest cache).1.files
      (ascii "/c/.m.txt.7.tmp")
    ≡ none
unfolding atomic_write_code run_roots_code host_code bytes_eq ascii rescue pure fail with_context
    ◌>>=◌
no_temporary_left = refl

replaced :
    (write_nix_run_roots_manifest_atomic (λ n. none) 7 manifest_path new_manifest cache).1.files
      manifest_path
    ≡ some new_manifest
unfolding atomic_write_code run_roots_code host_code bytes_eq ascii rescue pure fail with_context
    ◌>>=◌
replaced = refl

write_nix_run_roots_manifest_atomic-Replaces_example :
    Does host_trace
      (write_nix_run_roots_manifest_atomic full_disk 7 manifest_path new_manifest)
      cache
      (λ _ log. Replaces manifest_path new_manifest old_contents log)
      (λ log. Always (λ g. g manifest_path ≡ old_contents manifest_path) log old_contents)
write_nix_run_roots_manifest_atomic-Replaces_example =
    write_nix_run_roots_manifest_atomic-Replaces full_disk 7 manifest_path new_manifest cache
