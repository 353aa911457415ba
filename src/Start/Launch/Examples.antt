-- ===== src/Start/Launch/Examples.antt =====
-- Launches, and the helpers of claudepod-start.rs on small inputs.
use claudepod.Prelude.{
  ◌≡◌, refl, some, none, true, false, List, [], ◌∷◌, ◌++◌, Bytes, ascii, bytes_eq,
}
use claudepod.Outcome.{Outcome, ok}
use claudepod.Paths.{paths_code}
use claudepod.Paths.Names.{IsName}
use claudepod.Start.Volumes.{reject_colon_path, rootfs_spec}
use claudepod.Start.Project.{guest_home, project_code}
use claudepod.Start.Gpu.{nvidia_device_nodes, gpu_code}
use claudepod.Proxy.Handshake.{text_lt}
use claudepod.Start.Binds.{Args, Volume, base_volumes}
use claudepod.Start.Podman.{Settings, Podman, flagged, podman_command}
use claudepod.Start.Launch.Overrides.{Tells, podman_command-Tells}
use claudepod.Start.Launch.Mounts.{In, Shows, guest_project_path-Shows}

abbrev args : Args
args = record {
  shell = true;
  verbose = false;
  extra_volumes = [];
  env = ascii "CLAUDEPOD_MODE=x" ∷ [];
  host_port = [];
  publish = [];
  sandbox_home = none;
  gpu = false;
  usb = false;
  build_nix_run_roots = false;
  command = ascii "ls" ∷ [];
}

-- The user tries to set the mode.
abbrev settings : Settings
settings = record {
  specs = record { arg = ascii "CLAUDEPOD_MODE=x"; name = ascii "CLAUDEPOD_MODE" } ∷ [];
  timezone = none;
  layers = ascii "/nix/.l/0" ∷ [];
  username = ascii "ann";
  toplevel = ascii "/nix/store/s-nixos";
  project_path = ascii "/projects/x";
  mode = ascii "shell";
}

abbrev launched : Outcome Podman
launched =
    podman_command args (ascii "podman") (ascii "fuse") [] [] settings (ascii "/s/empty-rootfs")
      (ascii "/b/claudepod-entry")

abbrev podman_or_nothing : Outcome Podman → Podman
podman_or_nothing (ok p) = p
podman_or_nothing r = record { program = []; arguments = [] }

podman_command-Tells_example :
    (before values : List Bytes) × (rootfs : Bytes) × (rootfs_spec (ascii "/s/empty-rootfs")
      ≡ ok rootfs)
    × ((podman_or_nothing launched).program ≡ ascii "podman")
    × ((podman_or_nothing launched).arguments
        ≡ before
          ++ (flagged (ascii "-e") values
              ++ (rootfs ∷ ascii "/b/claudepod-entry" ∷ ascii "ls" ∷ [])))
    × Tells args settings values
unfolding podman_command rootfs_spec reject_colon_path paths_code ascii
podman_command-Tells_example =
    podman_command-Tells args (ascii "podman") (ascii "fuse") [] [] settings
      (ascii "/s/empty-rootfs") (ascii "/b/claudepod-entry") (podman_or_nothing launched) refl

abbrev ann : Bytes
ann = ascii "ann"

ann-IsName : IsName ann
unfolding paths_code bytes_eq ascii
ann-IsName = record { no_slash = refl; not_empty = refl; not_dot = refl; not_dots = refl }

abbrev source : Bytes
source = ascii "/home/host/src"

abbrev project : Bytes
project = ascii "/home/host/src/foo/bar"

guest_project_path-Shows_example :
    (v : Volume) × In v (
      base_volumes args
        (ascii "/r/s.sock")
        (ascii "/s/home")
        (guest_home ann)
        (some source)
        []
        project
        (ascii "/home/ann/src/foo/bar", false))
    × Shows v (ascii "/home/ann/src/foo/bar") project
unfolding project_code paths_code bytes_eq ascii
guest_project_path-Shows_example =
    guest_project_path-Shows args (ascii "/r/s.sock") (ascii "/s/home") ann (some source) [] project
      [] (ascii "/home/ann/src/foo/bar", false) ann-IsName refl
      (λ s e. rw (← some_injective e) refl) refl
  where
    some_injective : {a b : Bytes} → some a ≡ some b → a ≡ b
    some_injective h = cc

-- As in the tests: the control nodes, and the numbered ones in order.
two_gpus :
    nvidia_device_nodes
      (λ path. true)
      (ok (ascii "nvidia1" ∷ ascii "null" ∷ ascii "nvidia0" ∷ ascii "nvidia-caps" ∷ []))
      (ascii "/dev")
    ≡ ok (
        ascii "/dev/nvidiactl"
        ∷ ascii "/dev/nvidia-uvm"
        ∷ ascii "/dev/nvidia-uvm-tools"
        ∷ ascii "/dev/nvidia0"
        ∷ ascii "/dev/nvidia1"
        ∷ [])
unfolding gpu_code paths_code ascii text_lt
two_gpus = refl
