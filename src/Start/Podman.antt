-- ===== src/Start/Podman.antt =====
-- src/bin/claudepod-start.rs: the command line of podman.
use claudepod.Prelude.{
  Option, none, some, Bool, true, false, not, List, [], ◌∷◌, ◌++◌, map, Bytes, ascii, if◌then◌else◌,
}
use claudepod.Outcome.{Outcome, ok, chain}
use claudepod.AgentEnv.{names_env}
use claudepod.StoreLayers
use claudepod.Start.EnvSpecs.{EnvSpec, join_env_names, env_arg}
use claudepod.Start.Volumes.{rootfs_spec}
use claudepod.Start.Ports.{PortMap, pasta_network_arg, publish_arg}
use claudepod.Start.Binds.{Args, dev_shm_size}

-- What the environment of the container is made from.
pub record Settings : Type 0 where
  pub specs : List EnvSpec
  pub timezone : Option Bytes
  pub layers : List Bytes
  pub username : Bytes
  pub toplevel : Bytes
  pub project_path : Bytes
  pub mode : Bytes

unfoldable pub spec_args : List EnvSpec → List Bytes
spec_args [] = []
spec_args (spec ∷ specs) = spec.arg ∷ spec_args specs

unfoldable pub names_setting : List EnvSpec → List Bytes
names_setting [] = []
names_setting (spec ∷ specs) = env_arg names_env (join_env_names (spec ∷ specs)) ∷ []

abbrev pub timezone_setting : Option Bytes → List Bytes
timezone_setting none = []
timezone_setting (some timezone) = env_arg (ascii "CLAUDEPOD_TIMEZONE") timezone ∷ []

-- The settings that are always made, the last ones of the command line.
unfoldable pub fixed_settings : Settings → List Bytes
fixed_settings s =
    env_arg (ascii "CLAUDEPOD_STORE_LAYERS") (StoreLayers.join s.layers)
    ∷ env_arg (ascii "CLAUDEPOD_USERNAME") s.username
    ∷ env_arg (ascii "CLAUDEPOD_TOPLEVEL") s.toplevel
    ∷ env_arg (ascii "CLAUDEPOD_PROJECT_PATH") s.project_path
    ∷ env_arg (ascii "CLAUDEPOD_MODE") s.mode
    ∷ []

-- Every value that stands behind an `-e`, in order.
unfoldable pub env_settings : Args → Settings → List Bytes
env_settings args s =
    spec_args s.specs
    ++ (names_setting s.specs
        ++ ((if args.verbose then ascii "CLAUDEPOD_VERBOSE=1" ∷ [] else [])
            ++ ((if args.usb then ascii "CLAUDEPOD_USB=1" ∷ [] else [])
                ++ (timezone_setting s.timezone ++ fixed_settings s))))

-- `command.arg(flag).arg(value)` for each value
unfoldable pub flagged : Bytes → List Bytes → List Bytes
flagged flag [] = []
flagged flag (value ∷ values) = flag ∷ value ∷ flagged flag values

abbrev network_args : Option Bytes → List Bytes
network_args none = []
network_args (some network) = ascii "--network" ∷ network ∷ []

abbrev is_empty : List PortMap → Bool
is_empty [] = true
is_empty (p ∷ ps) = false

unfoldable pub run_options : List Bytes
run_options =
    ascii "run"
    ∷ ascii "--rm"
    ∷ ascii "-it"
    ∷ ascii "--log-driver=none"
    ∷ ascii "--userns=keep-id:uid=1000,gid=100"
    ∷ ascii "--user"
    ∷ ascii "0:0"
    ∷ ascii "--cap-add=SYS_ADMIN"
    ∷ ascii "--cap-add=NET_ADMIN"
    ∷ ascii "--cap-add=NET_RAW"
    ∷ ascii "--cap-add=SYS_PTRACE"
    ∷ ascii "--device"
    ∷ ascii "/dev/fuse"
    ∷ ascii "--device"
    ∷ ascii "/dev/net/tun"
    ∷ ascii "--rootfs"
    ∷ ascii "--systemd=always"
    ∷ ascii "--no-hostname"
    ∷ ascii "--no-hosts"
    ∷ ascii "--dns=none"
    ∷ ascii "--pids-limit=16384"
    ∷ ascii "--shm-size"
    ∷ dev_shm_size
    ∷ ascii "--security-opt"
    ∷ ascii "unmask=ALL"
    ∷ []

-- The options up to the environment.
unfoldable pub container_options : Args → Bytes → List Bytes → List Bytes → List Bytes
container_options args fuse_overlayfs gpu_devices volumes =
    run_options
    ++ (flagged (ascii "--storage-opt")
          (env_arg (ascii "overlay.mount_program") fuse_overlayfs ∷ [])
        ++ (flagged (ascii "--device") gpu_devices
            ++ (network_args (pasta_network_arg args.host_port (not (is_empty args.publish)))
                ++ (flagged (ascii "-p") (map publish_arg args.publish)
                    ++ flagged (ascii "-v") volumes))))

-- The program that is executed in the end, with its arguments.
pub record Podman : Type 0 where
  pub program : Bytes
  pub arguments : List Bytes

unfoldable pub podman_command :
    Args → Bytes → Bytes → List Bytes → List Bytes → Settings → Bytes → Bytes → Outcome Podman
podman_command args podman fuse_overlayfs gpu_devices volumes settings rootfs_dir init =
    chain (rootfs_spec rootfs_dir) λ rootfs. ok (record {
      program = podman;
      arguments =
          container_options args fuse_overlayfs gpu_devices volumes
          ++ (flagged (ascii "-e") (env_settings args settings) ++ (rootfs ∷ init ∷ args.command));
    })
