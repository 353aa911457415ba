-- ===== src/Start/Binds.antt =====
-- src/bin/claudepod-start.rs: the options of the launcher, and the volumes of the container.
use claudepod.Prelude.{
  ℕ, ◌+◌, Option, none, some, Bool, List, [], ◌∷◌, ◌++◌, Bytes, ascii, decimal, if◌then◌else◌,
}
use claudepod.Outcome.{Outcome, ok, err, message, chain}
use claudepod.Paths.{path_join}
use claudepod.Host.{Vars}
use claudepod.Start.Volumes.{volume_spec, extra_volume_spec}
use claudepod.Start.Ports.{PortMap}
use claudepod.Start.Inputs.{store_layer_mount_dir}
use claudepod.Start.Project.{src_root}
use claudepod.Start.Manifest.{Command, Output}
use claudepod.Start.ProxyChild.{Process}

abbrev pub opengl_driver_dir : Bytes
opengl_driver_dir = ascii "/run/opengl-driver"

abbrev pub opengl_driver_env : Bytes
opengl_driver_env = ascii "LD_LIBRARY_PATH=/run/opengl-driver/lib"

abbrev pub usbfs_dir : Bytes
usbfs_dir = ascii "/dev/bus/usb"

abbrev pub host_dev_dir : Bytes
host_dev_dir = ascii "/dev/host"

abbrev pub dev_shm_size : Bytes
dev_shm_size = ascii "2g"

-- The options, as clap parses them.
pub record Args : Type 0 where
  pub shell : Bool
  pub verbose : Bool
  pub extra_volumes : List Bytes
  pub env : List Bytes
  pub host_port : List PortMap
  pub publish : List PortMap
  pub sandbox_home : Option Bytes
  pub gpu : Bool
  pub usb : Bool
  pub build_nix_run_roots : Bool
  pub command : List Bytes

-- What is asked of the system, beside files: `devices` is the result for `/dev`, `rootfs_entries`
-- the number of entries in the directory that must be empty.
pub record System : Type 0 where
  pub devices : Outcome (List Bytes)
  pub opengl_driver : Bool
  pub usbfs : Bool
  pub daemon_socket : Bool
  pub command_name : Bytes
  pub quoted : Bytes → Bytes
  pub vars : Vars
  pub username : Outcome Bytes
  pub absolute : Bytes → Outcome Bytes
  pub rootfs_entries : Outcome ℕ
  pub current_dir : Outcome Bytes
  pub timezone : Option Bytes
  pub cache_file : Bytes → Option Bytes
  pub run_nix : Command → Outcome Output
  pub spawn : Bytes → List Bytes → Outcome (Unit {0})
  pub process : Process

-- A volume before it is written as one text.
pub record Volume : Type 0 where
  pub host : Bytes
  pub guest : Bytes
  pub options : Option Bytes

abbrev pub read_only : Option Bytes
read_only = some (ascii "ro")

-- `.iter().zip(&child_layers)`, with the number of the next child layer.
unfoldable pub layer_volumes : ℕ → List Bytes → List Volume
layer_volumes idx [] = []
layer_volumes idx (layer ∷ layers) =
    record {
      host = layer;
      guest = path_join store_layer_mount_dir (decimal idx);
      options = read_only;
    }
    ∷ layer_volumes (idx + 1) layers

-- `(0..parent_layers.len()).map(…)`
unfoldable pub child_layers : ℕ → List Bytes → List Bytes
child_layers idx [] = []
child_layers idx (layer ∷ layers) =
    path_join store_layer_mount_dir (decimal idx) ∷ child_layers (idx + 1) layers

abbrev pub src_volumes : Bytes → Option Bytes → List Volume
src_volumes home none = []
src_volumes home (some src) =
    record { host = src; guest = path_join home (ascii "src"); options = none } ∷ []

-- The volumes in the order in which they are pushed, before those of `--usb`.
unfoldable pub base_volumes :
    Args → Bytes → Bytes → Bytes → Option Bytes → List Bytes → Bytes → Bytes × Bool → List Volume
base_volumes args proxy_socket home_dir home src_root parent_layers project_dir guest =
    record { host = ascii "/nix/store"; guest = ascii "/nix/store"; options = read_only }
    ∷ record { host = proxy_socket; guest = ascii "/nix/.host-nix-daemon/socket"; options = none }
    ∷ record { host = home_dir; guest = home; options = none }
    ∷ (src_volumes home src_root
        ++ (layer_volumes 0 parent_layers
            ++ ((if guest.1
                  then record { host = project_dir; guest = guest.0; options = none } ∷ []
                  else [])
                ++ (if args.gpu
                    then record {
                      host = opengl_driver_dir;
                      guest = opengl_driver_dir;
                      options = read_only;
                    }
                      ∷ []
                    else []))))

abbrev pub usb_volumes : List Volume
usb_volumes =
    record { host = usbfs_dir; guest = usbfs_dir; options = none }
    ∷ record { host = ascii "/dev"; guest = host_dev_dir; options = none }
    ∷ []

-- One `volume_spec(…)?` after another.
unfoldable pub volume_specs : List Volume → Outcome (List Bytes)
volume_specs [] = ok []
volume_specs (v ∷ vs) =
    chain (volume_spec v.host v.guest v.options)
      λ spec. chain (volume_specs vs) λ specs. ok (spec ∷ specs)

unfoldable pub usb_specs : Args → Bool → Outcome (List Bytes)
usb_specs args usbfs =
    if args.usb
    then (if usbfs
        then volume_specs usb_volumes
        else err (message (ascii "--usb: " ++ (usbfs_dir ++ ascii " not found"))))
    else ok []

unfoldable pub extra_specs : (Bytes → Outcome Bytes) → List Bytes → Outcome (List Bytes)
extra_specs absolute [] = ok []
extra_specs absolute (spec ∷ specs) =
    chain (extra_volume_spec absolute spec)
      λ s. chain (extra_specs absolute specs) λ rest. ok (s ∷ rest)

unfoldable pub all_volumes : Args → System → List Volume → Outcome (List Bytes)
all_volumes args system base = chain (volume_specs base) λ specs.
    chain (usb_specs args system.usbfs) λ usb.
      chain (extra_specs system.absolute args.extra_volumes) λ extra. ok (specs ++ (usb ++ extra))
