-- ===== src/Entry/Setup.antt =====
-- What src/bin/claudepod-entry.rs does before it becomes the guest's init.
pub mod Layers
pub mod Nested
use claudepod.Prelude.{
  ℕ, zero, suc, ◌+◌, Option, none, some, Bool, true, false, List, [], ◌∷◌, ◌++◌, Bytes, ascii,
  decimal, if◌then◌else◌,
}
use claudepod.Outcome.{
  Outcome, Error, library, message, io, not_found, not_present, invalid_utf8, ok, err, context, M,
  pure, fail, rescue, with_context, add_context, chain, ◌>>=◌, ◌>>◌,
}
use claudepod.Paths.{path_join}
use claudepod.Utf8.{from_utf8_lossy, is_utf8}
use claudepod.Host.{
  Host, Faults, Vars, Mount, not_empty, required, settled, create_dir_all, mount, remove_file,
  symlink,
}
use claudepod.StoreLayers
use claudepod.Entry.Config.{is_set, write_runtime_config}

unfoldable pub store_layers_env : Bytes
store_layers_env = ascii "CLAUDEPOD_STORE_LAYERS"

abbrev pub timezone_env : Bytes
timezone_env = ascii "CLAUDEPOD_TIMEZONE"

unfoldable pub store_upper_dir : Bytes
store_upper_dir = ascii "/nix/.rw-store/store"

abbrev pub localtime_path : Bytes
localtime_path = ascii "/etc/localtime"

abbrev pub usb_env : Bytes
usb_env = ascii "CLAUDEPOD_USB"

abbrev pub host_dev_subdir : Bytes
host_dev_subdir = ascii "host"

abbrev pub usb_device_classes : List Bytes
usb_device_classes = ascii "hidraw" ∷ ascii "ttyUSB" ∷ []

abbrev pub usb_device_links_per_class : ℕ
usb_device_links_per_class = 64

-- `Err(err) if err.kind() == NotFound => {}`, and any other error with its context.
abbrev pub unless_not_found : Bytes → Error → M Host (Unit {0})
unless_not_found text (library (io not_found)) = pure tt
unless_not_found text e = fail (context text e)

unfoldable pub overlay_options : List Bytes → Bytes
overlay_options lower_layers =
    ascii "lowerdir="
    ++ (StoreLayers.join lower_layers
        ++ (ascii ",upperdir="
            ++ (store_upper_dir ++ ascii ",workdir=/nix/.rw-store/work,userxattr")))

abbrev pub store_tmpfs : Mount
store_tmpfs = record {
  source = ascii "none";
  target = ascii "/nix/.rw-store";
  fs_type = ascii "tmpfs";
  options = ascii "mode=755";
}

abbrev pub store_overlay : List Bytes → Mount
store_overlay lower_layers = record {
  source = ascii "overlay";
  target = ascii "/nix/store";
  fs_type = ascii "overlay";
  options = overlay_options lower_layers;
}

-- The layers that are inherited.
unfoldable pub inherited_layers : Vars → Outcome (List Bytes)
inherited_layers vars =
    chain (required (store_layers_env ++ ascii " is not set") (not_empty (vars store_layers_env)))
      λ raw. add_context (ascii "parse " ++ store_layers_env) (StoreLayers.parse raw)

-- The program that is executed in the end, and what is added to its environment.
pub record Exec : Type 0 where
  pub program : Bytes
  pub added : List (Bytes × Bytes)

abbrev read_username : Option Bytes → Outcome Bytes
read_username none = err (library not_present)
read_username (some value) = if is_utf8 value then ok value else err (library (invalid_utf8 value))

abbrev container_vars : Option Bytes → List (Bytes × Bytes)
container_vars none = (ascii "container", ascii "podman") ∷ []
container_vars (some value) = []

module _ (faults : Faults) where
  unfoldable pub create_link : Bytes → Bytes → M Host (Unit {0})
  create_link dev name =
      let target = path_join host_dev_subdir name in
      let link = path_join dev name in
      with_context
        (ascii "create " ++ (from_utf8_lossy link ++ (ascii " -> " ++ from_utf8_lossy target)))
        (symlink faults target link)

  -- `for n in 0..USB_DEVICE_LINKS_PER_CLASS`, with the rounds that are left.
  unfoldable pub class_links : Bytes → Bytes → ℕ → ℕ → M Host (Unit {0})
  class_links dev class n zero = pure tt
  class_links dev class n (suc left) = do
    create_link dev (class ++ decimal n)
    class_links dev class (n + 1) left

  unfoldable pub each_class : Bytes → List Bytes → M Host (Unit {0})
  each_class dev [] = pure tt
  each_class dev (class ∷ classes) = do
    class_links dev class 0 usb_device_links_per_class
    each_class dev classes

  unfoldable pub create_usb_device_links : Bytes → M Host (Unit {0})
  create_usb_device_links dev = each_class dev usb_device_classes

  -- Where a time zone is given, the old link goes and one to its file is made.
  unfoldable pub localtime_link : Option Bytes → M Host (Unit {0})
  localtime_link none = pure tt
  localtime_link (some timezone) = do
    let target = path_join (ascii "/etc/zoneinfo") timezone
    rescue (remove_file faults localtime_path) (unless_not_found (ascii "remove /etc/localtime"))
    with_context (ascii "create /etc/localtime -> " ++ from_utf8_lossy target)
        (symlink faults target localtime_path)

module _ (faults : Faults) (vars : Vars) where
  unfoldable pub setup_store_overlay : M Host Bytes
  setup_store_overlay = do
    lower_layers ← settled (inherited_layers vars)
    with_context (ascii "create /nix/.rw-store") (create_dir_all faults (ascii "/nix/.rw-store"))
    with_context (ascii "mount tmpfs on /nix/.rw-store") (mount faults store_tmpfs)
    with_context (ascii "create overlay upper dir") (create_dir_all faults store_upper_dir)
    with_context (ascii "create overlay work dir")
        (create_dir_all faults (ascii "/nix/.rw-store/work"))
    with_context (ascii "mount overlay on /nix/store") (mount faults (store_overlay lower_layers))
    pure (StoreLayers.join (store_upper_dir ∷ lower_layers))

  unfoldable pub setup_localtime : M Host (Unit {0})
  setup_localtime = localtime_link faults (not_empty (vars timezone_env))

  -- `run`, up to the `exec` that ends it.
  unfoldable pub run : List Bytes → M Host Exec
  run command = do
    system ←
        settled
          (required (ascii "CLAUDEPOD_TOPLEVEL is not set") (vars (ascii "CLAUDEPOD_TOPLEVEL")))
    username ← settled (
        add_context (ascii "CLAUDEPOD_USERNAME is not set")
          (read_username (vars (ascii "CLAUDEPOD_USERNAME"))))
    layers ← with_context (ascii "mount setup") setup_store_overlay
    with_context (ascii "write runtime config")
        (write_runtime_config faults vars system username command layers)
    with_context (ascii "setup localtime") setup_localtime
    if is_set (not_empty (vars usb_env))
        then with_context (ascii "create USB device links")
            (create_usb_device_links faults (ascii "/dev"))
        else pure tt
    pure (record {
      program = system ++ ascii "/init";
      added =
          container_vars (vars (ascii "container"))
          ++ ((ascii "SYSTEMD_DEFAULT_MOUNT_RATE_LIMIT_BURST", ascii "1000") ∷ []);
    })

-- The definitions of this file, by one name for `unfolding` lines that run them.
unfoldable pub setup_code : Unit {0}
unfolding store_layers_env store_upper_dir overlay_options inherited_layers setup_store_overlay
    localtime_link setup_localtime create_link class_links each_class create_usb_device_links run
setup_code = tt
