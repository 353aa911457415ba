-- ===== src/Start/Launch.antt =====
-- `main` of src/bin/claudepod-start.rs.
pub mod Overrides
pub mod Mounts
mod Examples
use claudepod.Prelude.{
  ℕ, zero, suc, ◌+◌, Option, none, some, Bool, true, false, not, List, [], ◌∷◌, ◌++◌, map, Bytes,
  ascii, decimal, length, ◌==◌, if◌then◌else◌,
}
use claudepod.Outcome.{
  Outcome, ok, err, message, M, pure, fail, with_context, chain, add_context, ◌>>=◌, ◌>>◌,
}
use claudepod.Paths.{components, strip_parts, join_parts, path_join}
use claudepod.Utf8.{from_utf8_lossy}
use claudepod.Host.{Host, Faults, Vars, required, settled, create_dir_all}
use claudepod.AgentEnv.{names_env}
use claudepod.StoreLayers
use claudepod.Start.EnvSpecs.{EnvSpec, parse_env_spec, parse_env_specs, join_env_names, env_arg}
use claudepod.Start.Volumes.{volume_spec, rootfs_spec, extra_volume_spec}
use claudepod.Start.Ports.{PortMap, pasta_network_arg, publish_arg}
use claudepod.Start.Inputs.{
  store_layer_mount_dir, default_mode_from_command_name, required_env_os, toplevel,
  parent_store_layers,
}
use claudepod.Start.Project.{guest_home, src_root, one_to_one_project_roots, guest_project_path}
use claudepod.Start.Manifest.{Command, Output, nix_run_roots_manifest}
use claudepod.Start.ProxyChild.{Process, state_dir, sibling, spawn_nix_proxy}
use claudepod.Start.Binds.{
  Args, System, all_volumes, base_volumes, child_layers, dev_shm_size, extra_specs, layer_volumes,
  opengl_driver_dir, opengl_driver_env, usb_specs, volume_specs,
}
use claudepod.Start.Podman.{
  Podman, container_options, env_settings, fixed_settings, flagged, names_setting, podman_command,
  run_options, spec_args,
}

-- The devices and the variables of `--gpu`.
unfoldable pub gpu_inputs : Args → System → List EnvSpec → Outcome (List Bytes × List EnvSpec)
gpu_inputs args system env =
    if args.gpu
    then (chain system.devices λ devices.
        if not system.opengl_driver
        then err (message (ascii "--gpu: " ++ (opengl_driver_dir ++ ascii " not found")))
        else chain (parse_env_spec opengl_driver_env) λ spec. ok (devices, spec ∷ env))
    else ok ([], env)

unfoldable pub home_dir_of : Args → System → Bytes → Outcome Bytes
home_dir_of args system state = elim (args.sandbox_home) [
  | none ↦ ok (path_join state (ascii "home"))
  | some path ↦ add_context (ascii "resolve --sandbox-home") (system.absolute path)
]

unfoldable pub src_root_of : Args → System → Outcome (Option Bytes)
src_root_of args system = elim (args.sandbox_home) [
  | some path ↦ ok none
  | none ↦ chain (src_root system.vars) λ root. ok (some root)
]

unfoldable pub check_rootfs : Bytes → Outcome ℕ → Outcome (Unit {0})
check_rootfs rootfs_dir entries =
    chain (add_context (ascii "read " ++ from_utf8_lossy rootfs_dir) entries) λ n.
      if n == 0 then ok tt else err (message (from_utf8_lossy rootfs_dir ++ ascii " is not empty"))

module _ (faults : Faults) (args : Args) (system : System) where
  -- A directory in the guest's home, made by the invoking user.
  unfoldable pub create_mountpoint : Bytes → Bytes → Bytes × Bool → M Host (Unit {0})
  create_mountpoint home home_dir guest =
      elim (strip_parts (components home) (components guest.0)) [
        | none ↦ pure tt
        | some rel ↦
            let mountpoint = path_join home_dir (join_parts rel) in
            if guest.1
            then with_context (ascii "create " ++ from_utf8_lossy mountpoint)
                (create_dir_all faults mountpoint)
            else pure tt
      ]

  unfoldable pub create_dir : Bytes → M Host (Unit {0})
  create_dir dir = with_context (ascii "create " ++ from_utf8_lossy dir) (create_dir_all faults dir)

  unfoldable pub main : M Host Podman
  main = do
    user_env ← settled (parse_env_specs args.env)
    gpu ← settled (gpu_inputs args system user_env)
    top ← toplevel faults system.vars
    podman ← settled (required_env_os system.vars (ascii "CLAUDEPOD_PODMAN"))
    fuse_overlayfs ← settled (required_env_os system.vars (ascii "CLAUDEPOD_FUSE_OVERLAYFS"))
    username ← settled system.username
    let home = guest_home username
    mode ← settled (
        if args.shell
        then ok (ascii "shell")
        else default_mode_from_command_name system.quoted system.command_name)
    state ← settled (state_dir system.process)
    home_dir ← settled (home_dir_of args system state)
    create_dir home_dir
    let rootfs_dir = path_join state (ascii "empty-rootfs")
    create_dir rootfs_dir
    settled (check_rootfs rootfs_dir system.rootfs_entries)
    project_dir ← settled (add_context (ascii "current directory") system.current_dir)
    src ← settled (src_root_of args system)
    guest ←
        settled (guest_project_path project_dir src (one_to_one_project_roots system.vars) username)
    create_mountpoint home home_dir guest
    parents ← parent_store_layers faults
    roots ←
        nix_run_roots_manifest faults system.run_nix system.cache_file system.process.pid
          system.vars args.build_nix_run_roots
    socket ← spawn_nix_proxy faults system.process system.spawn system.daemon_socket roots
    volumes ← settled (
        all_volumes args system
          (base_volumes args socket home_dir home src parents project_dir guest))
    init ← settled (sibling system.process (ascii "claudepod-entry"))
    settled (
        podman_command args podman fuse_overlayfs gpu.0 volumes
          (record {
            specs = gpu.1;
            timezone = system.timezone;
            layers = child_layers 0 parents;
            username = username;
            toplevel = top;
            project_path = guest.0;
            mode = mode;
          })
          rootfs_dir init)
