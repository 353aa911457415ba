-- ===== src/Start/Manifest.antt =====
-- The manifest of the nix run roots as src/bin/claudepod-start.rs finds, makes or does without it.
use claudepod.Prelude.{
  ℕ, Option, none, some, Bool, true, false, not, ◌&&◌, ◌||◌, List, [], ◌∷◌, ◌++◌, Bytes, ascii,
  length, ◌==◌, if◌then◌else◌,
}
use claudepod.Outcome.{
  Outcome, ok, err, message, M, pure, fail, with_context, chain, add_context, ◌>>=◌, ◌>>◌,
}
use claudepod.Utf8.{is_utf8, from_utf8_lossy}
use claudepod.Utf8.Words.{trim}
use claudepod.StorePath.{validate_direct}
use claudepod.AgentEnv.{is_ascii_alphabetic, is_ascii_digit}
use claudepod.Host.{Host, Faults, Vars, not_empty, required, settled, try_exists}
use claudepod.Start.Inputs.{required_env_os}
use claudepod.Start.Volumes.{nix_run_roots_manifest_relative_path}
use claudepod.Start.AtomicWrite.{load_file, write_nix_run_roots_manifest_atomic}

pub record BuildInputs : Type 0 where
  pub guest_system : Bytes
  pub nixpkgs : Bytes
  pub nix : Bytes

-- Each line with a line feed behind it.
unfoldable pub with_line_feeds : List Bytes → Bytes
with_line_feeds [] = []
with_line_feeds (line ∷ ls) = line ++ (10 ∷ with_line_feeds ls)

unfoldable pub nix_run_roots_expr : Bytes
unfolding with_line_feeds
nix_run_roots_expr = with_line_feeds (
    []
    ∷ ascii "let"
    ∷ ascii "  nixpkgs = /. + builtins.getEnv \"CLAUDEPOD_NIXPKGS\";"
    ∷ ascii "  guestSystem = builtins.getEnv \"CLAUDEPOD_GUEST_SYSTEM\";"
    ∷ ascii "  pkgs = import nixpkgs {"
    ∷ ascii "    system = guestSystem;"
    ∷ ascii "    config = {"
    ∷ ascii "      allowUnfree = true;"
    ∷ ascii "      allowAliases = false;"
    ∷ ascii "    };"
    ∷ ascii "  };"
    ∷ ascii "  outputPathFor = name:"
    ∷ ascii "    let"
    ∷ ascii "      result = builtins.tryEval ("
    ∷ ascii "        let value = pkgs.${name};"
    ∷ ascii "        in if pkgs.lib.isDerivation value then toString value else null"
    ∷ ascii "      );"
    ∷ ascii "    in"
    ∷ ascii "      if result.success && result.value != null"
    ∷ ascii "      then [ (builtins.unsafeDiscardStringContext result.value) ]"
    ∷ ascii "      else [];"
    ∷ ascii "  paths = builtins.concatMap outputPathFor (builtins.attrNames pkgs);"
    ∷ ascii "  sortedPaths = builtins.attrNames (builtins.listToAttrs (map (path: {"
    ∷ ascii "    name = path;"
    ∷ ascii "    value = true;"
    ∷ ascii "  }) paths));"
    ∷ ascii "in"
    ∷ ascii
        "  if sortedPaths == [] then \"\" else builtins.concatStringsSep \"\\n\" sortedPaths + \"\\n\""
    ∷ [])

-- `bytes().all(|byte| …)` of `validate_nix_run_roots_inputs`
unfoldable pub system_name_bytes : Bytes → Bool
system_name_bytes [] = true
system_name_bytes (b ∷ bs) =
    (is_ascii_alphabetic b || is_ascii_digit b || b == b'_' || b == b'-') && system_name_bytes bs

unfoldable pub check_guest_system : Bytes → Outcome (Unit {0})
check_guest_system name =
    if not (is_utf8 name)
    then err (message (ascii "CLAUDEPOD_GUEST_SYSTEM is not valid UTF-8"))
    else if length name == 0 || not (system_name_bytes name)
    then err (message (ascii "CLAUDEPOD_GUEST_SYSTEM is not a supported Nix system name"))
    else ok tt

unfoldable pub validate_nix_run_roots_inputs : BuildInputs → Outcome (Unit {0})
validate_nix_run_roots_inputs inputs =
    chain
      (add_context (ascii "parse CLAUDEPOD_NIXPKGS=" ++ from_utf8_lossy inputs.nixpkgs)
        (validate_direct inputs.nixpkgs))
      λ _. check_guest_system inputs.guest_system

-- A program with what is added to its environment, and its arguments.
pub record Command : Type 0 where
  pub program : Bytes
  pub added : List (Bytes × Bytes)
  pub arguments : List Bytes

unfoldable pub nix_run_roots_command : BuildInputs → Outcome Command
nix_run_roots_command inputs = chain (validate_nix_run_roots_inputs inputs) λ _. ok (record {
  program = inputs.nix;
  added =
      (ascii "CLAUDEPOD_GUEST_SYSTEM", inputs.guest_system)
      ∷ (ascii "CLAUDEPOD_NIXPKGS", inputs.nixpkgs)
      ∷ [];
  arguments =
      ascii "--extra-experimental-features"
      ∷ ascii "nix-command"
      ∷ ascii "eval"
      ∷ ascii "--impure"
      ∷ ascii "--raw"
      ∷ ascii "--expr"
      ∷ nix_run_roots_expr
      ∷ [];
})

-- `Output` of a child; `status` is its exit status as it is displayed.
pub record Output : Type 0 where
  pub success : Bool
  pub status : Bytes
  pub stdout : Bytes
  pub stderr : Bytes

unfoldable pub check_output : Bytes → Output → Outcome Bytes
check_output nix output =
    let stderr = trim (from_utf8_lossy output.stderr) in
    let said = from_utf8_lossy nix ++ (ascii " exited with " ++ output.status) in
    if output.success
    then ok output.stdout
    else if length stderr == 0
    then err (message said)
    else err (message (said ++ (ascii ": " ++ stderr)))

-- What running a command comes to is a parameter.
unfoldable pub generate_nix_run_roots_manifest :
    (Command → Outcome Output) → BuildInputs → Outcome Bytes
generate_nix_run_roots_manifest run inputs = chain (nix_run_roots_command inputs) λ command.
    chain (add_context (ascii "run " ++ from_utf8_lossy inputs.nix) (run command))
      λ output. check_output inputs.nix output

-- `get_cache_file` of the xdg library is a parameter.
unfoldable pub nix_run_roots_manifest_path : (Bytes → Option Bytes) → Bytes → Bytes → Outcome Bytes
nix_run_roots_manifest_path cache_file guest_system nixpkgs =
    chain (nix_run_roots_manifest_relative_path guest_system nixpkgs) λ relative.
      required (ascii "HOME is not set and XDG_CACHE_HOME is unavailable") (cache_file relative)

module _ (faults : Faults) where
  unfoldable pub load_nix_run_roots_manifest : Bytes → M Host (Option Bytes)
  load_nix_run_roots_manifest path = do
    there ← with_context (ascii "stat " ++ from_utf8_lossy path) (try_exists faults path)
    if there then (load_file faults path >> pure (some path)) else pure none

  unfoldable pub build_nix_run_roots_manifest :
      (Command → Outcome Output) → ℕ → Bytes → BuildInputs → M Host (Unit {0})
  build_nix_run_roots_manifest run pid path inputs = do
    manifest ← settled (generate_nix_run_roots_manifest run inputs)
    write_nix_run_roots_manifest_atomic faults pid path manifest

  module _ (run : Command → Outcome Output) (cache_file : Bytes → Option Bytes) (pid : ℕ)
      (vars : Vars) where
    -- Where both variables are set.
    unfoldable pub manifest_for : Bool → Bytes → Bytes → M Host (Option Bytes)
    manifest_for build guest_system nixpkgs = do
      path ← settled (nix_run_roots_manifest_path cache_file guest_system nixpkgs)
      loaded ← load_nix_run_roots_manifest path
      elim loaded [
        | some found ↦ pure (some found)
        | none ↦
            if build
            then (settled (required_env_os vars (ascii "CLAUDEPOD_NIX")) >>= λ nix.
                build_nix_run_roots_manifest run pid path
                  (record { guest_system = guest_system; nixpkgs = nixpkgs; nix = nix })
                >> pure (some path))
            else pure none
      ]

    unfoldable pub without_inputs : Bool → M Host (Option Bytes)
    without_inputs true = fail (
        message (
          ascii
            "--build-nix-run-roots requires CLAUDEPOD_GUEST_SYSTEM, CLAUDEPOD_NIXPKGS, and CLAUDEPOD_NIX"))
    without_inputs false = pure none

    abbrev pub with_inputs : Bool → Option Bytes → Option Bytes → M Host (Option Bytes)
    with_inputs build (some guest_system) (some nixpkgs) = manifest_for build guest_system nixpkgs
    with_inputs build none nixpkgs = without_inputs build
    with_inputs build (some guest_system) none = without_inputs build

    unfoldable pub nix_run_roots_manifest : Bool → M Host (Option Bytes)
    nix_run_roots_manifest build =
        with_inputs build (not_empty (vars (ascii "CLAUDEPOD_GUEST_SYSTEM")))
          (not_empty (vars (ascii "CLAUDEPOD_NIXPKGS")))
