-- ===== src/Start/Launch/Overrides.antt =====
-- No `-e` option of the user changes what the launcher itself tells the container.
use claudepod.Prelude.{
  ◌≡◌, refl, sym, ap, ◌∙◌, Option, none, some, Bool, true, false, List, [], ◌∷◌, ◌++◌, Bytes, ascii,
  Option-cases, inl, inr, if◌then◌else◌,
}
use claudepod.Outcome.{ok}
use claudepod.Outcome.Laws.{chain-ok, ok_injective}
use claudepod.Paths.{strip_prefix}
use claudepod.AgentEnv.{names_env}
use claudepod.StoreLayers
use claudepod.Start.EnvSpecs.{EnvSpec, join_env_names, env_arg}
use claudepod.Start.Volumes.{rootfs_spec}
use claudepod.Start.Binds.{Args}
use claudepod.Start.Podman.{
  Settings, Podman, spec_args, names_setting, timezone_setting, fixed_settings, env_settings,
  flagged, container_options, podman_command,
}

abbrev or_before : Option Bytes → Option Bytes → Option Bytes
or_before none before = before
or_before (some value) before = some value

-- The value of a variable from `NAME=VALUE` settings, of which the last one counts.
abbrev pub last_value : Bytes → List Bytes → Option Bytes
last_value name [] = none
last_value name (s ∷ settings) =
    or_before (last_value name settings) (strip_prefix (name ++ (b'=' ∷ [])) s)

last_value-append :
    (name : Bytes) (xs ys : List Bytes)
    → last_value name (xs ++ ys) ≡ or_before (last_value name ys) (last_value name xs)
last_value-append name [] ys = elim (Option-cases (last_value name ys)) [
  | inl e ↦ rw e refl
  | inr (v, e) ↦ rw e refl
]
last_value-append name (x ∷ xs) ys =
    ap (λ (o : Option Bytes). or_before o (strip_prefix (name ++ (b'=' ∷ [])) x))
      (last_value-append name xs ys)
    ∙ elim (Option-cases (last_value name ys)) [ inl e ↦ rw e refl | inr (v, e) ↦ rw e refl ]

last_value_later :
    (name v : Bytes) (xs ys : List Bytes)
    → last_value name ys ≡ some v
    → last_value name (xs ++ ys) ≡ some v
last_value_later name v xs ys e = last_value-append name xs ys ∙ rw e refl

last_value_earlier :
    (name : Bytes) (xs ys : List Bytes)
    → last_value name ys ≡ none
    → last_value name (xs ++ ys) ≡ last_value name xs
last_value_earlier name xs ys e = last_value-append name xs ys ∙ rw e refl

-- A setting of the last group stands.
fixed :
    (name v : Bytes) (args : Args) (s : Settings)
    → last_value name (fixed_settings s) ≡ some v
    → last_value name (env_settings args s) ≡ some v
unfolding env_settings
fixed name v args s e = last_value_later name v (spec_args s.specs) _ (
    last_value_later name v (names_setting s.specs) _ (
      last_value_later name v (if args.verbose then ascii "CLAUDEPOD_VERBOSE=1" ∷ [] else []) _ (
        last_value_later name v (if args.usb then ascii "CLAUDEPOD_USB=1" ∷ [] else []) _
          (last_value_later name v (timezone_setting s.timezone) _ e))))

-- The launcher's values, in the list of settings.
pub record Tells (args : Args) (s : Settings) (settings : List Bytes) : Type 0 where
  pub layers :
      last_value (ascii "CLAUDEPOD_STORE_LAYERS") settings ≡ some (StoreLayers.join s.layers)
  pub username : last_value (ascii "CLAUDEPOD_USERNAME") settings ≡ some s.username
  pub toplevel : last_value (ascii "CLAUDEPOD_TOPLEVEL") settings ≡ some s.toplevel
  pub project : last_value (ascii "CLAUDEPOD_PROJECT_PATH") settings ≡ some s.project_path
  pub mode : last_value (ascii "CLAUDEPOD_MODE") settings ≡ some s.mode
  pub names :
      (spec : EnvSpec) (specs : List EnvSpec)
      → s.specs ≡ spec ∷ specs
      → last_value names_env settings ≡ some (join_env_names s.specs)
  pub timezone :
      (t : Bytes) → s.timezone ≡ some t → last_value (ascii "CLAUDEPOD_TIMEZONE") settings ≡ some t
  pub verbose :
      args.verbose ≡ true → last_value (ascii "CLAUDEPOD_VERBOSE") settings ≡ some (ascii "1")
  pub usb : args.usb ≡ true → last_value (ascii "CLAUDEPOD_USB") settings ≡ some (ascii "1")

no_names_later :
    (verbose usb : Bool) (timezone : Option Bytes) (s : Settings)
    → last_value names_env (
        (if verbose then ascii "CLAUDEPOD_VERBOSE=1" ∷ [] else [])
        ++ ((if usb then ascii "CLAUDEPOD_USB=1" ∷ [] else [])
            ++ (timezone_setting timezone ++ fixed_settings s)))
      ≡ none
unfolding ascii strip_prefix names_env fixed_settings env_arg
no_names_later true true none s = refl
no_names_later true false none s = refl
no_names_later false true none s = refl
no_names_later false false none s = refl
no_names_later true true (some t) s = refl
no_names_later true false (some t) s = refl
no_names_later false true (some t) s = refl
no_names_later false false (some t) s = refl

names_last : (joined : Bytes) → last_value names_env (env_arg names_env joined ∷ []) ≡ some joined
unfolding ascii strip_prefix names_env env_arg
names_last joined = refl

-- What stands behind the settings of the user.
abbrev own_settings : Bool → Bool → Option Bytes → Settings → List Bytes
own_settings verbose usb timezone s =
    (if verbose then ascii "CLAUDEPOD_VERBOSE=1" ∷ [] else [])
    ++ ((if usb then ascii "CLAUDEPOD_USB=1" ∷ [] else [])
        ++ (timezone_setting timezone ++ fixed_settings s))

own :
    (args : Args) (s : Settings) (name v : Bytes)
    → last_value name (own_settings args.verbose args.usb s.timezone s) ≡ some v
    → last_value name (env_settings args s) ≡ some v
unfolding env_settings
own args s name v e =
    last_value_later name v (spec_args s.specs) _
      (last_value_later name v (names_setting s.specs) _ e)

own_timezone :
    (verbose usb : Bool) (t : Bytes) (s : Settings)
    → last_value (ascii "CLAUDEPOD_TIMEZONE") (own_settings verbose usb (some t) s) ≡ some t
unfolding ascii strip_prefix fixed_settings env_arg
own_timezone true true t s = refl
own_timezone true false t s = refl
own_timezone false true t s = refl
own_timezone false false t s = refl

own_verbose :
    (usb : Bool) (timezone : Option Bytes) (s : Settings)
    → last_value (ascii "CLAUDEPOD_VERBOSE") (own_settings true usb timezone s) ≡ some (ascii "1")
unfolding ascii strip_prefix fixed_settings env_arg
own_verbose true none s = refl
own_verbose true (some t) s = refl
own_verbose false none s = refl
own_verbose false (some t) s = refl

own_usb :
    (verbose : Bool) (timezone : Option Bytes) (s : Settings)
    → last_value (ascii "CLAUDEPOD_USB") (own_settings verbose true timezone s) ≡ some (ascii "1")
unfolding ascii strip_prefix fixed_settings env_arg
own_usb true none s = refl
own_usb true (some t) s = refl
own_usb false none s = refl
own_usb false (some t) s = refl

env_settings-Tells : (args : Args) (s : Settings) → Tells args s (env_settings args s)
unfolding ascii strip_prefix fixed_settings env_arg env_settings names_setting
env_settings-Tells args s = record {
  layers = fixed (ascii "CLAUDEPOD_STORE_LAYERS") _ args s refl;
  username = fixed (ascii "CLAUDEPOD_USERNAME") _ args s refl;
  toplevel = fixed (ascii "CLAUDEPOD_TOPLEVEL") _ args s refl;
  project = fixed (ascii "CLAUDEPOD_PROJECT_PATH") _ args s refl;
  mode = fixed (ascii "CLAUDEPOD_MODE") _ args s refl;
  names = λ spec specs e. last_value_later names_env _ (spec_args s.specs) _ (
      last_value_earlier names_env (names_setting s.specs) _
        (no_names_later args.verbose args.usb s.timezone s)
      ∙ rw e (names_last _));
  timezone = λ t e.
      own args s (ascii "CLAUDEPOD_TIMEZONE") t (rw e (own_timezone args.verbose args.usb t s));
  verbose = λ e.
      own args s (ascii "CLAUDEPOD_VERBOSE") (ascii "1") (rw e (own_verbose args.usb s.timezone s));
  usb = λ e.
      own args s (ascii "CLAUDEPOD_USB") (ascii "1") (rw e (own_usb args.verbose s.timezone s));
}

-- Where podman's command line is made, it ends with the settings of the environment, the root file
-- system, the init program and exactly the user's command. Of these settings the last ones count,
-- and whatever the user's `-e` options are, they say the launcher's own store layers, user, system,
-- project path and mode, its time zone where it has one, 1 for verbose and usb where these are asked
-- for, and where there are user variables, exactly the list of their names.
pub podman_command-Tells :
    (args : Args) (podman fuse : Bytes) (devices volumes : List Bytes) (s : Settings)
    (rootfs_dir init : Bytes) (p : Podman)
    → podman_command args podman fuse devices volumes s rootfs_dir init ≡ ok p
    → (before settings : List Bytes) × (rootfs : Bytes) × (rootfs_spec rootfs_dir ≡ ok rootfs)
      × (p.program ≡ podman)
      × (p.arguments ≡ before ++ (flagged (ascii "-e") settings ++ (rootfs ∷ init ∷ args.command)))
      × Tells args s settings
unfolding podman_command
podman_command-Tells args podman fuse devices volumes s rootfs_dir init p h =
    let (rootfs, r, e) = chain-ok (rootfs_spec rootfs_dir) _ p h in
    let q = sym (ok_injective e) in
    (
      container_options args fuse devices volumes,
      env_settings args s,
      rootfs,
      r,
      ap (λ (x : Podman). x.program) q,
      ap (λ (x : Podman). x.arguments) q,
      env_settings-Tells args s,
    )
