-- ===== src/Entry/Config/Kept.antt =====
-- What the steps that write the files under /run leave in them.
use claudepod.Prelude.{
  ◌≡◌, refl, sym, ap, ◌∙◌, Option, none, some, false, List, [], Bytes, ascii, bytes_eq,
}
use claudepod.Outcome.{ok}
use claudepod.Outcome.Laws.{err_ok, ok_injective}
use claudepod.Host.{Contents, put_at, Host, Faults, Vars, required}
use claudepod.Host.Successes.{
  Yields, bind-Yields, with_context-Yields, settled-Yields, pure-Yields, still-Yields,
  read_to_string-Yields, write_file-Yields,
}
use claudepod.AgentEnv.{names_env}
use claudepod.Entry.RuntimeEnv.{agent_env_names_from_raw}
use claudepod.Entry.Subids.{subid_file_from_map}
use claudepod.Entry.Config.{
  command_bytes, env_lines, with_newline, write_run_file, subid_file_from_map_path, verbose_path,
  verbose_config, write_verbose_config, write_launch_files, write_id_files,
}

pub required-some :
    {A : Type 0} (text : Bytes) (o : Option A) (a : A) → required text o ≡ ok a → o ≡ some a
required-some text none a h = absurd (err_ok h)
required-some text (some x) a h = ap some (ok_injective h)

module _ (faults : Faults) where
  pub write_run_file-Yields :
      (path contents : Bytes) (h h' : Host)
      → Yields (write_run_file faults path contents) h tt h'
      → h'.files ≡ put_at path (some contents) h.files
  unfolding write_run_file
  write_run_file-Yields path contents h h' e =
      write_file-Yields faults path contents h h' (with_context-Yields _ _ h tt h' e)

  verbose_config-files :
      (o : Option Bytes) (h h' : Host) (q : Bytes)
      → bytes_eq verbose_path q ≡ false
      → Yields (verbose_config faults o) h tt h'
      → h'.files q ≡ h.files q
  unfolding verbose_config
  verbose_config-files none h h' q ne e =
      ap (λ (t : Host). t.files q) (sym (pure-Yields tt h tt h' e).1)
  verbose_config-files (some value) h h' q ne e =
      let (u, t, e₁, e₂) = bind-Yields _ _ h tt h' e in
      let k = still-Yields faults (λ t. t) h t (λ t. refl) (with_context-Yields _ _ h u t e₁) in
      let w = write_file-Yields faults verbose_path _ t h' (with_context-Yields _ _ t tt h' e₂) in
      (λ i. w i q) ∙ rw ne (λ i. k i q)

  -- The files that are written last.
  abbrev pub launch_contents : Vars → Bytes → List Bytes → Bytes → List Bytes → Contents → Contents
  launch_contents vars system command layers names f =
      put_at (ascii "/run/claudepod-env") (some (env_lines vars [] names)) (
        put_at (ascii "/run/claudepod-toplevel") (some (with_newline system)) (
          put_at (ascii "/run/claudepod-store-layers") (some (with_newline layers))
            (put_at (ascii "/run/claudepod-command") (some (command_bytes [] command)) f)))

  write_launch_files-files :
      (vars : Vars) (system : Bytes) (command : List Bytes) (layers : Bytes) (h h' : Host)
      → Yields (write_launch_files faults vars system command layers) h tt h'
      → (names : List Bytes) × (agent_env_names_from_raw (vars names_env) ≡ ok names)
        × ((q : Bytes)
            → bytes_eq verbose_path q ≡ false
            → h'.files q ≡ launch_contents vars system command layers names h.files q)
  unfolding write_launch_files write_verbose_config
  write_launch_files-files vars system command layers h h' e =
      let (u₁, t₁, a₁, e₁) = bind-Yields _ _ h tt h' e in
      let (u₂, t₂, a₂, e₂) = bind-Yields _ _ t₁ tt h' e₁ in
      let (u₃, t₃, a₃, e₃) = bind-Yields _ _ t₂ tt h' e₂ in
      let (names, t₄, a₄, e₄) = bind-Yields _ _ t₃ tt h' e₃ in
      let (u₅, t₅, a₅, e₅) = bind-Yields _ _ t₄ tt h' e₄ in
      let (n, s) = settled-Yields _ t₃ names t₄ a₄ in
      let w₁ = write_run_file-Yields _ _ h t₁ a₁ in
      let w₂ = write_run_file-Yields _ _ t₁ t₂ a₂ in
      let w₃ = write_run_file-Yields _ _ t₂ t₃ a₃ in
      let w₅ = write_run_file-Yields _ _ t₄ t₅ a₅ in
      let w =
        w₅
        ∙ ap (put_at _ _)
            (ap (λ (t : Host). t.files) (sym s) ∙ w₃ ∙ ap (put_at _ _) (w₂ ∙ ap (put_at _ _) w₁)) in
      (names, n, λ q ne. verbose_config-files _ t₅ h' q ne e₅ ∙ (λ i. w i q))

  subid_file_from_map_path-Yields :
      (path : Bytes) (h : Host) (s : Bytes) (h' : Host)
      → Yields (subid_file_from_map_path faults path) h s h'
      → (m : Bytes) × (h.files path ≡ some m)
        × (subid_file_from_map m ≡ ok s)
        × (h'.files ≡ h.files)
  unfolding subid_file_from_map_path
  subid_file_from_map_path-Yields path h s h' e =
      let (m, t, e₁, e₂) = bind-Yields _ _ h s h' e in
      let (p, q) = read_to_string-Yields faults path h m t (with_context-Yields _ _ h m t e₁) in
      let (r, u) = settled-Yields _ t s h' e₂ in (m, p, r, ap (λ (t : Host). t.files) (sym u) ∙ q)

  abbrev pub id_contents : Bytes → Bytes → Contents → Contents
  id_contents su sg f =
      put_at (ascii "/run/claudepod-subgid") (some sg)
        (put_at (ascii "/run/claudepod-subuid") (some su) f)

  -- What is known of a map that was read: its text and what is delegated of it.
  abbrev pub FromMap : Contents → Bytes → Bytes → Type 0
  FromMap f path s = (m : Bytes) × (f path ≡ some m) × (subid_file_from_map m ≡ ok s)

  pub write_id_files-files :
      (vars : Vars) (system : Bytes) (command : List Bytes) (layers : Bytes) (h h' : Host)
      → Yields (write_id_files faults vars system command layers) h tt h'
      → (su : Bytes) × (sg : Bytes) × FromMap h.files (ascii "/proc/self/uid_map") su
        × FromMap h.files (ascii "/proc/self/gid_map") sg
        × (names : List Bytes) × (agent_env_names_from_raw (vars names_env) ≡ ok names)
        × ((q : Bytes)
            → bytes_eq verbose_path q ≡ false
            → h'.files q
              ≡ launch_contents vars system command layers names (id_contents su sg h.files) q)
  unfolding write_id_files ascii bytes_eq
  write_id_files-files vars system command layers h h' e =
      let (su, t₁, a₁, e₁) = bind-Yields _ _ h tt h' e in
      let (u₂, t₂, a₂, e₂) = bind-Yields _ _ t₁ tt h' e₁ in
      let (sg, t₃, a₃, e₃) = bind-Yields _ _ t₂ tt h' e₂ in
      let (u₄, t₄, a₄, e₄) = bind-Yields _ _ t₃ tt h' e₃ in
      let (mu, p₁, q₁, s₁) =
        subid_file_from_map_path-Yields (ascii "/proc/self/uid_map") h su t₁ a₁ in
      let w₂ = write_run_file-Yields (ascii "/run/claudepod-subuid") su t₁ t₂ a₂ in
      let (mg, p₃, q₃, s₃) =
        subid_file_from_map_path-Yields (ascii "/proc/self/gid_map") t₂ sg t₃ a₃ in
      let w₄ = write_run_file-Yields (ascii "/run/claudepod-subgid") sg t₃ t₄ a₄ in
      let (names, n, last) = write_launch_files-files vars system command layers t₄ h' e₄ in
      let f₂ = w₂ ∙ ap (put_at (ascii "/run/claudepod-subuid") (some su)) s₁ in
      let f₄ = w₄ ∙ ap (put_at (ascii "/run/claudepod-subgid") (some sg)) (s₃ ∙ f₂) in
      (
        su,
        sg,
        (mu, p₁, q₁),
        (mg, sym (λ i. f₂ i (ascii "/proc/self/gid_map")) ∙ p₃, q₃),
        names,
        n,
        λ q ne. last q ne ∙ (λ i. launch_contents vars system command layers names (f₄ i) q),
      )
