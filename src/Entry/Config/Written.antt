-- ===== src/Entry/Config/Written.antt =====
-- A runtime configuration that was written is there, file by file.
use claudepod.Prelude.{
  ◌≡◌, refl, sym, ap, ◌∙◌, some, false, List, [], ◌∷◌, ◌++◌, Bytes, ascii, bytes_eq,
}
use claudepod.Outcome.{ok}
use claudepod.Host.{Contents, put_at, Host, Faults, Vars, not_empty}
use claudepod.Host.Successes.{Yields, bind-Yields, settled-Yields}
use claudepod.AgentEnv.{names_env}
use claudepod.Entry.RuntimeEnv.{agent_env_names_from_raw}
use claudepod.Entry.Subids.{subid_file_from_map}
use claudepod.Entry.Config.{
  required_env_bytes, with_newline, verbose_path, write_id_files, write_runtime_config,
}
use claudepod.Entry.Config.Listed.{terminated, command_bytes-terminated, Lines, env_lines-Lines}
use claudepod.Entry.Config.Kept.{
  FromMap, id_contents, launch_contents, required-some, write_id_files-files, write_run_file-Yields,
}

-- What stands in the files under /run, from the contents of files before.
pub record Configured (vars : Vars) (system username : Bytes) (command : List Bytes)
    (layers : Bytes) (before now : Contents) : Type 0 where
  pub username_is : now (ascii "/run/claudepod-username") ≡ some (username ++ (10 ∷ []))
  pub project_is :
      (p : Bytes) × (not_empty (vars (ascii "CLAUDEPOD_PROJECT_PATH")) ≡ some p)
      × (now (ascii "/run/claudepod-project") ≡ some (p ++ (10 ∷ [])))
  pub mode_is :
      (m : Bytes) × (not_empty (vars (ascii "CLAUDEPOD_MODE")) ≡ some m)
      × (now (ascii "/run/claudepod-mode") ≡ some (m ++ (10 ∷ [])))
  pub subuid_is :
      (m : Bytes) × (s : Bytes) × (before (ascii "/proc/self/uid_map") ≡ some m)
      × (subid_file_from_map m ≡ ok s)
      × (now (ascii "/run/claudepod-subuid") ≡ some s)
  pub subgid_is :
      (m : Bytes) × (s : Bytes) × (before (ascii "/proc/self/gid_map") ≡ some m)
      × (subid_file_from_map m ≡ ok s)
      × (now (ascii "/run/claudepod-subgid") ≡ some s)
  pub command_is : now (ascii "/run/claudepod-command") ≡ some (terminated command)
  pub layers_is : now (ascii "/run/claudepod-store-layers") ≡ some (layers ++ (10 ∷ []))
  pub toplevel_is : now (ascii "/run/claudepod-toplevel") ≡ some (system ++ (10 ∷ []))
  pub env_is :
      (names : List Bytes) × (agent_env_names_from_raw (vars names_env) ≡ ok names)
      × (lines : Bytes) × Lines vars names lines
      × (now (ascii "/run/claudepod-env") ≡ some lines)

module _ (faults : Faults) where
  abbrev mode_contents : Bytes → Bytes → Bytes → Contents → Contents
  mode_contents username project mode f =
      put_at (ascii "/run/claudepod-mode") (some (with_newline mode)) (
        put_at (ascii "/run/claudepod-project") (some (with_newline project))
          (put_at (ascii "/run/claudepod-username") (some (with_newline username)) f))

  write_runtime_config-files :
      (vars : Vars) (system username : Bytes) (command : List Bytes) (layers : Bytes) (h h' : Host)
      → Yields (write_runtime_config faults vars system username command layers) h tt h'
      → (p : Bytes) × (not_empty (vars (ascii "CLAUDEPOD_PROJECT_PATH")) ≡ some p)
        × (m : Bytes) × (not_empty (vars (ascii "CLAUDEPOD_MODE")) ≡ some m)
        × (t : Host) × (t.files ≡ mode_contents username p m h.files)
        × Yields (write_id_files faults vars system command layers) t tt h'
  unfolding write_runtime_config required_env_bytes
  write_runtime_config-files vars system username command layers h h' e =
      let (u₁, t₁, a₁, e₁) = bind-Yields _ _ h tt h' e in
      let (p, t₂, a₂, e₂) = bind-Yields _ _ t₁ tt h' e₁ in
      let (u₃, t₃, a₃, e₃) = bind-Yields _ _ t₂ tt h' e₂ in
      let (m, t₄, a₄, e₄) = bind-Yields _ _ t₃ tt h' e₃ in
      let (u₅, t₅, a₅, e₅) = bind-Yields _ _ t₄ tt h' e₄ in
      let w₁ = write_run_file-Yields faults _ (with_newline username) h t₁ a₁ in
      let (p₂, s₂) = settled-Yields _ t₁ p t₂ a₂ in
      let w₃ = write_run_file-Yields faults _ (with_newline p) t₂ t₃ a₃ in
      let (p₄, s₄) = settled-Yields _ t₃ m t₄ a₄ in
      let w₅ = write_run_file-Yields faults _ (with_newline m) t₄ t₅ a₅ in
      let f₃ =
        w₃
        ∙ ap (put_at (ascii "/run/claudepod-project") (some (with_newline p)))
            (ap (λ (t : Host). t.files) (sym s₂) ∙ w₁) in
      let f₅ =
        w₅
        ∙ ap (put_at (ascii "/run/claudepod-mode") (some (with_newline m)))
            (ap (λ (t : Host). t.files) (sym s₄) ∙ f₃) in
      (p, required-some _ _ p p₂, m, required-some _ _ m p₄, t₅, f₅, e₅)

  configured :
      (vars : Vars) (system username : Bytes) (command : List Bytes) (layers : Bytes)
      (before now : Contents) (p m su sg : Bytes) (names : List Bytes)
      → not_empty (vars (ascii "CLAUDEPOD_PROJECT_PATH")) ≡ some p
      → not_empty (vars (ascii "CLAUDEPOD_MODE")) ≡ some m
      → FromMap faults before (ascii "/proc/self/uid_map") su
      → FromMap faults before (ascii "/proc/self/gid_map") sg
      → agent_env_names_from_raw (vars names_env) ≡ ok names
      → ((q : Bytes)
          → bytes_eq verbose_path q ≡ false
          → now q
            ≡ launch_contents faults vars system command layers names
                (id_contents faults su sg (mode_contents username p m before))
                q)
      → Configured vars system username command layers before now
  unfolding ascii bytes_eq
  configured vars system username command layers before now p m su sg names hp hm (mu, u, u')
        (mg, g, g') n at =
      record {
        username_is = at (ascii "/run/claudepod-username") refl;
        project_is = (p, hp, at (ascii "/run/claudepod-project") refl);
        mode_is = (m, hm, at (ascii "/run/claudepod-mode") refl);
        subuid_is = (mu, su, u, u', at (ascii "/run/claudepod-subuid") refl);
        subgid_is = (mg, sg, g, g', at (ascii "/run/claudepod-subgid") refl);
        command_is =
            at (ascii "/run/claudepod-command") refl
            ∙ ap some (command_bytes-terminated [] command);
        layers_is = at (ascii "/run/claudepod-store-layers") refl;
        toplevel_is = at (ascii "/run/claudepod-toplevel") refl;
        env_is =
            let (lines, q, ls) = env_lines-Lines vars [] names in
            (names, n, lines, ls, at (ascii "/run/claudepod-env") refl ∙ ap some q);
      }

  moved_back :
      (username p m path : Bytes) (s : Bytes) (f g : Contents)
      → g ≡ mode_contents username p m f
      → mode_contents username p m f path ≡ f path
      → FromMap faults g path s
      → FromMap faults f path s
  moved_back username p m path s f g e k (t, r, q) = (t, sym k ∙ sym (λ i. e i path) ∙ r, q)

  -- If writing the runtime configuration succeeds, whatever the host was like, each of its nine files
  -- holds what it is for: the command's arguments with a zero byte behind each; for each selected
  -- variable that is set a line of its name, an equals sign and a word that the shell reads as its
  -- value, and no other line; what the function for one id map gives for the two maps; the other
  -- values as they were given, with a line feed.
  pub write_runtime_config-Configured :
      (vars : Vars) (system username : Bytes) (command : List Bytes) (layers : Bytes) (h h' : Host)
      → Yields (write_runtime_config faults vars system username command layers) h tt h'
      → Configured vars system username command layers h.files h'.files
  unfolding ascii bytes_eq
  write_runtime_config-Configured vars system username command layers h h' e =
      let (p, hp, m, hm, t, f, e') =
        write_runtime_config-files vars system username command layers h h' e in
      let (su, sg, mu, mg, names, n, last) =
        write_id_files-files faults vars system command layers t h' e' in
      configured vars system username command layers h.files h'.files p m su sg names hp hm
        (moved_back username p m (ascii "/proc/self/uid_map") su h.files t.files f refl mu)
        (moved_back username p m (ascii "/proc/self/gid_map") sg h.files t.files f refl mg) n
        λ q ne. last q ne ∙ (λ i.
          launch_contents faults vars system command layers names (id_contents faults su sg (f i))
            q)
