-- ===== src/Entry/Setup/Layers.antt =====
-- What the entry point leaves for a launcher that runs in the container.
use claudepod.Prelude.{
  ℕ, zero, suc, ◌+◌, ◌≡◌, refl, sym, ap, ◌∙◌, Option, none, some, Bool, true, false, List, [], ◌∷◌,
  ◌++◌, Bytes, ascii, bytes_eq, if◌then◌else◌,
}
use claudepod.Outcome.{Outcome, Error, library, io, not_found, ok, pure, fail, with_context}
use claudepod.Host.{Host, Faults, Vars}
use claudepod.Host.Successes.{
  Yields, bind-Yields, with_context-Yields, settled-Yields, pure-Yields, rescue-Yields,
  remove_file-files, symlink-Yields,
}
use claudepod.StoreLayers
use claudepod.Entry.Config.{with_newline}
use claudepod.Entry.Config.Kept.{required-some}
use claudepod.Entry.Config.Written.{write_runtime_config-Configured}
use claudepod.Entry.Setup.{
  store_upper_dir, unless_not_found, inherited_layers, setup_store_overlay, localtime_path,
  localtime_link, setup_localtime, create_link, class_links, each_class, create_usb_device_links,
  Exec, run,
}
use claudepod.Start.Inputs.{store_layers_file, toplevel_file}

module _ (faults : Faults) where
  create_link-files :
      (dev name : Bytes) (h h' : Host)
      → Yields (create_link faults dev name) h tt h'
      → h'.files ≡ h.files
  unfolding create_link
  create_link-files dev name h h' e =
      symlink-Yields faults _ _ h h' (with_context-Yields _ _ h tt h' e)

  class_links-files :
      (dev class : Bytes) (n left : ℕ) (h h' : Host)
      → Yields (class_links faults dev class n left) h tt h'
      → h'.files ≡ h.files
  unfolding class_links
  class_links-files dev class n zero h h' e =
      ap (λ (t : Host). t.files) (sym (pure-Yields tt h tt h' e).1)
  class_links-files dev class n (suc left) h h' e =
      let (u, t, a, b) = bind-Yields _ _ h tt h' e in
      class_links-files dev class (n + 1) left t h' b ∙ create_link-files dev _ h t a

  each_class-files :
      (dev : Bytes) (classes : List Bytes) (h h' : Host)
      → Yields (each_class faults dev classes) h tt h'
      → h'.files ≡ h.files
  unfolding each_class
  each_class-files dev [] h h' e = ap (λ (t : Host). t.files) (sym (pure-Yields tt h tt h' e).1)
  each_class-files dev (class ∷ classes) h h' e =
      let (u, t, a, b) = bind-Yields _ _ h tt h' e in
      each_class-files dev classes t h' b ∙ class_links-files dev class 0 _ h t a

  -- What is handed on is the upper directory before the inherited layers.
  setup_store_overlay-layers :
      (vars : Vars) (h : Host) (layers : Bytes) (h' : Host)
      → Yields (setup_store_overlay faults vars) h layers h'
      → (lower : List Bytes) × (inherited_layers vars ≡ ok lower)
        × (layers ≡ StoreLayers.join (store_upper_dir ∷ lower))
  unfolding setup_store_overlay
  setup_store_overlay-layers vars h layers h' e =
      let (lower, t₁, a₁, e₁) = bind-Yields _ _ h layers h' e in
      let (u₂, t₂, a₂, e₂) = bind-Yields _ _ t₁ layers h' e₁ in
      let (u₃, t₃, a₃, e₃) = bind-Yields _ _ t₂ layers h' e₂ in
      let (u₄, t₄, a₄, e₄) = bind-Yields _ _ t₃ layers h' e₃ in
      let (u₅, t₅, a₅, e₅) = bind-Yields _ _ t₄ layers h' e₄ in
      let (u₆, t₆, a₆, e₆) = bind-Yields _ _ t₅ layers h' e₅ in
      (lower, (settled-Yields _ h lower t₁ a₁).0, sym (pure-Yields _ t₆ layers h' e₆).0)

  unless_not_found-Yields :
      (text : Bytes) (e : Error) (t t' : Host) → Yields (unless_not_found text e) t tt t' → t ≡ t'
  unfolding pure fail
  unless_not_found-Yields text (library (io not_found)) t t' e =
      ap (λ (p : Outcome (Unit {0}) × Host). p.1) e
  unless_not_found-Yields text (library (io x)) t t' e = cc
  unless_not_found-Yields text (library x) t t' e = cc
  unless_not_found-Yields text x t t' e = cc

  localtime_link-files :
      (o : Option Bytes) (h h' : Host) (q : Bytes)
      → bytes_eq localtime_path q ≡ false
      → Yields (localtime_link faults o) h tt h'
      → h'.files q ≡ h.files q
  unfolding localtime_link
  localtime_link-files none h h' q ne e =
      ap (λ (t : Host). t.files q) (sym (pure-Yields tt h tt h' e).1)
  localtime_link-files (some timezone) h h' q ne e =
      let (u, t, a, b) = bind-Yields _ _ h tt h' e in
      let s = rescue-Yields _ _ h u t (unless_not_found-Yields _) a in
      let w = symlink-Yields faults _ _ t h' (with_context-Yields _ _ t tt h' b) in
      (λ i. w i q)
      ∙ ap (λ (x : Host). x.files q) (sym s)
      ∙ remove_file-files faults localtime_path q h ne

  -- The device links change no file.
  usb_links-files :
      (b : Bool) (h h' : Host)
      → Yields
          (if b
            then with_context
                (ascii "create USB device links")
                (create_usb_device_links faults (ascii "/dev"))
            else pure tt)
          h
          tt
          h'
      → h'.files ≡ h.files
  unfolding create_usb_device_links
  usb_links-files true h h' e = each_class-files _ _ h h' (with_context-Yields _ _ h tt h' e)
  usb_links-files false h h' e = ap (λ (t : Host). t.files) (sym (pure-Yields tt h tt h' e).1)

  -- What a run that succeeds has left, from the layers that it inherited.
  pub run-files :
      (vars : Vars) (command : List Bytes) (h : Host) (exec : Exec) (h' : Host)
      → Yields (run faults vars command) h exec h'
      → (lower : List Bytes) × (inherited_layers vars ≡ ok lower)
        × (system : Bytes) × (vars (ascii "CLAUDEPOD_TOPLEVEL") ≡ some system)
        × (h'.files store_layers_file
            ≡ some (with_newline (StoreLayers.join (store_upper_dir ∷ lower))))
        × (h'.files toplevel_file ≡ some (with_newline system))
        × (exec.program ≡ system ++ ascii "/init")
  unfolding run setup_localtime store_layers_file toplevel_file ascii bytes_eq
  run-files vars command h exec h' e =
      let (system, t₁, a₁, e₁) = bind-Yields _ _ h exec h' e in
      let (username, t₂, a₂, e₂) = bind-Yields _ _ t₁ exec h' e₁ in
      let (layers, t₃, a₃, e₃) = bind-Yields _ _ t₂ exec h' e₂ in
      let (u₄, t₄, a₄, e₄) = bind-Yields _ _ t₃ exec h' e₃ in
      let (u₅, t₅, a₅, e₅) = bind-Yields _ _ t₄ exec h' e₄ in
      let (u₆, t₆, a₆, e₆) = bind-Yields _ _ t₅ exec h' e₅ in
      let (lower, i, j) =
        setup_store_overlay-layers vars t₂ layers t₃ (with_context-Yields _ _ t₂ layers t₃ a₃) in
      let c =
        write_runtime_config-Configured faults vars system username command layers t₃ t₄
          (with_context-Yields _ _ t₃ tt t₄ a₄) in
      let z = with_context-Yields _ _ t₄ tt t₅ a₅ in
      let w = usb_links-files _ t₅ t₆ a₆ in
      let (x, y) = pure-Yields _ t₆ exec h' e₆ in
      (
        lower,
        i,
        system,
        required-some _ _ system (settled-Yields _ h system t₁ a₁).0,
        ap (λ (t : Host). t.files store_layers_file) (sym y)
            ∙ (λ k. w k store_layers_file)
            ∙ localtime_link-files _ t₄ t₅ store_layers_file refl z
            ∙ c.layers_is
            ∙ ap (λ (b : Bytes). some (with_newline b)) j,
        ap (λ (t : Host). t.files toplevel_file) (sym y)
            ∙ (λ k. w k toplevel_file)
            ∙ localtime_link-files _ t₄ t₅ toplevel_file refl z
            ∙ c.toplevel_is,
        ap (λ (p : Exec). p.program) (sym x),
      )
