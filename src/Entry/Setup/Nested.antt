-- ===== src/Entry/Setup/Nested.antt =====
-- A launcher that runs in the container finds what the entry point has left for it.
use claudepod.Prelude.{
  ◌≡◌, refl, ap, ◌∙◌, Option, none, some, false, List, [], ◌∷◌, ◌++◌, Bytes, ascii, length, ◌==◌,
}
use claudepod.Outcome.{ok, add_context, rescue, pure, with_context, ◌>>=◌}
use claudepod.Outcome.Laws.{add_context-ok, chain-ok}
use claudepod.Paths.{contains_byte}
use claudepod.Host.{Host, Faults, Vars, tick, not_empty, required, settled, call, read_file}
use claudepod.Host.Successes.{Yields}
use claudepod.StoreLayers
use claudepod.StoreLayers.RoundTrip.{parse-join, parse-IsLayer}
use claudepod.Entry.Config.{with_newline}
use claudepod.Entry.Setup.{store_layers_env, store_upper_dir, inherited_layers, Exec, run}
use claudepod.Entry.Setup.Layers.{run-files}
use claudepod.Start.Inputs.{
  store_layers_file, toplevel_file, strip_newline, check_toplevel, layers_of, toplevel,
  toplevel_from, parent_store_layers,
}

strip_newline-with_newline : (bs : Bytes) → strip_newline (with_newline bs) ≡ bs
unfolding strip_newline
strip_newline-with_newline [] = refl
strip_newline-with_newline (b ∷ []) = refl
strip_newline-with_newline (b ∷ (c ∷ cs)) =
    ap (λ (t : Bytes). b ∷ t) (strip_newline-with_newline (c ∷ cs))

-- No call fails.
abbrev pub calm : Faults
calm n = none

parent_store_layers-read :
    (h : Host) (raw : Bytes)
    → h.files store_layers_file ≡ some raw
    → parent_store_layers calm h ≡ (layers_of (some raw), tick h)
unfolding parent_store_layers rescue read_file call settled pure ◌>>=◌
parent_store_layers-read h raw e = rw e refl

toplevel_from-read :
    (h : Host) (raw : Bytes)
    → h.files toplevel_file ≡ some raw
    → toplevel_from calm none h ≡ (check_toplevel (strip_newline raw), tick h)
unfolding toplevel_from read_file call settled with_context ◌>>=◌
toplevel_from-read h raw e = rw e refl

layers_of-join :
    (lower : List Bytes) (value : Bytes)
    → StoreLayers.parse value ≡ ok lower
    → layers_of (some (with_newline (StoreLayers.join (store_upper_dir ∷ lower))))
      ≡ ok (store_upper_dir ∷ lower)
unfolding layers_of store_upper_dir ascii contains_byte
layers_of-join lower value h =
    rw
      (
        strip_newline-with_newline,
        parse-join store_upper_dir lower ((refl, refl), parse-IsLayer value lower h),
      )
      refl

inherited_layers-parse :
    (vars : Vars) (lower : List Bytes)
    → inherited_layers vars ≡ ok lower
    → (value : Bytes) × (StoreLayers.parse value ≡ ok lower)
unfolding inherited_layers
inherited_layers-parse vars lower h =
    let (raw, p, q) =
      chain-ok
        (required (store_layers_env ++ ascii " is not set") (not_empty (vars store_layers_env)))
        (λ x. add_context (ascii "parse " ++ store_layers_env) (StoreLayers.parse x)) lower h in
    (raw, add_context-ok _ (StoreLayers.parse raw) lower q)

check_toplevel-ok : (t : Bytes) → (length t == 0) ≡ false → check_toplevel t ≡ ok t
unfolding check_toplevel
check_toplevel-ok t h = rw h refl

-- If the entry point comes to executing init, whatever calls may have failed before, a launcher in
-- the container that reads the files as they then are finds the writable directory and behind it
-- exactly the layers that the container inherited, and without a variable of its own it boots the
-- system that the container was given, if that has a name at all.
pub run-parent_store_layers :
    (faults : Faults) (vars : Vars) (command : List Bytes) (h : Host) (exec : Exec) (h' : Host)
    → Yields (run faults vars command) h exec h'
    → (lower : List Bytes) × (inherited_layers vars ≡ ok lower)
      × Yields (parent_store_layers calm) h' (store_upper_dir ∷ lower) (tick h')
      × (system : Bytes) × (vars (ascii "CLAUDEPOD_TOPLEVEL") ≡ some system)
      × (exec.program ≡ system ++ ascii "/init")
      × ((inside : Vars)
          → not_empty (inside (ascii "CLAUDEPOD_TOPLEVEL")) ≡ none
          → (length system == 0) ≡ false
          → Yields (toplevel calm inside) h' system (tick h'))
unfolding toplevel
run-parent_store_layers faults vars command h exec h' e =
    let (lower, i, system, s, l, t, x) = run-files faults vars command h exec h' e in
    let (value, p) = inherited_layers-parse vars lower i in
    (
      lower,
      i,
      parent_store_layers-read h' _ l ∙ ap (λ r. (r, tick h')) (layers_of-join lower value p),
      system,
      s,
      x,
      λ inside unset named.
          ap (λ (o : Option Bytes). toplevel_from calm o h') unset
          ∙ toplevel_from-read h' _ t
          ∙ ap (λ r. (r, tick h'))
              (ap check_toplevel (strip_newline-with_newline system)
                ∙ check_toplevel-ok system named),
    )
