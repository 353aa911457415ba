-- ===== src/Start/AtomicWrite/Filled.antt =====
-- The new manifest is written aside, and renamed only if it loads.
use claudepod.Prelude.{
  ◌≡◌, refl, sym, ap, ◌∙◌, none, some, List, [], ◌∷◌, ◌++◌, Bytes, bytes_eq_refl, All-append,
}
use claudepod.Outcome.{Outcome, ok, err, pending, out_of_fuel}
use claudepod.Outcome.Laws.{add_context-ok, Concluded}
use claudepod.Outcome.Trace.{Does, Post, Does-bind, Does-mono, Does-with_context}
use claudepod.Host.{Host, Faults, read_file}
use claudepod.Host.Changes.{host_trace, Does-still, Does-write_file, Does-rename, Does-read_file}
use claudepod.Host.Log.{Change, after, Changed, Changed-nothing}
use claudepod.Proxy.RunRoots.{NixRunRoots, parse_manifest, load}
use claudepod.Proxy.RunRoots.Total.{add_context-Concluded, parse_manifest-Concluded}
use claudepod.Start.AtomicWrite.{load_file, fill_and_rename}
use claudepod.Start.AtomicWrite.Untouched.{Only, Torn-Only, Does-fsync_dir_best_effort}

-- The contents are a manifest.
abbrev pub IsManifest : Bytes → Type 0
IsManifest contents = (roots : NixRunRoots) × (parse_manifest contents ≡ ok roots)

load-ok :
    (path contents : Bytes) (roots : NixRunRoots)
    → load path (ok contents) ≡ ok roots
    → parse_manifest contents ≡ ok roots
unfolding load
load-ok path contents roots h = add_context-ok _ (parse_manifest contents) roots h

load-Concluded : (path contents : Bytes) → Concluded (load path (ok contents))
unfolding load
load-Concluded path contents = add_context-Concluded _ _ (parse_manifest-Concluded contents)

some_injective : {A : Type 0} {a b : A} → some a ≡ some b → a ≡ b
some_injective h = cc

-- The step that renames the temporary file.
abbrev pub renaming : Bytes → Bytes → Bytes → Change
renaming tmp path contents = (tmp, none) ∷ (path, some contents) ∷ []

pub Only-nothing : (tmp : Bytes) {log : List Change} → log ≡ [] → Only tmp log
Only-nothing tmp q = rw q tt

module _ (faults : Faults) where
  -- What loads is a manifest, and nothing changes.
  Does-load_file :
      (path contents : Bytes) (h : Host)
      → h.files path ≡ some contents
      → Does host_trace
          (load_file faults path)
          h
          (λ _ log. (log ≡ []) × IsManifest contents)
          (λ log. log ≡ [])
  unfolding load_file load
  Does-load_file path contents h e =
      let d = Does-read_file faults path h in
      record {
        log = d.log;
        evolves = record { files = (d.evolves).files; past = (d.evolves).past };
        post = go (read_file faults path h).0 d.log d.post;
      }
    where
      loaded :
          (r : Outcome NixRunRoots) (log : List Change)
          → log ≡ []
          → Concluded r
          → ((roots : NixRunRoots) → r ≡ ok roots → IsManifest contents)
          → Post (λ _ log. (log ≡ []) × IsManifest contents) (λ log. log ≡ []) r log
      loaded (ok roots) log q f k = (q, k roots refl)
      loaded (err x) log q f k = q
      loaded pending log q f k = q
      loaded out_of_fuel log q f k = f

      same : {c : Bytes} → h.files path ≡ some c → c ≡ contents
      same q = some_injective (sym q ∙ e)

      go :
          (r : Outcome Bytes) (log : List Change)
          → Post (λ c log. (log ≡ []) × (h.files path ≡ some c)) (λ log. log ≡ []) r log
          → Post (λ _ log. (log ≡ []) × IsManifest contents) (λ log. log ≡ []) (load path r) log
      go (ok c) log p =
          loaded (load path (ok c)) log p.0 (load-Concluded path c)
            (λ roots q. (roots, ap parse_manifest (sym (same p.1)) ∙ load-ok path c roots q))
      go (err x) log p = p
      go pending log p = p
      go out_of_fuel log p = absurd p

  pub Does-fill_and_rename :
      (dir path tmp contents : Bytes) (h : Host)
      → Does host_trace
          (fill_and_rename faults dir path tmp contents)
          h
          (λ _ log.
            (pre : List Change) × Only tmp pre
            × (log ≡ pre ++ (renaming tmp path contents ∷ []))
            × IsManifest contents)
          (Only tmp)
  unfolding fill_and_rename
  Does-fill_and_rename dir path tmp contents h =
      Does-bind host_trace (Does-with_context host_trace _ (Does-write_file faults tmp contents h))
        (λ a e. Torn-Only tmp contents a e)
        λ _ a t₁ e₁ h₁.
          let o₁ : Only tmp a = rw h₁ ((some contents, refl), tt) in
          Does-bind host_trace
            (Does-with_context host_trace _ (Does-still faults _ t₁ {P = λ _ b. b ≡ []} refl))
            (λ b e. All-append _ a b o₁ (Only-nothing tmp e))
            λ _ b t₂ e₂ h₂.
              let there : t₂.files tmp ≡ some contents = has t₁ t₂ e₁ h₁ (Changed-nothing e₂ h₂) in
              Does-bind host_trace (Does-load_file tmp contents t₂ there)
                (λ c e. All-append _ a (b ++ c) o₁ (Only-nothing tmp (rw (h₂, e) refl)))
                λ _ c t₃ e₃ h₃.
                  Does-bind host_trace
                    (Does-with_context host_trace _ (
                      Does-rename faults tmp path contents t₃
                        ((λ i. Changed-nothing e₃ h₃.0 i tmp) ∙ there)))
                    (λ d e.
                      All-append _ a (b ++ (c ++ d)) o₁ (Only-nothing tmp (rw (h₂, h₃.0, e) refl)))
                    λ _ d t₄ e₄ h₄.
                      Does-mono host_trace _ _
                        (λ _ g (q : g ≡ []). (a, o₁, ends a b c d g h₂ h₃.0 h₄ q, h₃.1))
                        (λ g f. absurd f) (Does-fsync_dir_best_effort faults dir t₄)
    where
      has :
          (t₁ t₂ : Host) {a : List Change}
          → Changed h a t₁
          → a ≡ ((tmp, some contents) ∷ []) ∷ []
          → t₂.files ≡ t₁.files
          → t₂.files tmp ≡ some contents
      has t₁ t₂ e₁ h₁ q =
          (λ i. (q ∙ e₁.files ∙ ap (λ (l : List Change). after l h.files) h₁) i tmp)
          ∙ rw (bytes_eq_refl tmp) refl

      ends :
          (a b c d g : List Change)
          → b ≡ []
          → c ≡ []
          → d ≡ renaming tmp path contents ∷ []
          → g ≡ []
          → a ++ (b ++ (c ++ (d ++ g))) ≡ a ++ (renaming tmp path contents ∷ [])
      ends a b c d g hb hc hd hg = λ i. a ++ (hb i ++ (hc i ++ (hd i ++ hg i)))
