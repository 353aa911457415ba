-- ===== src/Start/AtomicWrite/Replaced.antt =====
-- The manifest is replaced as a whole, by contents that load, or not at all.
use claudepod.Prelude.{
  ◌≡◌, refl, sym, ◌∙◌, ◌⊎◌, inl, inr, Option, none, some, false, List, [], ◌∷◌, ◌++◌, append-nil,
  append_assoc, Bytes, ℕ, ascii, bytes_eq, bytes_eq_refl, All-append, arith,
}
use claudepod.Outcome.{Error, library, io, not_found, rescue}
use claudepod.Outcome.Trace.{
  Does, Post, Does-bind, Does-mono, Does-with_context, Does-rescue, Does-pure, Does-fail,
}
use claudepod.Utf8.{from_utf8_lossy}
use claudepod.Paths.{file_name, path_join, parent}
use claudepod.Host.{Contents, Host, Faults, required, remove_file}
use claudepod.Host.Changes.{host_trace, Does-still, Does-settled, Does-remove_file, Does-create_new}
use claudepod.Host.Log.{Change, apply, after, after-append}
use claudepod.Start.AtomicWrite.{
  unless_gone, manifest_dir, tmp_name, manifest_file_name, create_manifest_temp_file,
  write_nix_run_roots_manifest_atomic,
}
use claudepod.Start.AtomicWrite.Names.{bytes_eq-longer, tmp_path-ne-path}
use claudepod.Start.AtomicWrite.Untouched.{
  Only, Always, Always-append, Always-map, Always-after, Always-Only, Does-clean_up,
}
use claudepod.Start.AtomicWrite.Filled.{Does-fill_and_rename, IsManifest, Only-nothing, renaming}

-- Only one file beside the path has changed.
abbrev pub Aside : Bytes → List Change → Type 0
Aside path log = (tmp : Bytes) × (bytes_eq tmp path ≡ false) × Only tmp log

module _ (faults : Faults) where
  Does-unless_gone :
      (text : Bytes) (e : Error) (h : Host)
      → Does host_trace (unless_gone text e) h (λ _ log. log ≡ []) (λ log. log ≡ [])
  Does-unless_gone text (library (io not_found)) h = Does-pure host_trace tt h refl
  Does-unless_gone text (library (io e)) h = Does-fail host_trace _ h refl
  Does-unless_gone text (library e) h = Does-fail host_trace _ h refl
  Does-unless_gone text e h = Does-fail host_trace _ h refl

  Does-create_manifest_temp_file :
      (pid : ℕ) (dir path : Bytes) (h : Host)
      → Does host_trace
          (create_manifest_temp_file faults pid dir path)
          h
          (λ tmp log. (bytes_eq tmp path ≡ false) × Only tmp log)
          (Aside path)
  unfolding create_manifest_temp_file manifest_file_name
  Does-create_manifest_temp_file pid dir path h =
      Does-bind host_trace
        (Does-settled _ h {P = λ name log. (log ≡ []) × (file_name path ≡ some name)}
          {E = λ log. log ≡ []} (named (file_name path) refl))
        (λ a e. nowhere a e)
        λ name a t₁ e₁ h₁.
          let tmp = path_join dir (tmp_name pid name) in
          let ne = tmp_path-ne-path pid dir path name h₁.1 in
          Does-bind host_trace (Does-stale tmp t₁)
            (λ b o. (tmp, ne, All-append _ a b (Only-nothing tmp h₁.0) o))
            λ _ b t₂ e₂ o₂.
              let o = All-append _ a b (Only-nothing tmp h₁.0) o₂ in
              Does-bind host_trace (Does-with_context host_trace _ (Does-create_new faults tmp t₂))
                (λ c e. (tmp, ne, joined tmp a b c o (Only-nothing tmp e)))
                λ _ c t₃ e₃ h₃.
                  Does-pure host_trace tmp t₃
                    (ne, joined tmp a b (c ++ []) o (rw (append-nil, h₃) ((some [], refl), tt)))
    where
      named :
          (o : Option Bytes)
          → file_name path ≡ o
          → Post {L = List Change} {A = Bytes}
              (λ name log. (log ≡ []) × (file_name path ≡ some name))
              (λ log. log ≡ [])
              (required (ascii "manifest path has no file name: " ++ from_utf8_lossy path) o)
              []
      named none e = refl
      named (some name) e = (refl, e)

      nowhere : (a : List Change) → a ≡ [] → Aside path a
      nowhere a e =
          (b'x' ∷ path, bytes_eq-longer (b'x' ∷ path) path (omega arith), Only-nothing _ e)

      joined :
          (tmp : Bytes) (a b c : List Change)
          → Only tmp (a ++ b)
          → Only tmp c
          → Only tmp (a ++ (b ++ c))
      joined tmp a b c h k = rw (append_assoc a b c) at (All-append _ (a ++ b) c h k)

      Does-stale :
          (tmp : Bytes) (t : Host)
          → Does host_trace
              (rescue
                (remove_file faults tmp)
                (unless_gone (ascii "remove stale " ++ from_utf8_lossy tmp)))
              t
              (λ _ log. Only tmp log)
              (λ log. Only tmp log)
      Does-stale tmp t =
          Does-rescue host_trace
            (Does-mono host_trace _ (λ log. log ≡ []) (λ _ log q. rw q ((none, refl), tt))
              (λ log q. q) (Does-remove_file faults tmp t))
            (λ a e. Only-nothing tmp e)
            λ e a u ev q.
              Does-mono host_trace _ _ (λ _ b r. Only-nothing tmp (rw q r))
                (λ b r. Only-nothing tmp (rw q r)) (Does-unless_gone _ e u)

-- The whole write, in terms of the contents before it.
abbrev pub Replaces : Bytes → Bytes → Contents → List Change → Type 0
Replaces path contents f log =
    Always (λ g. (g path ≡ f path) ⊎ (g path ≡ some contents)) log f
    × (after log f path ≡ some contents)
    × IsManifest contents

replaces :
    (path tmp contents : Bytes) (f : Contents) (pre : List Change)
    → bytes_eq tmp path ≡ false
    → Only tmp pre
    → IsManifest contents
    → Replaces path contents f (pre ++ (((tmp, none) ∷ (path, some contents) ∷ []) ∷ []))
replaces path tmp contents f pre ne o m =
    let before = Always-Only tmp path (f path) pre f ne o refl in
    let step = (tmp, none) ∷ (path, some contents) ∷ [] in
    let now : apply step (after pre f) path ≡ some contents = rw (bytes_eq_refl path) refl in
    (
      Always-append _ pre (step ∷ []) f (Always-map _ _ pre f (λ g h. inl h) before)
          (inl (Always-after _ pre f before), inr now),
      (λ i. after-append pre (step ∷ []) f i path) ∙ now,
      m,
    )

module _ (faults : Faults) where
  -- Whatever calls fail, before and after every step that an atomic write makes on the files the
  -- manifest's path has its old contents or all of the new ones. If the write succeeds, it has the
  -- new ones in the end, and these parse as a manifest; if it fails, it has the old ones throughout.
  pub write_nix_run_roots_manifest_atomic-Replaces :
      (pid : ℕ) (path contents : Bytes) (h : Host)
      → Does host_trace
          (write_nix_run_roots_manifest_atomic faults pid path contents)
          h
          (λ _ log. Replaces path contents h.files log)
          (λ log. Always (λ g. g path ≡ h.files path) log h.files)
  unfolding write_nix_run_roots_manifest_atomic
  write_nix_run_roots_manifest_atomic-Replaces pid path contents h =
      let dir = manifest_dir (parent path) in
      Does-bind host_trace
        (Does-with_context host_trace _ (Does-still faults _ h {P = λ _ b. b ≡ []} refl))
        (λ a e. rw e refl)
        λ _ a t₁ e₁ h₁.
          Does-bind host_trace (Does-create_manifest_temp_file faults pid dir path t₁)
            (λ b (tmp, ne, o). unchanged tmp (a ++ b) ne (rw h₁ o))
            λ tmp b t₂ e₂ (ne, o).
              Does-rescue host_trace
                (Does-mono host_trace (λ _ c. Replaces path contents h.files (a ++ (b ++ c)))
                  (Only tmp) (λ _ c (pre, p, q, m). succeeded tmp a b c pre ne h₁ o p q m)
                  (λ c r. r) (Does-fill_and_rename faults dir path tmp contents t₂))
                (λ c r. unchanged tmp (a ++ (b ++ c)) ne (rw h₁ (All-append _ b c o r)))
                λ e c t₃ e₃ r.
                  Does-mono host_trace _ _ (λ _ d f. absurd f)
                    (λ d s.
                      unchanged tmp (a ++ (b ++ (c ++ d))) ne
                        (rw h₁ (All-append _ b (c ++ d) o (All-append _ c d r s))))
                    (Does-clean_up faults tmp e t₃)
    where
      unchanged :
          (tmp : Bytes) (log : List Change)
          → bytes_eq tmp path ≡ false
          → Only tmp log
          → Always (λ g. g path ≡ h.files path) log h.files
      unchanged tmp log ne o = Always-Only tmp path (h.files path) log h.files ne o refl

      succeeded :
          (tmp : Bytes) (a b c pre : List Change)
          → bytes_eq tmp path ≡ false
          → a ≡ []
          → Only tmp b
          → Only tmp pre
          → c ≡ pre ++ (renaming tmp path contents ∷ [])
          → IsManifest contents
          → Replaces path contents h.files (a ++ (b ++ c))
      succeeded tmp a b c pre ne h₁ o p q m =
          let e : a ++ (b ++ c) ≡ (b ++ pre) ++ (renaming tmp path contents ∷ []) =
            (λ i. h₁ i ++ (b ++ q i)) ∙ sym (append_assoc b pre _) in
          rw e (replaces path tmp contents h.files (b ++ pre) ne (All-append _ b pre o p) m)
