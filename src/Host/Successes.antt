-- ===== src/Host/Successes.antt =====
-- What an operation on the host went through if it succeeded.
use claudepod.Prelude.{
  ◌≡◌, refl, sym, ap, ◌∙◌, inl, inr, some, false, Bytes, bytes_eq, Bool-cases, Option-cases,
}
use claudepod.Outcome.{
  Error, Outcome, ok, err, pending, out_of_fuel, M, pure, rescue, handle, continue, with_context,
  add_context, ◌>>=◌,
}
use claudepod.Outcome.Laws.{err_ok, ok_injective}
use claudepod.Utf8.{is_utf8}
use claudepod.Host.{
  Contents, put_at, Host, Faults, tick, settled, call, write_file, remove_file, symlink, is_there,
  read_to_string,
}

-- The two parts of what an operation comes to.
abbrev pub Yields : {A : Type 0} → M Host A → Host → A → Host → Type 0
Yields m h a h' = m h ≡ (ok a, h')

abbrev files_of : {A : Type 0} → Outcome A × Host → Contents
files_of p = (p.1).files

-- A failure is no success.
err-Yields :
    {A : Type 0} {e : Error} {t h : Host} {a : A}
    → ◌≡◌ {A = Outcome A × Host} (err e, t) (ok a, h)
    → ⊥
err-Yields {A} e = err_ok (ap (λ (p : Outcome A × Host). p.0) e)

pub bind-Yields :
    {A B : Type 0} (m : M Host A) (f : A → M Host B) (h : Host) (b : B) (h' : Host)
    → Yields (m >>= f) h b h'
    → (a : A) × (t : Host) × Yields m h a t × Yields (f a) t b h'
unfolding ◌>>=◌
bind-Yields {A} {B} m f h b h' e = go (m h).0 (m h).1 refl e
  where
    go :
        (r : Outcome A) (t : Host)
        → m h ≡ (r, t)
        → continue r f t ≡ (ok b, h')
        → (a : A) × (t : Host) × Yields m h a t × Yields (f a) t b h'
    go (ok a) t q e = (a, t, q, e)
    go (err x) t q e = absurd (err-Yields e)
    go pending t q e = cc
    go out_of_fuel t q e = cc

pub with_context-Yields :
    {A : Type 0} (text : Bytes) (m : M Host A) (h : Host) (a : A) (h' : Host)
    → Yields (with_context text m) h a h'
    → Yields m h a h'
unfolding with_context
with_context-Yields {A} text m h a h' e = go (m h).0 (m h).1 refl e
  where
    go :
        (r : Outcome A) (t : Host)
        → m h ≡ (r, t)
        → ◌≡◌ {A = Outcome A × Host} (add_context text r, t) (ok a, h')
        → Yields m h a h'
    go (ok a) t q e = q ∙ e
    go (err x) t q e = absurd (err-Yields e)
    go pending t q e = cc
    go out_of_fuel t q e = cc

pub settled-Yields :
    {A : Type 0} (r : Outcome A) (h : Host) (a : A) (h' : Host)
    → Yields (settled r) h a h'
    → (r ≡ ok a) × (h ≡ h')
unfolding settled
settled-Yields {A} r h a h' e =
    (ap (λ (p : Outcome A × Host). p.0) e, ap (λ (p : Outcome A × Host). p.1) e)

pub pure-Yields :
    {A : Type 0} (x : A) (h : Host) (a : A) (h' : Host)
    → Yields (pure x) h a h'
    → (x ≡ a) × (h ≡ h')
unfolding pure
pure-Yields {A} x h a h' e =
    (ok_injective (ap (λ (p : Outcome A × Host). p.0) e), ap (λ (p : Outcome A × Host). p.1) e)

-- Where a handler that succeeds changes nothing, what was handled has made the end.
pub rescue-Yields :
    {A : Type 0} (m : M Host A) (k : Error → M Host A) (h : Host) (a : A) (h' : Host)
    → ((e : Error) (t t' : Host) → Yields (k e) t a t' → t ≡ t')
    → Yields (rescue m k) h a h'
    → (m h).1 ≡ h'
unfolding rescue
rescue-Yields {A} m k h a h' same e = go (m h).0 (m h).1 refl e
  where
    go : (r : Outcome A) (t : Host) → (m h).1 ≡ t → handle k r t ≡ (ok a, h') → (m h).1 ≡ h'
    go (ok x) t q e = q ∙ ap (λ (p : Outcome A × Host). p.1) e
    go (err x) t q e = q ∙ same x t h' e
    go pending t q e = cc
    go out_of_fuel t q e = cc

module _ (faults : Faults) where
  -- A call that succeeds has had its effect.
  pub call-Yields :
      {A : Type 0} (effect : Host → Outcome A × Host) (h : Host) (a : A) (h' : Host)
      → Yields (call faults effect) h a h'
      → effect (tick h) ≡ (ok a, h')
  unfolding call
  call-Yields {A} effect h a h' e = elim (Option-cases (faults h.calls)) [
    | inl n ↦ rw n at e
    | inr (f, q) ↦ absurd (err-Yields (rw q at e))
  ]

  -- A call with no effect on files.
  pub still-Yields :
      (effect : Host → Host) (h h' : Host)
      → ((t : Host) → (effect t).files ≡ t.files)
      → Yields (call faults (λ t. (ok tt, effect t))) h tt h'
      → h'.files ≡ h.files
  still-Yields effect h h' k e = ap files_of (sym (call-Yields _ h tt h' e)) ∙ k (tick h)

  pub write_file-Yields :
      (path contents : Bytes) (h h' : Host)
      → Yields (write_file faults path contents) h tt h'
      → h'.files ≡ put_at path (some contents) h.files
  unfolding write_file
  write_file-Yields path contents h h' e = elim (Option-cases (faults h.calls)) [
    | inl n ↦ ap files_of (sym (rw n at e))
    | inr (f, q) ↦ absurd (err-Yields (rw q at e))
  ]

  pub remove_file-files :
      (path q : Bytes) (h : Host)
      → bytes_eq path q ≡ false
      → (remove_file faults path h).1.files q ≡ h.files q
  unfolding remove_file call
  remove_file-files path q h ne = elim (Option-cases (faults h.calls)) [
    | inl n ↦ elim (Bool-cases (is_there path (tick h))) [
      | inl e ↦ rw (n, e, ne) refl
      | inr e ↦ rw (n, e) refl
    ]
    | inr (f, w) ↦ rw w refl
  ]

  pub symlink-Yields :
      (target link : Bytes) (h h' : Host)
      → Yields (symlink faults target link) h tt h'
      → h'.files ≡ h.files
  unfolding symlink
  symlink-Yields target link h h' e =
      let c = call-Yields _ h tt h' e in
      elim (Bool-cases (is_there link (tick h))) [
        | inl q ↦ absurd (err-Yields (rw q at c))
        | inr q ↦ ap files_of (sym (rw q at c))
      ]

  pub read_to_string-Yields :
      (path : Bytes) (h : Host) (c : Bytes) (h' : Host)
      → Yields (read_to_string faults path) h c h'
      → (h.files path ≡ some c) × (h'.files ≡ h.files)
  unfolding read_to_string
  read_to_string-Yields path h c h' e =
      let k = call-Yields _ h c h' e in
      elim (Option-cases (h.files path)) [
        | inl n ↦ absurd (err-Yields (rw n at k))
        | inr (d, q) ↦ elim (Bool-cases (is_utf8 d)) [
          | inl u ↦
              let j = rw (q, u) at k in
              (
                q ∙ ap some (ok_injective (ap (λ (p : Outcome Bytes × Host). p.0) j)),
                ap files_of (sym j),
              )
          | inr u ↦ absurd (err-Yields (rw (q, u) at k))
        ]
      ]
