-- ===== src/Start/Volumes/Parts.antt =====
-- The parts of a volume specification can be read off again.
use claudepod.Prelude.{
  ◌≡◌, refl, ap, ◌∙◌, Option, none, some, List, [], ◌∷◌, ◌++◌, append_assoc, append-nil, Bytes,
  ascii, Bool-cases, inl, inr,
}
use claudepod.Outcome.{ok}
use claudepod.Outcome.Laws.{chain-ok, err_ok, ok_injective}
use claudepod.Paths.{split, contains_byte}
use claudepod.Paths.Split.{IsPiece, split-join_with}
use claudepod.Start.Volumes.{reject_colon_path, push_options, volume_spec}

reject_colon_path-IsPiece :
    (label path : Bytes) → reject_colon_path label path ≡ ok tt → IsPiece b':' path
unfolding reject_colon_path
reject_colon_path-IsPiece label path h = elim (Bool-cases (contains_byte b':' path)) [
  | inl e ↦ absurd (err_ok (rw e at h))
  | inr e ↦ e
]

-- The pieces between the colons that podman reads.
abbrev pub volume_parts : Bytes → Bytes → Option Bytes → List Bytes
volume_parts host guest none = host ∷ guest ∷ []
volume_parts host guest (some options) = host ∷ guest ∷ options ∷ []

split_parts :
    (host guest : Bytes) (options : Option Bytes)
    → IsPiece b':' host
    → IsPiece b':' guest
    → ((o : Bytes) → options ≡ some o → IsPiece b':' o)
    → split b':' (push_options (host ++ (b':' ∷ guest)) options) ≡ volume_parts host guest options
split_parts host guest none h g o =
    rw append-nil at (split-join_with b':' host (guest ∷ []) (h, (g, tt)))
split_parts host guest (some options) h g o =
    ap (split b':') (append_assoc host (b':' ∷ guest) (b':' ∷ options))
    ∙ (rw append-nil at
        (split-join_with b':' host (guest ∷ options ∷ []) (h, (g, (o options refl, tt)))))

-- A volume specification that is made, from options without a colon, splits at its colons into the
-- host path, the guest path and the options, so no path can pass for another field.
pub volume_spec-split :
    (host guest spec : Bytes) (options : Option Bytes)
    → ((o : Bytes) → options ≡ some o → IsPiece b':' o)
    → volume_spec host guest options ≡ ok spec
    → split b':' spec ≡ volume_parts host guest options
unfolding volume_spec
volume_spec-split host guest spec options o h =
    let (u, p, q) = chain-ok (reject_colon_path (ascii "host volume") host) _ spec h in
    let (v, r, s) = chain-ok (reject_colon_path (ascii "guest volume") guest) _ spec q in
    rw (← ok_injective s) (
      split_parts host guest options (reject_colon_path-IsPiece _ host p)
        (reject_colon_path-IsPiece _ guest r) o)
