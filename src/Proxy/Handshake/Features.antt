-- ===== src/Proxy/Handshake/Features.antt =====
-- The agreed feature of src/proxy/handshake.rs that decides how realisations are written.
use claudepod.Prelude.{
  ◌≡◌, ◌≢◌, ap, Bool, true, false, List, [], ◌∷◌, ◌++◌, Bytes, ascii, bytes_eq, bytes_eq→eq,
  bytes_eq_refl, Bool-cases, inl, inr, All,
}
use claudepod.Proxy.Handshake.{
  Negotiated, contains, realisation_with_path, feature_realisation_with_path,
}

-- A list of features has one, or lacks it.
abbrev pub Lists : List Bytes → Bytes → Bool → Type 0
Lists xs f true = (before : List Bytes) × (after : List Bytes) × (xs ≡ before ++ (f ∷ after))
Lists xs f false = All (λ (x : Bytes). x ≢ f) xs

-- Whether realisations come with paths, by the agreed features.
abbrev pub WithPath : Negotiated → Bool → Type 0
WithPath n b = Lists n.features (ascii "realisation-with-path") b

Lists-after :
    (x : Bytes) (xs : List Bytes) (f : Bytes) (b : Bool) → x ≢ f → Lists xs f b → Lists (x ∷ xs) f b
Lists-after x xs f true ne (before, after, e) =
    (x ∷ before, after, ap (λ (t : List Bytes). x ∷ t) e)
Lists-after x xs f false ne h = (ne, h)

contains-Lists : (xs : List Bytes) (f : Bytes) → Lists xs f (contains xs f)
unfolding contains
contains-Lists [] f = tt
contains-Lists (x ∷ xs) f = elim (Bool-cases (bytes_eq x f)) [
  | inl e ↦ rw e ([], xs, ap (λ (t : Bytes). t ∷ xs) (bytes_eq→eq x f e))
  | inr e ↦ rw e (Lists-after x xs f (contains xs f) (differs e) (contains-Lists xs f))
]
  where
    differs : bytes_eq x f ≡ false → x ≢ f
    differs e q = cc (bytes_eq_refl f)

pub realisation_with_path-WithPath : (n : Negotiated) → WithPath n (realisation_with_path n)
unfolding realisation_with_path feature_realisation_with_path
realisation_with_path-WithPath n = contains-Lists n.features (ascii "realisation-with-path")
