-- ===== src/StoreLayers/RoundTrip.antt =====
-- `join` and `parse` of store_layers.rs are inverse where they succeed.
use claudepod.Prelude.{
  ℕ, suc, ◌≡◌, refl, sym, ap, ◌∙◌, true, not, List, [], ◌∷◌, ◌++◌, append_assoc, append-nil, Bytes,
  All, ◌==◌, suc_==_zero, ltb_zero, Bool-cases, inl, inr,
}
use claudepod.Outcome.{ok}
use claudepod.Outcome.Laws.{chain-ok, err_ok, ok_injective}
use claudepod.Paths.{split, is_rooted}
use claudepod.Paths.Split.{
  join_rest, join_with, IsPiece, split-join_with, join_with-split, split-IsPiece,
}
use claudepod.StoreLayers.{join_loop, join, check_layer, check_layers, parse}

join_loop-join_rest :
    (out : Bytes) (idx : ℕ) (ps : List Bytes)
    → join_loop out (suc idx) ps ≡ out ++ join_rest b':' ps
unfolding join_loop
join_loop-join_rest out idx [] = sym (append-nil out)
join_loop-join_rest out idx (p ∷ ps) = rw ltb_zero (
    join_loop-join_rest ((out ++ (b':' ∷ [])) ++ p) (suc idx) ps
    ∙ append_assoc (out ++ (b':' ∷ [])) p _
    ∙ append_assoc out (b':' ∷ []) _)

join-join_with : (ps : List Bytes) → join ps ≡ join_with b':' ps
unfolding join join_loop
join-join_with [] = refl
join-join_with (p ∷ ps) = join_loop-join_rest p 0 ps

-- An absolute path with no colon.
abbrev pub IsLayer : Bytes → Type 0
IsLayer path = IsPiece b':' path × (is_rooted path ≡ true)

check_layer-IsLayer : (path : Bytes) → is_rooted path ≡ true → check_layer path ≡ ok tt
unfolding check_layer
check_layer-IsLayer [] h = cc
check_layer-IsLayer (b ∷ bs) h = rw (suc_==_zero, h, not) refl

check_layers-IsLayer : (ps : List Bytes) → All IsLayer ps → check_layers ps ≡ ok tt
unfolding check_layers
check_layers-IsLayer [] h = refl
check_layers-IsLayer (p ∷ ps) h = rw (check_layer-IsLayer p h.0.1, check_layers-IsLayer ps h.1) refl

pieces : (ps : List Bytes) → All IsLayer ps → All (IsPiece b':') ps
pieces [] h = tt
pieces (p ∷ ps) h = (h.0.0, pieces ps h.1)

-- A stack of layers, not empty and each an absolute path with no colon, is parsed back from what it
-- is joined to.
pub parse-join :
    (path : Bytes) (paths : List Bytes)
    → All IsLayer (path ∷ paths)
    → parse (join (path ∷ paths)) ≡ ok (path ∷ paths)
unfolding parse
parse-join path paths h =
    rw
      (
        join-join_with,
        split-join_with b':' path paths (pieces (path ∷ paths) h),
        check_layers-IsLayer (path ∷ paths) h,
      )
      refl

check_layer_sound : (path : Bytes) → check_layer path ≡ ok tt → is_rooted path ≡ true
unfolding check_layer
check_layer_sound [] h = cc
check_layer_sound (b ∷ bs) h = elim (Bool-cases (b == b'/')) [
  | inl e ↦ e
  | inr e ↦ absurd (err_ok (rw (suc_==_zero, e, not) at h))
]

check_layers_sound :
    (ps : List Bytes) → check_layers ps ≡ ok tt → All (λ (p : Bytes). is_rooted p ≡ true) ps
unfolding check_layers
check_layers_sound [] h = tt
check_layers_sound (p ∷ ps) h =
    let (u, q, r) = chain-ok (check_layer p) (λ _. check_layers ps) tt h in
    (check_layer_sound p q, check_layers_sound ps r)

-- What parses is what its layers join to, and they are absolute.
pub join-parse :
    (value : Bytes) (paths : List Bytes)
    → parse value ≡ ok paths
    → (join paths ≡ value) × All (λ (p : Bytes). is_rooted p ≡ true) paths
unfolding parse
join-parse value paths h =
    let (u, q, r) =
      chain-ok (check_layers (split b':' value)) (λ _. ok (split b':' value)) paths h in
    let same = ok_injective r in
    (
      join-join_with paths ∙ ap (join_with b':') (sym same) ∙ join_with-split b':' value,
      rw same at (check_layers_sound (split b':' value) q),
    )

both :
    (ps : List Bytes)
    → All (IsPiece b':') ps
    → All (λ (p : Bytes). is_rooted p ≡ true) ps
    → All IsLayer ps
both [] h k = tt
both (p ∷ ps) h k = ((h.0, k.0), both ps h.1 k.1)

-- What parses has layers only.
pub parse-IsLayer :
    (value : Bytes) (paths : List Bytes) → parse value ≡ ok paths → All IsLayer paths
unfolding parse
parse-IsLayer value paths h =
    let (u, q, r) =
      chain-ok (check_layers (split b':' value)) (λ _. ok (split b':' value)) paths h in
    let same = ok_injective r in
    rw same at (both (split b':' value) (split-IsPiece b':' value) (check_layers_sound _ q))
