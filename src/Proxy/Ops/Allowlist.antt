-- ===== src/Proxy/Ops/Allowlist.antt =====
-- The allowlist of ops.rs holds exactly the words of the eight ops.
use claudepod.Prelude.{
  ℕ, ◌⊎◌, none, ◌≢◌, sym, ap, ◌∙◌, String, ascii, All, Option-cases, some, ◌≡◌, refl, ◌↔◌, inl, inr,
  List, [], ◌∷◌, Bool-cases, ◌==◌, arith,
}
use claudepod.Proxy.Ops.{
  Op, query_referrers, set_options, query_path_info, query_path_from_hash_part, query_valid_paths,
  query_valid_derivers, query_realisation, op_name, find_name, is_valid_path, op_word, find_op,
  allowed,
}

find_op_sound :
    (ops : List Op) (word : ℕ) (op : Op) → find_op ops word ≡ some op → op_word op ≡ word
unfolding find_op
find_op_sound [] word op h = cc
find_op_sound (o ∷ ops) word op h = elim (Bool-cases (op_word o == word)) [
  | inl e ↦ ground arith
  | inr e ↦ find_op_sound ops word op (rw e at h)
]

allowed-op_word : (op : Op) → allowed (op_word op) ≡ some op
unfolding allowed find_op op_word
allowed-op_word is_valid_path = refl
allowed-op_word op = refl

-- A word is let through as an op exactly when it is that op's word.
pub allowed_iff : (word : ℕ) (op : Op) → (allowed word ≡ some op) ↔ (op_word op ≡ word)
allowed_iff word op =
    (unfold allowed in find_op_sound _ word op, λ e. rw (← e) (allowed-op_word op))

-- The ops by the names that docs/nix-proxy.md lists.
abbrev pub documented : Op → String
documented is_valid_path = "IsValidPath"
documented query_referrers = "QueryReferrers"
documented set_options = "SetOptions"
documented query_path_info = "QueryPathInfo"
documented query_path_from_hash_part = "QueryPathFromHashPart"
documented query_valid_paths = "QueryValidPaths"
documented query_valid_derivers = "QueryValidDerivers"
documented query_realisation = "QueryRealisation"

abbrev pub documented_words : List ℕ
documented_words = 1 ∷ 6 ∷ 19 ∷ 26 ∷ 29 ∷ 31 ∷ 33 ∷ 43 ∷ []

name-documented : (op : Op) → op_name (op_word op) ≡ ascii (documented op)
unfolding op_name find_name ascii op_word
name-documented is_valid_path = refl
name-documented op = refl

none-some : {o : Op} → none ≡ some o → ⊥
none-some k = cc

none-words : (word : ℕ) → allowed word ≡ none → All (λ w. word ≢ w) documented_words
unfolding allowed op_word
none-words word h = (
  differs is_valid_path,
  (
    differs query_referrers,
    (
      differs set_options,
      (
        differs query_path_info,
        (
          differs query_path_from_hash_part,
          (
            differs query_valid_paths,
            (differs query_valid_derivers, (differs query_realisation, tt)),
          ),
        ),
      ),
    ),
  ),
)
  where
    differs : (op : Op) → word ≢ op_word op
    differs op e = none-some (sym h ∙ (allowed_iff word op).1 (sym e))

-- Every word is let through as an op for which the protocol's table of names has the name that the
-- documentation lists, or it is refused and none of the eight words 1, 6, 19, 26, 29, 31, 33 and 43.
pub allowed-documented :
    (word : ℕ)
    → ((op : Op) × (allowed word ≡ some op) × (op_name word ≡ ascii (documented op)))
      ⊎ ((allowed word ≡ none) × All (λ w. word ≢ w) documented_words)
allowed-documented word = elim (Option-cases (allowed word)) [
  | inl e ↦ inr (e, none-words word e)
  | inr (op, e) ↦ inl (op, e, ap op_name (sym ((allowed_iff word op).0 e)) ∙ name-documented op)
]
