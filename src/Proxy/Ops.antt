-- ===== src/Proxy/Ops.antt =====
-- src/proxy/ops.rs: the op allowlist and the relay of each op's payload.
pub mod Allowlist
pub mod Payloads
pub mod Ending
mod Examples
use claudepod.Wire.Copy.{copy_code}
use claudepod.Prelude.{
  ℕ, zero, suc, Option, none, some, Bool, true, false, not, List, [], ◌∷◌, ◌++◌, Bytes, ascii,
  decimal, leb, ◌==◌, if◌then◌else◌, String,
}
use claudepod.Outcome.{M, pure, ensure, with_context, ◌>>=◌, ◌>>◌}
use claudepod.Wire.{read_u64, write_u64, max_guest_string, max_host_string, max_count}
use claudepod.Wire.Copy.{Duplex, reading, writing, copy_u64, copy_string, copy_string_list}
use claudepod.Proxy.Handshake.{Negotiated, realisation_with_path}

pub data Op : Type 0 where
  is_valid_path query_referrers set_options query_path_info query_path_from_hash_part : Op
  query_valid_paths query_valid_derivers query_realisation : Op

-- The discriminant, `op as u64`.
unfoldable pub op_word : Op → ℕ
op_word is_valid_path = 1
op_word query_referrers = 6
op_word set_options = 19
op_word query_path_info = 26
op_word query_path_from_hash_part = 29
op_word query_valid_paths = 31
op_word query_valid_derivers = 33
op_word query_realisation = 43

abbrev pub all_ops : List Op
all_ops =
    is_valid_path ∷ query_referrers ∷ set_options ∷ query_path_info ∷ query_path_from_hash_part
    ∷ query_valid_paths ∷ query_valid_derivers ∷ query_realisation ∷ []

-- `.into_iter().find(|&op| op as u64 == word)`
unfoldable pub find_op : List Op → ℕ → Option Op
find_op [] word = none
find_op (op ∷ ops) word = if op_word op == word then some op else find_op ops word

unfoldable pub allowed : ℕ → Option Op
allowed word = find_op all_ops word

-- The name that the nix protocol has for each of its op words.
abbrev op_names : List (ℕ × String)
op_names =
    (1, "IsValidPath")
    ∷ (6, "QueryReferrers")
    ∷ (7, "AddToStore")
    ∷ (8, "AddTextToStore")
    ∷ (9, "BuildPaths")
    ∷ (10, "EnsurePath")
    ∷ (11, "AddTempRoot")
    ∷ (12, "AddIndirectRoot")
    ∷ (13, "SyncWithGC")
    ∷ (14, "FindRoots")
    ∷ (18, "QueryDeriver")
    ∷ (19, "SetOptions")
    ∷ (20, "CollectGarbage")
    ∷ (21, "QuerySubstitutablePathInfo")
    ∷ (22, "QueryDerivationOutputs")
    ∷ (23, "QueryAllValidPaths")
    ∷ (26, "QueryPathInfo")
    ∷ (28, "QueryDerivationOutputNames")
    ∷ (29, "QueryPathFromHashPart")
    ∷ (30, "QuerySubstitutablePathInfos")
    ∷ (31, "QueryValidPaths")
    ∷ (32, "QuerySubstitutablePaths")
    ∷ (33, "QueryValidDerivers")
    ∷ (34, "OptimiseStore")
    ∷ (35, "VerifyStore")
    ∷ (36, "BuildDerivation")
    ∷ (37, "AddSignatures")
    ∷ (38, "NarFromPath")
    ∷ (39, "AddToStoreNar")
    ∷ (40, "QueryMissing")
    ∷ (41, "QueryDerivationOutputMap")
    ∷ (42, "RegisterDrvOutput")
    ∷ (43, "QueryRealisation")
    ∷ (44, "AddMultipleToStore")
    ∷ (45, "AddBuildLog")
    ∷ (46, "BuildPathsWithResults")
    ∷ (47, "AddPermRoot")
    ∷ []

unfoldable pub find_name : List (ℕ × String) → ℕ → Bytes
find_name [] word = ascii "unknown"
find_name ((w, name) ∷ rest) word = if w == word then ascii name else find_name rest word

-- `match word { 1 => "IsValidPath", … }`, the arms in order.
unfoldable pub op_name : ℕ → Bytes
op_name word = find_name op_names word

unfoldable pub name : Op → Bytes
name op = op_name (op_word op)

-- `for _ in 0..12 { copy_u64(guest, host) }`
unfoldable pub copy_words : ℕ → M Duplex (Unit {0})
copy_words zero = pure tt
copy_words (suc n) = do copy_u64; copy_words n

-- The name and the value of each settings override.
unfoldable pub copy_overrides : ℕ → M Duplex (Unit {0})
copy_overrides zero = pure tt
copy_overrides (suc n) = do
  copy_string max_guest_string
  copy_string max_guest_string
  copy_overrides n

unfoldable pub copy_valid_paths_args : M Duplex (Unit {0})
copy_valid_paths_args = do
  copy_string_list max_guest_string
  substitute ← reading read_u64
  ensure (substitute == 0) (ascii "QueryValidPaths with substitution is not allowed")
  writing (write_u64 0)
  pure tt

unfoldable pub copy_settings : M Duplex (Unit {0})
copy_settings = do
  copy_words 12
  overrides ← copy_u64
  ensure (leb overrides max_count)
      (ascii "override count " ++ (decimal overrides ++ ascii " exceeds limit"))
  copy_overrides overrides

unfoldable pub copy_args : Op → Negotiated → M Duplex (Unit {0})
copy_args is_valid_path n = copy_string max_guest_string
copy_args query_referrers n = copy_string max_guest_string
copy_args query_path_info n = copy_string max_guest_string
copy_args query_valid_derivers n = copy_string max_guest_string
copy_args query_path_from_hash_part n = copy_string max_guest_string
copy_args query_valid_paths n = copy_valid_paths_args
copy_args set_options n = copy_settings
copy_args query_realisation n =
    if realisation_with_path n
    then (copy_string max_guest_string >> copy_string max_guest_string)
    else copy_string max_guest_string

unfoldable pub copy_path_info : M Duplex (Unit {0})
copy_path_info = do
  copy_string max_host_string
  copy_string max_host_string
  copy_string_list max_host_string
  copy_u64
  copy_u64
  copy_u64
  copy_string_list max_host_string
  copy_string max_host_string

unfoldable pub copy_realisation : ℕ → M Duplex (Unit {0})
copy_realisation tag =
    if tag == 1 then (copy_string max_host_string >> copy_string_list max_host_string) else pure tt

unfoldable pub copy_result : Op → Negotiated → M Duplex (Unit {0})
copy_result set_options n = pure tt
copy_result is_valid_path n = do copy_u64; pure tt
copy_result query_referrers n = copy_string_list max_host_string
copy_result query_valid_paths n = copy_string_list max_host_string
copy_result query_valid_derivers n = copy_string_list max_host_string
copy_result query_path_from_hash_part n = copy_string max_host_string
copy_result query_path_info n = do
  valid ← copy_u64
  if not (valid == 0) then with_context (ascii "ValidPathInfo") copy_path_info else pure tt
copy_result query_realisation n =
    if realisation_with_path n
    then (do
      tag ← copy_u64
      ensure (leb tag 1) (ascii "invalid optional tag " ++ decimal tag)
      copy_realisation tag)
    else copy_string_list max_host_string

-- The definitions of this file, by one name for `unfolding` lines that run them.
unfoldable pub ops_code : Unit {0}
unfolding copy_code with_context ascii decimal op_word find_op allowed find_name op_name name
    copy_words copy_overrides copy_valid_paths_args copy_settings copy_args copy_path_info
    copy_realisation copy_result
ops_code = tt
