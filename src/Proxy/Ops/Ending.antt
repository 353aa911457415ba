-- ===== src/Proxy/Ops/Ending.antt =====
-- The copies of src/proxy/ops.rs never wait for a peer that has hung up.
use claudepod.Prelude.{ℕ, zero, suc}
use claudepod.Outcome.Ending.{Ends, Ends-bind, end_rules}
use claudepod.Wire.{max_guest_string}
use claudepod.Wire.Ending.{
  HungInput, Ends-copy_u64, Ends-copy_string, Ends-copy_string_list, wire_ends,
}
use claudepod.Proxy.Handshake.{Negotiated}
use claudepod.Proxy.Ops.{
  Op, is_valid_path, query_referrers, query_path_info, query_valid_derivers,
  query_path_from_hash_part, query_valid_paths, set_options, query_realisation, copy_words,
  copy_overrides, copy_valid_paths_args, copy_settings, copy_args, copy_path_info, copy_realisation,
  copy_result,
}

ruleset copy_ends = (wire_ends, Ends-copy_u64, Ends-copy_string, Ends-copy_string_list)

Ends-copy_words : (n : ℕ) → Ends HungInput (copy_words n)
unfolding copy_words
Ends-copy_words zero = search end_rules
Ends-copy_words (suc n) = Ends-bind _ _ Ends-copy_u64 λ _. Ends-copy_words n

Ends-copy_overrides : (n : ℕ) → Ends HungInput (copy_overrides n)
unfolding copy_overrides
Ends-copy_overrides zero = search end_rules
Ends-copy_overrides (suc n) =
    Ends-bind _ _ (Ends-copy_string max_guest_string)
      λ _. Ends-bind _ _ (Ends-copy_string max_guest_string) λ _. Ends-copy_overrides n

Ends-copy_settings : Ends HungInput copy_settings
unfolding copy_settings
Ends-copy_settings = search (copy_ends, Ends-copy_words, Ends-copy_overrides) depth 10

Ends-copy_valid_paths_args : Ends HungInput copy_valid_paths_args
unfolding copy_valid_paths_args
Ends-copy_valid_paths_args = search copy_ends depth 12

pub Ends-copy_args : (op : Op) (n : Negotiated) → Ends HungInput (copy_args op n)
unfolding copy_args
Ends-copy_args query_valid_paths n = Ends-copy_valid_paths_args
Ends-copy_args set_options n = Ends-copy_settings
Ends-copy_args query_realisation n = search copy_ends
Ends-copy_args op n = Ends-copy_string max_guest_string

Ends-copy_path_info : Ends HungInput copy_path_info
unfolding copy_path_info
Ends-copy_path_info = search copy_ends depth 20 fits 2000

Ends-copy_realisation : (tag : ℕ) → Ends HungInput (copy_realisation tag)
unfolding copy_realisation
Ends-copy_realisation tag = search copy_ends

pub Ends-copy_result : (op : Op) (n : Negotiated) → Ends HungInput (copy_result op n)
unfolding copy_result
Ends-copy_result set_options n = search copy_ends
Ends-copy_result is_valid_path n = search copy_ends
Ends-copy_result query_referrers n = search copy_ends
Ends-copy_result query_valid_paths n = search copy_ends
Ends-copy_result query_valid_derivers n = search copy_ends
Ends-copy_result query_path_from_hash_part n = search copy_ends
Ends-copy_result query_path_info n = search (copy_ends, Ends-copy_path_info) depth 8
Ends-copy_result query_realisation n = search (copy_ends, Ends-copy_realisation) depth 10
