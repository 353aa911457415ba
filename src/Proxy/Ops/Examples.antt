-- ===== src/Proxy/Ops/Examples.antt =====
-- Runs of the payload copies, as the tests of ops.rs have them.
use claudepod.Prelude.{
  Bool, ◌≡◌, refl, ◌⊎◌, ◌≢◌, All, true, none, some, [], ◌∷◌, ◌++◌, Bytes, ascii, bytes_eq,
}
use claudepod.Outcome.{err, message}
use claudepod.Outcome.Trace.{Does}
use claudepod.Wire.{le_bytes}
use claudepod.Wire.Copy.{Duplex}
use claudepod.Wire.Format.{word, string_frame, strings_frame, list_frame}
use claudepod.Wire.Reading.{IsReady, IsReady-all_bytes}
use claudepod.Wire.Moves.{duplex_trace}
use claudepod.Wire.Verbatim.{Starts}
use claudepod.Wire.RoundTrip.{stream, empty_sink}
use claudepod.Proxy.Handshake.{Negotiated}
use claudepod.Proxy.Handshake.Features.{WithPath}
use claudepod.Proxy.Ops.{
  query_valid_paths, query_referrers, Op, op_name, allowed, copy_args, copy_result, ops_code,
}
use claudepod.Proxy.Ops.Allowlist.{documented, documented_words, allowed-documented}
use claudepod.Proxy.Ops.Payloads.{Arguments, Result, copy_args-verbatim, copy_result-verbatim}

abbrev plain : Negotiated
plain = record { version = record { major = 1; minor = 35 }; features = [] }

abbrev paths : Bytes
paths = list_frame (ascii "/nix/store/aaa111-one" ∷ [])

abbrev duplex : Bytes → Duplex
duplex bs = record { input = stream bs true; output = empty_sink }

substitution_refused :
    (copy_args query_valid_paths plain (duplex (paths ++ word 1))).0
    ≡ err (message (ascii "QueryValidPaths with substitution is not allowed"))
unfolding ops_code list_frame string_frame strings_frame bytes_eq
substitution_refused = refl

no_build : allowed 9 ≡ none
unfolding ops_code
no_build = refl

allowed-documented_example :
    ((op : Op) × (allowed 31 ≡ some op) × (op_name 31 ≡ ascii (documented op)))
    ⊎ ((allowed 31 ≡ none) × All (λ w. 31 ≢ w) documented_words)
allowed-documented_example = allowed-documented 31

plain_args-IsReady : IsReady (duplex (paths ++ word 0)).input
unfolding le_bytes ascii list_frame string_frame strings_frame
plain_args-IsReady = IsReady-all_bytes (duplex (paths ++ word 0)).input refl

copy_args-verbatim_example :
    Does duplex_trace
      (copy_args query_valid_paths plain)
      (duplex (paths ++ word 0))
      (λ _ a.
        (a.put ≡ a.taken) × (b : Bool) × WithPath plain b × Arguments query_valid_paths b a.taken)
      (λ a. Starts a.put a.taken)
copy_args-verbatim_example =
    copy_args-verbatim query_valid_paths plain (duplex (paths ++ word 0)) plain_args-IsReady

copy_result-verbatim_example :
    Does duplex_trace
      (copy_result query_referrers plain)
      (duplex (paths ++ word 0))
      (λ _ a. (a.put ≡ a.taken) × (b : Bool) × WithPath plain b × Result query_referrers b a.taken)
      (λ a. Starts a.put a.taken)
copy_result-verbatim_example =
    copy_result-verbatim query_referrers plain (duplex (paths ++ word 0)) plain_args-IsReady
