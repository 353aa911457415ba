-- ===== src/Proxy/Ops/Payloads.antt =====
-- Payloads are relayed byte for byte and whole, and only well-formed ones are.
use claudepod.Prelude.{
  ℕ, zero, suc, ◌≤◌, ◌≡◌, ◌⊎◌, inl, inr, refl, ap, ◌∙◌, Bool, true, false, List, [], ◌∷◌, ◌++◌,
  Bytes, replicate, leb, leb→le, ◌==◌, ==_iff, Bool-cases, append-nil, arith, sym, ascii, decimal,
  not, if◌then◌else◌,
}
use claudepod.Outcome.{pure, ensure, ◌>>=◌}
use claudepod.Outcome.Trace.{Does, Does-mono}
use claudepod.Wire.Copy.{Duplex, copy_u64, copy_string, copy_string_list}
use claudepod.Wire.Moves.{duplex_trace}
use claudepod.Wire.{read_u64, write_u64, max_guest_string, max_host_string, max_count}
use claudepod.Wire.Format.{word}
use claudepod.Wire.Reading.{IsReady, Reads-read_u64}
use claudepod.Wire.Verbatim.{
  Starts, Relays, Relays-bind, Relays-pure, Relays-mono, Relays-ensure, Relays-with_context,
  Relays-checked, Relays-copy_u64, Relays-copy_string, Relays-copy_string_list,
}
use claudepod.Wire.Pieces.{
  Piece, number, text, texts, IsA, Made, Relays-last, Relays-Made, Relays-piece,
}
use claudepod.Proxy.Handshake.{Negotiated, realisation_with_path}
use claudepod.Proxy.Handshake.Features.{WithPath, realisation_with_path-WithPath}
use claudepod.Proxy.Ops.{
  Op, is_valid_path, set_options, query_path_info, query_path_from_hash_part, query_valid_paths,
  query_realisation, copy_words, copy_overrides, copy_valid_paths_args, copy_settings, copy_args,
  copy_path_info, copy_realisation, copy_result,
}

-- The name and the value of each override.
abbrev pub overrides : ℕ → List Piece
overrides zero = []
overrides (suc n) = text max_guest_string ∷ text max_guest_string ∷ overrides n

-- The client settings of `SetOptions`: twelve numbers, and counted overrides.
abbrev pub Settings : Bytes → Type 0
Settings t =
    (u : Bytes) × (count : ℕ) × (v : Bytes) × (t ≡ u ++ (word count ++ v))
    × Made (replicate 12 number) u
    × (count ≤ max_count)
    × Made (overrides count) v

-- The arguments of an op in the protocol, by whether realisations come with paths.
abbrev pub Arguments : Op → Bool → Bytes → Type 0
Arguments set_options b t = Settings t
Arguments query_valid_paths b t =
    (u : Bytes) × (t ≡ u ++ word 0) × Made (texts max_guest_string ∷ []) u
Arguments query_realisation true t = Made (text max_guest_string ∷ text max_guest_string ∷ []) t
Arguments op b t = Made (text max_guest_string ∷ []) t

abbrev pub path_info : List Piece
path_info =
    text max_host_string
    ∷ text max_host_string
    ∷ texts max_host_string
    ∷ number
    ∷ number
    ∷ number
    ∷ texts max_host_string
    ∷ text max_host_string
    ∷ []

-- The result of an op in the protocol.
abbrev pub Result : Op → Bool → Bytes → Type 0
Result set_options b t = t ≡ []
Result is_valid_path b t = Made (number ∷ []) t
Result query_path_from_hash_part b t = Made (text max_host_string ∷ []) t
Result query_path_info b t =
    (v : ℕ) × (u : Bytes) × (t ≡ word v ++ u)
    × (((v ≡ 0) × (u ≡ [])) ⊎ (((v == 0) ≡ false) × Made path_info u))
Result query_realisation true t =
    (v : ℕ) × (u : Bytes) × (t ≡ word v ++ u)
    × (((v ≡ 0) × (u ≡ []))
        ⊎ ((v ≡ 1) × Made (text max_host_string ∷ texts max_host_string ∷ []) u))
Result op b t = Made (texts max_host_string ∷ []) t

pub number_copied : Relays (λ _ t. IsA number t) copy_u64
number_copied = Relays-mono (λ v t h. (v, h)) Relays-copy_u64

copy_one : (max_len : ℕ) → Relays (λ _ t. Made (text max_len ∷ []) t) (copy_string max_len)
copy_one max_len = Relays-last (text max_len) (Relays-copy_string max_len)

copy_list : (max_len : ℕ) → Relays (λ _ t. Made (texts max_len ∷ []) t) (copy_string_list max_len)
copy_list max_len = Relays-last (texts max_len) (Relays-copy_string_list max_len)

Relays-copy_words : (n : ℕ) → Relays (λ _ t. Made (replicate n number) t) (copy_words n)
unfolding copy_words
Relays-copy_words zero = Relays-Made tt
Relays-copy_words (suc n) = Relays-piece number _ number_copied (λ _. Relays-copy_words n)

Relays-copy_overrides : (n : ℕ) → Relays (λ _ t. Made (overrides n) t) (copy_overrides n)
unfolding copy_overrides
Relays-copy_overrides zero = Relays-Made tt
Relays-copy_overrides (suc n) =
    Relays-piece (text max_guest_string) _ (Relays-copy_string max_guest_string) λ _.
      Relays-piece (text max_guest_string) _ (Relays-copy_string max_guest_string)
        λ _. Relays-copy_overrides n

Relays-copy_settings : Relays (λ _ t. Settings t) copy_settings
unfolding copy_settings
Relays-copy_settings = Relays-bind (Relays-copy_words 12) λ _ u h.
    Relays-bind Relays-copy_u64 λ count w k. Relays-ensure (leb count max_count) _ λ q.
      Relays-mono (λ _ v j. (u, count, v, rw k refl, h, leb→le count max_count q, j))
        (Relays-copy_overrides count)

-- The flag that is written is the flag that was read, since only 0 passes the test.
Relays-copy_valid_paths_args :
    Relays (λ _ t. Arguments query_valid_paths true t) copy_valid_paths_args
unfolding copy_valid_paths_args write_u64
Relays-copy_valid_paths_args = Relays-bind (copy_list max_guest_string) λ _ u h.
    Relays-checked (λ _. word 0) _ (λ flag. flag == 0) _ read_u64 (λ _. pure tt) Reads-read_u64
      (λ flag t k q. k.0 ∙ ap word ((==_iff flag 0).0 q))
      λ flag t k q.
        Relays-pure tt
          (u, ap (λ (x : Bytes). u ++ x) (append-nil t ∙ k.0 ∙ ap word ((==_iff flag 0).0 q)), h)

Relays-realisation_args :
    (b : Bool)
    → Relays
        (λ _ t. Arguments query_realisation b t)
        (if b
          then (copy_string max_guest_string >>= λ _. copy_string max_guest_string)
          else copy_string max_guest_string)
Relays-realisation_args true =
    Relays-piece (text max_guest_string) _ (Relays-copy_string max_guest_string)
      λ _. copy_one max_guest_string
Relays-realisation_args false = copy_one max_guest_string

pub Relays-copy_args :
    (op : Op) (n : Negotiated)
    → Relays (λ _ t. Arguments op (realisation_with_path n) t) (copy_args op n)
unfolding copy_args
Relays-copy_args query_valid_paths n = Relays-copy_valid_paths_args
Relays-copy_args set_options n = Relays-copy_settings
Relays-copy_args query_realisation n = Relays-realisation_args (realisation_with_path n)
Relays-copy_args op n = copy_one max_guest_string

Relays-copy_path_info : Relays (λ _ t. Made path_info t) copy_path_info
unfolding copy_path_info
Relays-copy_path_info =
    let s = Relays-copy_string max_host_string in
    let l = Relays-copy_string_list max_host_string in
    Relays-piece (text max_host_string) _ s λ _. Relays-piece (text max_host_string) _ s λ _.
      Relays-piece (texts max_host_string) _ l λ _. Relays-piece number _ number_copied λ _.
        Relays-piece number _ number_copied λ _.
          Relays-piece number _ number_copied
            λ _. Relays-piece (texts max_host_string) _ l λ _. copy_one max_host_string

Relays-copy_realisation :
    (v : ℕ) (w : Bytes)
    → leb v 1 ≡ true
    → w ≡ word v
    → Relays (λ _ t. Result query_realisation true (w ++ t)) (copy_realisation v)
unfolding copy_realisation
Relays-copy_realisation v w q h = elim (Bool-cases (v == 1)) [
  | inl e ↦ rw e (
      Relays-mono (λ _ t k. (v, t, rw h refl, inr ((==_iff v 1).0 e, k)))
        (Relays-piece (text max_host_string) _ (Relays-copy_string max_host_string)
          λ _. copy_list max_host_string))
  | inr e ↦ rw e (Relays-pure tt (v, [], rw h refl, inl (ground (arith, q, e), refl)))
]

Relays-realisation-Result :
    (b : Bool)
    → Relays
        (λ _ t. Result query_realisation b t)
        (if b
          then (copy_u64 >>= λ tag.
              ensure (leb tag 1) (ascii "invalid optional tag " ++ decimal tag) >>= λ _.
              copy_realisation tag)
          else copy_string_list max_host_string)
Relays-realisation-Result true =
    Relays-bind Relays-copy_u64
      λ v w h. Relays-ensure (leb v 1) _ λ q. Relays-copy_realisation v w q h
Relays-realisation-Result false = copy_list max_host_string

pub Relays-copy_result :
    (op : Op) (n : Negotiated)
    → Relays (λ _ t. Result op (realisation_with_path n) t) (copy_result op n)
unfolding copy_result
Relays-copy_result set_options n = Relays-pure tt refl
Relays-copy_result is_valid_path n = Relays-piece number [] number_copied (λ _. Relays-Made tt)
Relays-copy_result query_path_from_hash_part n = copy_one max_host_string
Relays-copy_result query_path_info n = Relays-bind Relays-copy_u64 λ v w h.
    elim (Bool-cases (v == 0)) [
      | inl e ↦
          rw (e, not)
            (Relays-pure tt
              (v, [], rw append-nil (h ∙ sym (append-nil (word v))), inl ((==_iff v 0).0 e, refl)))
      | inr e ↦
          rw (e, not)
            (Relays-with_context _
              (Relays-mono (λ _ t k. (v, t, rw h refl, inr (e, k))) Relays-copy_path_info))
    ]
Relays-copy_result query_realisation n = Relays-realisation-Result (realisation_with_path n)
Relays-copy_result op n = copy_list max_host_string

-- From a stream of bytes, where copying the arguments of an op succeeds it has taken from the guest
-- the arguments that the protocol has for the op, whole and within the limits, those of a realisation
-- with a path exactly if that feature was agreed, and put them byte for byte; where it fails or waits it has put a first part of what it has taken.
pub copy_args-verbatim :
    (op : Op) (n : Negotiated) (d : Duplex)
    → IsReady d.input
    → Does duplex_trace
        (copy_args op n)
        d
        (λ _ a. (a.put ≡ a.taken) × (b : Bool) × WithPath n b × Arguments op b a.taken)
        (λ a. Starts a.put a.taken)
copy_args-verbatim op n d r =
    Does-mono duplex_trace _ _ (λ _ a h. (h.0, _, realisation_with_path-WithPath n, h.1)) (λ a h. h)
      ((Relays-copy_args op n).at d r)

-- From a stream of bytes, where copying the result of an op succeeds it has taken from the host daemon
-- the result that the protocol has for the op, whole and within the limits, that of a realisation with
-- a path exactly if that feature was agreed, and put it byte for byte; where it fails or waits it has
-- put a first part of what it has taken.
pub copy_result-verbatim :
    (op : Op) (n : Negotiated) (d : Duplex)
    → IsReady d.input
    → Does duplex_trace
        (copy_result op n)
        d
        (λ _ a. (a.put ≡ a.taken) × (b : Bool) × WithPath n b × Result op b a.taken)
        (λ a. Starts a.put a.taken)
copy_result-verbatim op n d r =
    Does-mono duplex_trace _ _ (λ _ a h. (h.0, _, realisation_with_path-WithPath n, h.1)) (λ a h. h)
      ((Relays-copy_result op n).at d r)
