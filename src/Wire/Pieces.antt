-- ===== src/Wire/Pieces.antt =====
-- What a payload is made of, on the wire: numbers, strings and lists of strings, one behind another.
use claudepod.Prelude.{ℕ, ◌≤◌, ◌≡◌, List, [], ◌∷◌, ◌++◌, append-nil, Bytes, length, All}
use claudepod.Outcome.{M, pure, ◌>>=◌}
use claudepod.Wire.{max_count}
use claudepod.Wire.Copy.{Duplex}
use claudepod.Wire.Format.{word, string_frame, list_frame}
use claudepod.Wire.Verbatim.{Relays, Relays-bind, Relays-mono, Relays-pure}

-- Strings come with a limit on their length.
pub data Piece : Type 0 where
  number : Piece
  text texts : ℕ → Piece

abbrev pub IsA : Piece → Bytes → Type 0
IsA number t = (v : ℕ) × (t ≡ word v)
IsA (text max_len) t = (s : Bytes) × (t ≡ string_frame s) × (length s ≤ max_len)
IsA (texts max_len) t =
    (ss : List Bytes) × (t ≡ list_frame ss)
    × (length ss ≤ max_count)
    × All (λ (s : Bytes). length s ≤ max_len) ss

pub data Made : List Piece → Bytes → Type 0 where
  none_left : Made [] []
  piece : (p : Piece) (ps : List Piece) (u v : Bytes) → IsA p u → Made ps v → Made (p ∷ ps) (u ++ v)

module _ {A : Type 0} where
  pub Relays-last :
      (p : Piece) {m : M Duplex A} → Relays (λ _ t. IsA p t) m → Relays (λ _ t. Made (p ∷ []) t) m
  Relays-last p h = Relays-mono (λ x t k. rw append-nil at (piece p [] t [] k none_left)) h

  pub Relays-Made : (x : A) → Relays (λ _ t. Made [] t) (pure x)
  Relays-Made x = Relays-pure x none_left

pub Relays-piece :
    {A B : Type 0} (p : Piece) (ps : List Piece) {m : M Duplex A} {f : A → M Duplex B}
    → Relays (λ _ t. IsA p t) m
    → ((x : A) → Relays (λ _ t. Made ps t) (f x))
    → Relays (λ _ t. Made (p ∷ ps) t) (m >>= f)
Relays-piece p ps h k = Relays-bind h λ x u i. Relays-mono (λ y t j. piece p ps u t i j) (k x)
