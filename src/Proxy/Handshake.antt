-- ===== src/Proxy/Handshake.antt =====
-- src/proxy/handshake.rs: both legs of the daemon handshake.
pub mod Versions
pub mod Features
pub mod Legs
pub mod Guest
pub mod Ending
pub mod Delivery
mod Examples
use claudepod.Utf8.{utf8_code}
use claudepod.Wire.Copy.{copy_code}
use claudepod.Prelude.{
  ℕ, ◌+◌, ◌*◌, ◌/◌, ◌%◌, Bool, true, false, ◌&&◌, ◌||◌, List, [], ◌∷◌, ◌++◌, Bytes, ascii, decimal,
  hexadecimal, ltb, leb, ◌==◌, bytes_eq, if◌then◌else◌,
}
use claudepod.Outcome.{M, library, invalid_utf8, context, pure, fail, ensure, ◌>>=◌, ◌>>◌}
use claudepod.Wire.{
  Stream, read_u64, read_string_list, write_u64, write_string_list, flush, max_guest_string,
}
use claudepod.Wire.Copy.{Duplex, reading, writing}
use claudepod.Utf8.{is_utf8}

abbrev pub worker_magic_1 : ℕ
worker_magic_1 = 0x6e697863

abbrev pub worker_magic_2 : ℕ
worker_magic_2 = 0x6478696f

pub record Version : Type 0 where
  pub major : ℕ
  pub minor : ℕ

-- `(v >> 8) as u8` and `v as u8`
unfoldable pub from_wire : ℕ → Version
from_wire v = record { major = v / 256 % 256; minor = v % 256 }

-- `(major as u64) << 8 | minor as u64`: the minor version is a u8, so no bits overlap.
unfoldable pub to_wire : Version → ℕ
to_wire v = v.major * 256 + v.minor

-- The derived order, by major and then by minor version.
unfoldable pub version_le : Version → Version → Bool
version_le a b = ltb a.major b.major || (a.major == b.major && leb a.minor b.minor)

unfoldable pub version_min : Version → Version → Version
version_min a b = if version_le a b then a else b

-- `{version}`
unfoldable pub show_version : Version → Bytes
show_version v = decimal v.major ++ ascii "." ++ decimal v.minor

abbrev pub our_version : Version
our_version = record { major = 1; minor = 38 }

abbrev pub floor : Version
floor = record { major = 1; minor = 35 }

abbrev pub our_features : List Bytes
our_features = []

unfoldable pub feature_realisation_with_path : Bytes
feature_realisation_with_path = ascii "realisation-with-path"

abbrev pub feature_exchange : Version
feature_exchange = record { major = 1; minor = 38 }

abbrev pub max_features : ℕ
max_features = 256

-- A `BTreeSet` is the list of its items in order.
pub record Negotiated : Type 0 where
  pub version : Version
  pub features : List Bytes

unfoldable pub contains : List Bytes → Bytes → Bool
contains [] f = false
contains (x ∷ xs) f = bytes_eq x f || contains xs f

unfoldable pub realisation_with_path : Negotiated → Bool
realisation_with_path n = contains n.features feature_realisation_with_path

-- The order of `String`: by bytes, a first part before the whole.
unfoldable pub text_lt : Bytes → Bytes → Bool
text_lt [] [] = false
text_lt [] (y ∷ ys) = true
text_lt (x ∷ xs) [] = false
text_lt (x ∷ xs) (y ∷ ys) = ltb x y || (x == y && text_lt xs ys)

unfoldable pub insert : Bytes → List Bytes → List Bytes
insert f [] = f ∷ []
insert f (x ∷ xs) =
    if text_lt f x then f ∷ (x ∷ xs) else if bytes_eq f x then x ∷ xs else x ∷ insert f xs

-- `String::from_utf8(f)`, with its context
unfoldable pub utf8_feature : Bytes → M Stream Bytes
utf8_feature f =
    if is_utf8 f
    then pure f
    else fail (context (ascii "protocol feature name is not UTF-8") (library (invalid_utf8 f)))

-- `.map(…).collect()` into a set: the first error ends it.
unfoldable pub collect_features : List Bytes → List Bytes → M Stream (List Bytes)
collect_features set [] = pure set
collect_features set (f ∷ fs) = do f' ← utf8_feature f; collect_features (insert f' set) fs

unfoldable pub read_features : M Stream (List Bytes)
read_features = do items ← read_string_list max_features max_guest_string; collect_features [] items

-- `our_features.iter().filter(|f| daemon_features.contains(f))`
unfoldable pub common : List Bytes → List Bytes → List Bytes
common [] theirs = []
common (f ∷ fs) theirs =
    let rest = common fs theirs in if contains theirs f then insert f rest else rest

-- The part of `upstream` from protocol 1.38 on.
unfoldable pub exchange_upstream : M Duplex (List Bytes)
exchange_upstream = do
  writing (write_string_list our_features)
  writing flush
  daemon_features ← reading read_features
  pure (common our_features daemon_features)

-- The version that is used with this daemon, and the features.
unfoldable pub settle : Version → M Duplex Negotiated
settle daemon = do
  ensure (daemon.major == 1)
      (ascii "unsupported host daemon protocol version " ++ show_version daemon)
  let version = version_min daemon our_version
  ensure (version_le floor version) (
      ascii "host daemon protocol version "
      ++ (show_version daemon
          ++ (ascii " is older than the supported floor " ++ show_version floor)))
  features ← if version_le feature_exchange version then exchange_upstream else pure []
  pure (record { version = version; features = features })

-- The part of `upstream` that starts with the daemon's answer.
unfoldable pub read_answer : M Duplex Negotiated
read_answer = do
  magic ← reading read_u64
  ensure (magic == worker_magic_2) (ascii "host daemon sent bad magic " ++ hexadecimal magic)
  word ← reading read_u64
  settle (from_wire word)

unfoldable pub upstream : M Duplex Negotiated
upstream = do
  writing (write_u64 worker_magic_1)
  writing (write_u64 (to_wire our_version))
  writing flush
  read_answer

unfoldable pub guest_magic : M Stream (Unit {0})
guest_magic = do
  magic ← read_u64
  ensure (magic == worker_magic_1) (ascii "guest sent bad magic " ++ hexadecimal magic)

-- `for feature in &negotiated.features { ensure!(…) }`
unfoldable pub require_features : List Bytes → List Bytes → M Duplex (Unit {0})
require_features theirs [] = pure tt
require_features theirs (f ∷ fs) = do
  ensure (contains theirs f)
      (ascii "guest lacks protocol feature '" ++ (f ++ ascii "' negotiated with the host daemon"))
  require_features theirs fs

-- The part of `downstream` from protocol 1.38 on.
unfoldable pub exchange_downstream : Negotiated → M Duplex (Unit {0})
exchange_downstream negotiated = do
  client_features ← reading read_features
  writing (write_string_list negotiated.features)
  writing flush
  require_features client_features negotiated.features

unfoldable pub downstream : Negotiated → M Duplex (Unit {0})
downstream negotiated = do
  writing (write_u64 worker_magic_2)
  writing (write_u64 (to_wire negotiated.version))
  writing flush
  word ← reading read_u64
  let client = from_wire word
  ensure (version_le negotiated.version client) (
      ascii "guest protocol version "
      ++ (show_version client
          ++ (ascii " is older than the host daemon's "
              ++ (show_version negotiated.version
                  ++ ascii "; the proxy does not translate between versions"))))
  if version_le feature_exchange negotiated.version then exchange_downstream negotiated else pure tt

-- The definitions of this file, by one name for `unfolding` lines that run them.
unfoldable pub handshake_code : Unit {0}
unfolding copy_code utf8_code ascii decimal hexadecimal from_wire to_wire version_le version_min
    show_version feature_realisation_with_path contains realisation_with_path text_lt insert
    utf8_feature collect_features read_features common exchange_upstream settle read_answer upstream
    guest_magic require_features exchange_downstream downstream
handshake_code = tt
