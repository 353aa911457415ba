-- ===== src/Proxy/Handshake/Versions.antt =====
-- The order of versions in src/proxy/handshake.rs.
use claudepod.Prelude.{
  ◌<◌, ◌≤◌, ltb, ltb→lt, ◌≡◌, ◌⊎◌, refl, true, false, Bool-cases, inl, inr, arith,
}
use claudepod.Proxy.Handshake.{Version, version_le, version_min}

version_le_total : (a b : Version) → version_le a b ≡ false → version_le b a ≡ true
unfolding version_le
version_le_total a b h = ground arith

version_le_refl : (a : Version) → version_le a a ≡ true
unfolding version_le
version_le_refl a = ground arith

-- A version is no newer than another: by its major number first, then by its minor one.
abbrev pub NoNewer : Version → Version → Type 0
NoNewer a b = (a.major < b.major) ⊎ ((a.major ≡ b.major) × (a.minor ≤ b.minor))

pub version_le-NoNewer : (a b : Version) → version_le a b ≡ true → NoNewer a b
unfolding version_le
version_le-NoNewer a b h = elim (Bool-cases (ltb a.major b.major)) [
  | inl e ↦ inl (ltb→lt _ _ e)
  | inr e ↦ inr (ground arith)
]

-- The smaller of two versions is no later than either, and it is one of them.
pub version_min-version_le :
    (a b : Version)
    → (version_le (version_min a b) a ≡ true)
      × (version_le (version_min a b) b ≡ true)
      × ((version_min a b ≡ a) ⊎ (version_min a b ≡ b))
unfolding version_min
version_min-version_le a b = elim (Bool-cases (version_le a b)) [
  | inl e ↦ rw e (version_le_refl a, e, inl refl)
  | inr e ↦ rw e (version_le_total a b e, version_le_refl b, inr refl)
]
