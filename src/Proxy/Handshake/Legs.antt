-- ===== src/Proxy/Handshake/Legs.antt =====
-- What the two legs of the handshake accept, and what they send.
use claudepod.Prelude.{
  ◌⊎◌, ℕ, ◌≡◌, refl, sym, ap, ◌∙◌, Bool, true, false, List, [], ◌∷◌, ◌++◌, append-nil, append_assoc,
  Bytes, ==_iff, Bool-cases, inl, inr, if◌then◌else◌,
}
use claudepod.Outcome.{pure}
use claudepod.Outcome.Trace.{
  Does, Does-pure, Does-fail, Does-bind, Does-mono, Does-ensure, Does-ensure_last,
}
use claudepod.Wire.{Stream}
use claudepod.Wire.Copy.{Duplex}
use claudepod.Wire.Format.{word, list_frame}
use claudepod.Wire.Reading.{
  IsReady, Reads, Passed-IsReady, stream_trace, Reads-read_u64, Reads-read_string_list,
}
use claudepod.Wire.Writing.{write_u64-frame, write_string_list-frame}
use claudepod.Wire.Moves.{Carried-IsReady, duplex_trace, Does-reading, Does-emit, Does-flushed}
use claudepod.Utf8.{is_utf8}
use claudepod.Proxy.Handshake.{
  Version, Negotiated, worker_magic_1, worker_magic_2, our_version, floor, our_features,
  feature_exchange, from_wire, to_wire, version_le, version_min, utf8_feature, collect_features,
  read_features, exchange_upstream, settle, read_answer, upstream, guest_magic,
}
use claudepod.Proxy.Handshake.Versions.{NoNewer, version_le-NoNewer, version_min-version_le}

-- From a stream of bytes, the guest is accepted only with its magic, and no byte more is taken.
pub guest_magic-word :
    (s : Stream)
    → IsReady s
    → Does stream_trace guest_magic s (λ _ t. t ≡ word worker_magic_1) (λ _. Unit {0})
unfolding guest_magic
guest_magic-word s r =
    Does-bind stream_trace (Reads-read_u64 s r) (λ a e. e)
      λ magic a s₁ e₁ h₁.
        Does-ensure_last stream_trace _ _ (λ _. tt)
          λ q. append-nil a ∙ h₁.0 ∙ ap word ((==_iff magic worker_magic_1).0 q)

-- Any outcome of reading the features is fine for what follows.
Reads-utf8_feature : (f : Bytes) → Reads (utf8_feature f) (λ _ t. t ≡ [])
unfolding utf8_feature
Reads-utf8_feature f s r = elim (Bool-cases (is_utf8 f)) [
  | inl e ↦ rw e (Does-pure stream_trace f s refl)
  | inr e ↦ rw e (Does-fail stream_trace _ s tt)
]

Reads-collect_features :
    (items set : List Bytes) → Reads (collect_features set items) (λ _ t. t ≡ [])
unfolding collect_features
Reads-collect_features [] set s r = Does-pure stream_trace set s refl
Reads-collect_features (f ∷ fs) set s r =
    Does-bind stream_trace (Reads-utf8_feature f s r) (λ a e. e)
      λ f' a s₁ e₁ h₁.
        Does-mono stream_trace (λ _ b. a ++ b ≡ []) _ (λ _ b h. rw h₁ h) (λ b e. e)
          (Reads-collect_features fs _ s₁ (Passed-IsReady e₁ r))

Reads-read_features : Reads read_features (λ _ t. (items : List Bytes) × (t ≡ list_frame items))
unfolding read_features
Reads-read_features s r =
    Does-bind stream_trace (Reads-read_string_list _ _ s r) (λ a e. e)
      λ items a s₁ e₁ h₁.
        Does-mono stream_trace (λ _ b. (xs : List Bytes) × (a ++ b ≡ list_frame xs)) _
          (λ _ b h. (items, ap (λ (t : Bytes). a ++ t) h ∙ append-nil a ∙ h₁.0)) (λ b e. e)
          (Reads-collect_features items [] s₁ (Passed-IsReady e₁ r))

-- The version that is agreed on.
pub record Agreed (n : Negotiated) (daemon : Version) : Type 0 where
  pub version_is : n.version ≡ version_min daemon our_version
  pub one_of_two : (n.version ≡ daemon) ⊎ (n.version ≡ our_version)
  pub not_above_daemon : NoNewer n.version daemon
  pub not_above_ours : NoNewer n.version our_version
  pub not_below_floor : NoNewer floor n.version
  pub daemon_major : daemon.major ≡ 1

-- The exchange of features, whatever the daemon's are.
Does-exchange_upstream :
    (d : Duplex)
    → IsReady d.input
    → Does duplex_trace exchange_upstream d
        (λ _ a. a.put ≡ list_frame our_features)
        (λ a. a.put ≡ list_frame our_features)
unfolding exchange_upstream
Does-exchange_upstream d r = simp write_string_list-frame (
    Does-emit _ d (list_frame our_features) λ d₁ q₁. Does-flushed _ d₁ λ d₂ q₂.
      Does-bind duplex_trace (Does-reading {d = d₂} (Reads-read_features d₂.input (rw (q₂, q₁) r)))
        (λ a h. rw (h.1, append-nil) refl)
        λ fs a d₃ e₃ h₃. Does-pure duplex_trace _ d₃ (rw (h₃.1, append-nil) refl))

-- What the proxy sends of its features.
abbrev pub features_sent : Version → Bytes
features_sent v = if version_le feature_exchange v then list_frame our_features else []

Does-settle :
    (daemon : Version) (d : Duplex)
    → IsReady d.input
    → Does duplex_trace
        (settle daemon)
        d
        (λ n a. Agreed n daemon × (a.put ≡ features_sent n.version))
        (λ _. Unit {0})
unfolding settle
Does-settle daemon d r =
    Does-ensure duplex_trace _ _ _ (λ _. tt)
      λ major.
        Does-ensure duplex_trace _ _ _ (λ _. tt)
          λ recent.
            Does-bind duplex_trace
              (Does-features (version_le feature_exchange (version_min daemon our_version)))
              (λ a e. tt)
              λ fs a d₁ e₁ h₁. Does-pure duplex_trace _ d₁ (
                record {
                  version_is = refl;
                  one_of_two = (version_min-version_le daemon our_version).2;
                  not_above_daemon =
                      version_le-NoNewer _ daemon (version_min-version_le daemon our_version).0;
                  not_above_ours =
                      version_le-NoNewer _ our_version
                        (version_min-version_le daemon our_version).1;
                  not_below_floor = version_le-NoNewer floor _ recent;
                  daemon_major = (==_iff daemon.major 1).0 major;
                },
                append-nil a.put ∙ h₁,
              )
  where
    Does-features :
        (b : Bool)
        → Does duplex_trace
            (if b then exchange_upstream else pure [])
            d
            (λ _ a. a.put ≡ (if b then list_frame our_features else []))
            (λ _. Unit {0})
    Does-features true =
        Does-mono duplex_trace _ _ (λ _ a h. h) (λ a h. tt) (Does-exchange_upstream d r)
    Does-features false = Does-pure duplex_trace [] d refl

Does-read_answer :
    (d : Duplex)
    → IsReady d.input
    → Does duplex_trace read_answer d
        (λ n a.
          (v : ℕ) × (rest : Bytes) × (a.taken ≡ word worker_magic_2 ++ (word v ++ rest))
          × Agreed n (from_wire v)
          × (a.put ≡ features_sent n.version))
        (λ _. Unit {0})
unfolding read_answer
Does-read_answer d r =
    Does-bind duplex_trace (Does-reading {d = d} (Reads-read_u64 d.input r)) (λ a e. tt)
      λ magic a d₁ e₁ h₁.
        let r₁ = Carried-IsReady e₁ r in
        Does-ensure duplex_trace _ _ _ (λ _. tt)
          λ q.
            Does-bind duplex_trace (Does-reading {d = d₁} (Reads-read_u64 d₁.input r₁)) (λ b e. tt)
              λ v b d₂ e₂ h₂.
                Does-mono duplex_trace _ _
                  (λ n c h. (
                    v,
                    c.taken,
                    rw (h₁.0.0, h₂.0.0, ap word ((==_iff magic worker_magic_2).0 q)) refl,
                    h.0,
                    rw (h₁.1, h₂.1) h.1,
                  ))
                  (λ c e. tt) (Does-settle (from_wire v) d₂ (Carried-IsReady e₂ r₁))

-- What is sent to the daemon before its answer.
abbrev pub hello : Bytes
hello = word worker_magic_1 ++ word (to_wire our_version)

-- From a stream of bytes, whatever comes of the leg to the host daemon, the daemon was sent
-- the proxy's magic and version first. If it succeeds, the daemon has sent its magic and the word
-- of a version with major version 1, the agreed version is one of that and the proxy's, by its numbers
-- newer than neither and not below the floor, and the daemon was sent besides the proxy's feature
-- list exactly if the agreed version has the exchange of features.
pub upstream-Agreed :
    (d : Duplex)
    → IsReady d.input
    → Does duplex_trace upstream d
        (λ n a.
          (v : ℕ) × (rest : Bytes) × (a.taken ≡ word worker_magic_2 ++ (word v ++ rest))
          × Agreed n (from_wire v)
          × (a.put ≡ hello ++ features_sent n.version))
        (λ a. (rest : Bytes) × (a.put ≡ hello ++ rest))
unfolding upstream
upstream-Agreed d r = simp write_u64-frame (
    Does-emit _ d (word worker_magic_1) λ d₁ q₁.
      Does-emit _ d₁ (word (to_wire our_version)) λ d₂ q₂. Does-flushed _ d₂ λ d₃ q₃.
        Does-mono duplex_trace _ _
          (λ n a h. (h.0, h.1, h.2, h.3, rw h.4 (sym (append_assoc (word worker_magic_1) _ _))))
          (λ a h. (a.put, sym (append_assoc (word worker_magic_1) _ _)))
          (Does-read_answer d₃ (rw (q₃, q₂, q₁) r)))
