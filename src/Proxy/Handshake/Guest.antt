-- ===== src/Proxy/Handshake/Guest.antt =====
-- What the leg of the handshake to the guest advertises, and which guests it accepts.
use claudepod.Prelude.{
  ℕ, ◌≡◌, ◌⊎◌, refl, sym, ap, ◌∙◌, Bool, true, false, ◌||◌, List, [], ◌∷◌, ◌++◌, append-nil,
  append_assoc, Bytes, bytes_eq, arith, Bool-cases, inl, inr, All, if◌then◌else◌,
}
use claudepod.Outcome.{pure}
use claudepod.Outcome.Trace.{Does, Does-pure, Does-fail, Does-bind, Does-mono, Does-ensure}
use claudepod.Wire.Copy.{Duplex}
use claudepod.Wire.Format.{word, list_frame}
use claudepod.Wire.Reading.{
  IsReady, Reads, Passed-IsReady, stream_trace, Reads-read_u64, Reads-read_string_list,
}
use claudepod.Wire.Writing.{write_u64-frame, write_string_list-frame}
use claudepod.Wire.Moves.{
  Moved, Carried-IsReady, duplex_trace, Does-reading, Does-emit, Does-flushed,
}
use claudepod.Utf8.{is_utf8}
use claudepod.Proxy.Handshake.{
  Negotiated, worker_magic_2, feature_exchange, from_wire, to_wire, version_le, insert, contains,
  utf8_feature, collect_features, read_features, require_features, exchange_downstream, downstream,
}

-- A set has only what the list has that it was collected from, or what it had before.
abbrev Within : List Bytes → List Bytes → List Bytes → Type 0
Within new old items =
    (f : Bytes) → contains new f ≡ true → (contains old f || contains items f) ≡ true

contains-insert :
    (f : Bytes) (set : List Bytes) (g : Bytes)
    → contains (insert f set) g ≡ true
    → (contains set g || bytes_eq f g) ≡ true
unfolding insert contains
contains-insert f [] g h = ground (arith, h)
contains-insert f (x ∷ xs) g h = ground (arith, contains-insert f xs g)

-- What one item adds.
Within-insert :
    (f : Bytes) (set items new : List Bytes)
    → Within new (insert f set) items
    → Within new set (f ∷ items)
unfolding contains
Within-insert f set items new w g h = elim (Bool-cases (contains (insert f set) g)) [
  | inl e ↦ ground (arith, contains-insert f set g e)
  | inr e ↦ ground (arith, w g h)
]

Reads-utf8_feature : (f : Bytes) → Reads (utf8_feature f) (λ g t. (t ≡ []) × (g ≡ f))
unfolding utf8_feature
Reads-utf8_feature f s r = elim (Bool-cases (is_utf8 f)) [
  | inl e ↦ rw e (Does-pure stream_trace f s (refl, refl))
  | inr e ↦ rw e (Does-fail stream_trace _ s tt)
]

Reads-collect_features :
    (items set : List Bytes)
    → Reads (collect_features set items) (λ new t. (t ≡ []) × Within new set items)
unfolding collect_features
Reads-collect_features [] set s r = Does-pure stream_trace set s (refl, λ f h. ground (arith, h))
Reads-collect_features (f ∷ fs) set s r =
    Does-bind stream_trace (Reads-utf8_feature f s r) (λ a e. e)
      λ f' a s₁ e₁ h₁.
        Does-mono stream_trace _ _
          (λ new b h. (rw (h₁.0, h.0) refl, Within-insert f set fs new (rw h₁.1 at h.1))) (λ b e. e)
          (Reads-collect_features fs (insert f' set) s₁ (Passed-IsReady e₁ r))

Reads-read_features :
    Reads read_features
      (λ set t. (items : List Bytes) × (t ≡ list_frame items) × Within set [] items)
unfolding read_features
Reads-read_features s r =
    Does-bind stream_trace (Reads-read_string_list _ _ s r) (λ a e. e)
      λ items a s₁ e₁ h₁.
        Does-mono stream_trace _ _
          (λ set b h. (items, ap (λ (t : Bytes). a ++ t) h.0 ∙ append-nil a ∙ h₁.0, h.1)) (λ b e. e)
          (Reads-collect_features items [] s₁ (Passed-IsReady e₁ r))

-- Each of the features is among the items.
abbrev pub Offered : List Bytes → List Bytes → Type 0
Offered items = All (λ (f : Bytes). contains items f ≡ true)

abbrev nothing_moved : Moved
nothing_moved = record { taken = []; put = [] }

Does-require_features :
    (set items fs : List Bytes) (d : Duplex)
    → Within set [] items
    → Does duplex_trace
        (require_features set fs)
        d
        (λ _ a. (a ≡ nothing_moved) × Offered items fs)
        (λ a. a ≡ nothing_moved)
unfolding require_features contains
Does-require_features set items [] d w = Does-pure duplex_trace tt d (refl, tt)
Does-require_features set items (f ∷ fs) d w =
    Does-ensure duplex_trace _ _ _ (λ _. refl)
      λ q.
        Does-mono duplex_trace _ _ (λ _ a h. (h.0, (offered q, h.1))) (λ a h. h)
          (Does-require_features set items fs d w)
  where
    offered : contains set f ≡ true → contains items f ≡ true
    offered q = w f q

only_list :
    {frame : Bytes} (p : Bytes) (b : Moved)
    → p ≡ []
    → b ≡ nothing_moved
    → p ++ (frame ++ b.put) ≡ frame
only_list {frame} p b e h = rw (e, ap (λ (m : Moved). m.put) h) (append-nil frame)

-- The exchange of features: the proxy's are put behind the guest's, whatever those are.
Does-exchange_downstream :
    (n : Negotiated) (d : Duplex)
    → IsReady d.input
    → Does duplex_trace
        (exchange_downstream n)
        d
        (λ _ a.
          (items : List Bytes) × (a.taken ≡ list_frame items)
          × Offered items n.features
          × (a.put ≡ list_frame n.features))
        (λ a. (a.put ≡ []) ⊎ (a.put ≡ list_frame n.features))
unfolding exchange_downstream
Does-exchange_downstream n d r =
    Does-bind duplex_trace (Does-reading {d = d} (Reads-read_features d.input r)) (λ a h. inl h.1)
      λ set a d₁ e₁ h₁. simp write_string_list-frame (
        Does-emit _ d₁ (list_frame n.features) λ d₂ q₂. Does-flushed _ d₂ λ d₃ q₃.
          Does-mono duplex_trace _ _
            (λ _ b h. (
              h₁.0.0,
              rw (ap (λ (m : Moved). m.taken) h.0, append-nil) h₁.0.1,
              h.1,
              only_list a.put b h₁.1 h.0,
            ))
            (λ b h. inr (only_list a.put b h₁.1 h))
            (Does-require_features set h₁.0.0 n.features d₃ h₁.0.2))

-- What the guest is told first.
abbrev pub welcome : Negotiated → Bytes
welcome n = word worker_magic_2 ++ word (to_wire n.version)

-- What the guest must send behind its version, and what it is sent for it.
abbrev pub Exchanged : Negotiated → Bool → Bytes → Bytes → Type 0
Exchanged n true taken put =
    (items : List Bytes) × (taken ≡ list_frame items)
    × Offered items n.features
    × (put ≡ list_frame n.features)
Exchanged n false taken put = (taken ≡ []) × (put ≡ [])

-- From a stream of bytes, whatever comes of the leg to the guest, the guest was told the proxy's
-- magic and exactly the version that was agreed with the host daemon, and behind them nothing or
-- exactly the agreed features. If it succeeds, the guest's version is not older; where the agreed
-- version has the exchange of features, the guest has sent a list with all the agreed features and
-- was sent these; where it has none, neither side sent more.
pub downstream-Exchanged :
    (n : Negotiated) (d : Duplex)
    → IsReady d.input
    → Does duplex_trace
        (downstream n)
        d
        (λ _ a.
          (v : ℕ) × (taken : Bytes) × (put : Bytes) × (a.taken ≡ word v ++ taken)
          × (a.put ≡ welcome n ++ put)
          × (version_le n.version (from_wire v) ≡ true)
          × Exchanged n (version_le feature_exchange n.version) taken put)
        (λ a. (a.put ≡ welcome n) ⊎ (a.put ≡ welcome n ++ list_frame n.features))
unfolding downstream
downstream-Exchanged n d r = simp write_u64-frame (
    Does-emit _ d (word worker_magic_2) λ d₁ q₁. Does-emit _ d₁ (word (to_wire n.version)) λ d₂ q₂.
      Does-flushed _ d₂ λ d₃ q₃.
        Does-bind duplex_trace (Does-reading {d = d₃} (Reads-read_u64 d₃.input (rw (q₃, q₂, q₁) r)))
          (λ a h. inl (told a.put [] h.1 ∙ append-nil _))
          λ v a d₄ e₄ h₄.
            Does-ensure duplex_trace _ _ _
              (λ _. inl (told _ [] (append-nil a.put ∙ h₄.1) ∙ append-nil _))
              λ recent.
                Does-mono duplex_trace _ _
                  (λ _ b h. (
                    v,
                    b.taken,
                    b.put,
                    ap (λ (t : Bytes). t ++ b.taken) h₄.0.0,
                    told _ b.put (ap (λ (t : Bytes). t ++ b.put) h₄.1),
                    recent,
                    h,
                  ))
                  (λ b h. ends a.put b.put h₄.1 h)
                  (exchange d₄ (Carried-IsReady e₄ (rw (q₃, q₂, q₁) r))
                    (version_le feature_exchange n.version)))
  where
    told :
        (p q : Bytes)
        → p ≡ q
        → word worker_magic_2 ++ (word (to_wire n.version) ++ p) ≡ welcome n ++ q
    told p q h = rw h (sym (append_assoc (word worker_magic_2) _ q))

    ends :
        (p q : Bytes)
        → p ≡ []
        → (q ≡ []) ⊎ (q ≡ list_frame n.features)
        → (word worker_magic_2 ++ (word (to_wire n.version) ++ (p ++ q)) ≡ welcome n)
          ⊎ (word worker_magic_2 ++ (word (to_wire n.version) ++ (p ++ q))
              ≡ welcome n ++ list_frame n.features)
    ends p q e (inl h) = inl (told _ [] (rw (e, h) refl) ∙ append-nil _)
    ends p q e (inr h) = inr (told _ _ (rw (e, h) refl))

    exchange :
        (d : Duplex)
        → IsReady d.input
        → (b : Bool)
        → Does duplex_trace
            (if b then exchange_downstream n else pure tt)
            d
            (λ _ a. Exchanged n b a.taken a.put)
            (λ a. (a.put ≡ []) ⊎ (a.put ≡ list_frame n.features))
    exchange d r true = Does-exchange_downstream n d r
    exchange d r false = Does-pure duplex_trace tt d (refl, refl)
