-- ===== src/Proxy/Session/Greeting.antt =====
-- `run` of session.rs behind the guest's magic: the leg to the guest, and what is relayed then.
use claudepod.Prelude.{
  ◌≡◌, ◌⊎◌, inl, inr, refl, sym, ◌∙◌, ℕ, true, false, not, ◌==◌, ==_iff, Bool-cases, ◌∷◌, [], ◌++◌,
  append_assoc, append-nil, Bytes, ascii,
}
use claudepod.Outcome.{M, pure, within, with_context, ◌>>◌}
use claudepod.Outcome.Trace.{Does, Does-pure, Does-bind, Does-mono, Does-with_context, Does-within}
use claudepod.Wire.{flush, max_host_string}
use claudepod.Wire.Copy.{Duplex, copy_u64}
use claudepod.Wire.Format.{word}
use claudepod.Wire.Reading.{IsReady}
use claudepod.Wire.Moves.{Moved, Carried-IsReady, duplex_trace}
use claudepod.Wire.Verbatim.{
  Starts, Relays, Relays-bind, Relays-mono, Relays-pure, Relays-copy_u64, Relays-copy_string,
}
use claudepod.Wire.Pieces.{IsA, number, text, none_left, piece, Made, Relays-last}
use claudepod.Proxy.Ops.Payloads.{number_copied}
use claudepod.Proxy.Stderr.{Terminal}
use claudepod.Proxy.Session.Halves.{upward, downward}
use claudepod.Proxy.Handshake.{
  Negotiated, worker_magic_2, feature_exchange, from_wire, version_le, downstream,
}
use claudepod.Proxy.Handshake.Legs.{Agreed, hello, features_sent}
use claudepod.Proxy.Handshake.Guest.{Exchanged, welcome, downstream-Exchanged}
use claudepod.Proxy.Stderr.Relay.{Messages, Exchanged-Messages, relay-verbatim}
use claudepod.Proxy.Session.{
  World, handshake_timeout, to_guest, to_host, guest_to_host, host_to_guest, with_guest,
  copy_post_handshake, relay_greeting,
}
use claudepod.Proxy.Session.Traffic.{
  Traffic, Traded-IsOpen, IsOpen, world_trace, together, together_eq, calm,
}
use claudepod.Proxy.Session.Pairs.{with_the_guest, Does-with_guest}
use claudepod.Proxy.Session.Mirrored.{
  Mirrored, Mirrors, Mirrors-pure, Mirrors-with_context, Mirrors-bind, Mirrors-guest_to_host,
  Mirrors-host_to_guest, Mirrors-flush_host, Mirrors-flush_guest,
}

-- The guest's fields: the obsolete affinity, with its value if it is not 0, and the reserved space.
abbrev pub GuestFields : Bytes → Type 0
GuestFields t =
    (affinity : ℕ) × (u : Bytes) × (t ≡ word affinity ++ u)
    × (((affinity ≡ 0) × Made (number ∷ []) u)
        ⊎ (((affinity == 0) ≡ false) × Made (number ∷ number ∷ []) u))

-- The daemon's version and trusted flag, and its greeting.
abbrev pub DaemonGreeting : Bytes → Type 0
DaemonGreeting t =
    (u : Bytes) × (v : Bytes) × (end : Terminal) × (t ≡ u ++ v)
    × Made (text max_host_string ∷ number ∷ []) u
    × Messages end v

last_number : Relays (λ _ t. Made (number ∷ []) t) copy_u64
last_number = Relays-last number number_copied

Relays-copy_post_handshake : Relays (λ _ t. GuestFields t) copy_post_handshake
unfolding copy_post_handshake
Relays-copy_post_handshake = Relays-bind Relays-copy_u64 λ v w h. elim (Bool-cases (v == 0)) [
  | inl e ↦
      rw (e, not)
        (Relays-bind {U = λ _ u. u ≡ []} (Relays-pure tt refl) λ _ u z.
          Relays-mono (λ _ t k. (v, t, rw (h, z) refl, inl ((==_iff v 0).0 e, k))) last_number)
  | inr e ↦
      rw (e, not)
        (Relays-bind {U = λ _ u. IsA number u}
          (Relays-bind number_copied λ _ u k. Relays-pure tt (rw append-nil k))
          λ _ u k.
            Relays-mono (λ _ t j. (v, u ++ t, rw h refl, inr (e, piece number _ u t k j)))
              last_number)
]

greeting-verbatim :
    (d : Duplex)
    → IsReady d.input
    → Does duplex_trace relay_greeting d
        (λ _ a. (a.put ≡ a.taken) × DaemonGreeting a.taken)
        (λ _. Unit {0})
unfolding relay_greeting
greeting-verbatim d r =
    Does-bind duplex_trace ((Relays-copy_string max_host_string).at d r) (λ a h. tt)
      λ _ a d₁ e₁ h₁.
        let r₁ = Carried-IsReady e₁ r in
        Does-bind duplex_trace (Relays-copy_u64.at d₁ r₁) (λ b h. tt)
          λ flag b d₂ e₂ h₂.
            Does-bind duplex_trace
              (Does-with_context duplex_trace _ (relay-verbatim d₂ (Carried-IsReady e₂ r₁)))
              (λ c h. tt)
              λ end c d₃ e₃ h₃. Does-pure duplex_trace tt d₃ (
                rw (h₁.0, h₂.0, h₃.0) refl,
                (
                  a.taken ++ b.taken,
                  c.taken,
                  end,
                  whole a.taken b.taken c.taken,
                  piece (text max_host_string) (number ∷ []) a.taken b.taken h₁.1
                      (rw append-nil at (piece number [] b.taken [] (flag, h₂.1) none_left)),
                  Exchanged-Messages (h₃.1),
                ),
              )
  where
    whole : (x y z : Bytes) → x ++ (y ++ (z ++ [])) ≡ (x ++ y) ++ z
    whole x y z = rw append-nil (sym (append_assoc x y z))

-- Behind the two legs: the guest's fields go to the host, and the host's greeting to the guest.
abbrev settled_steps : Negotiated → M World Negotiated
settled_steps n = do
  with_context (ascii "guest post-handshake")
      (within handshake_timeout (guest_to_host copy_post_handshake))
  to_host flush
  host_to_guest relay_greeting
  to_guest flush
  pure n

Mirrors-within :
    {A : Type 0} {V : A → Traffic → Type 0} (secs : ℕ) {m : M World A}
    → Mirrors V m
    → Mirrors V (within secs m)
Mirrors-within secs h = record { at = λ w o. Does-within world_trace secs (h.at w o) }

-- What passes: the fields one way, the greeting the other.
abbrev pub Welcomed : Traffic → Type 0
Welcomed a = GuestFields a.guest_taken × DaemonGreeting a.host_taken

welcomed :
    {a b c d : Traffic} (u v : Moved)
    → a ≡ upward u
    → b ≡ calm
    → c ≡ downward v
    → d ≡ calm
    → GuestFields u.taken
    → DaemonGreeting v.taken
    → Welcomed (together a (together b (together c (together d calm))))
welcomed u v p q r s fields greeting =
    rw (p, q, r, s) (rw append-nil fields, rw append-nil greeting)

Mirrors-settled_steps : (n : Negotiated) → Mirrors (λ m a. (m ≡ n) × Welcomed a) (settled_steps n)
Mirrors-settled_steps n =
    Mirrors-bind
      (Mirrors-with_context _ (Mirrors-within _ (Mirrors-guest_to_host Relays-copy_post_handshake)))
      λ _ a p. Mirrors-bind Mirrors-flush_host λ _ b q.
        Mirrors-bind (Mirrors-host_to_guest (λ _ t. DaemonGreeting t) greeting-verbatim) λ _ c r.
          Mirrors-bind Mirrors-flush_guest
            λ _ d s. Mirrors-pure n (refl, welcomed p.0 r.0 p.1 q r.1 s p.2 r.2)

-- The leg to the guest that was accepted: its version, and the features that were exchanged.
abbrev pub Accepted : Negotiated → Moved → Type 0
Accepted n d =
    (v : ℕ) × (taken : Bytes) × (put : Bytes) × (d.taken ≡ word v ++ taken)
    × (d.put ≡ welcome n ++ put)
    × (version_le n.version (from_wire v) ≡ true)
    × Exchanged n (version_le feature_exchange n.version) taken put

-- The leg to the host daemon that was agreed on.
abbrev pub Negotiates : Negotiated → Moved → Type 0
Negotiates n u =
    (v : ℕ) × (rest : Bytes) × (u.taken ≡ word worker_magic_2 ++ (word v ++ rest))
    × Agreed n (from_wire v)
    × (u.put ≡ hello ++ features_sent n.version)

-- The two legs, and behind them the traffic that passes from the one side to the other.
abbrev pub Greeted : Negotiated → Traffic → Type 0
Greeted n a =
    (d : Moved) × (b : Traffic) × (a ≡ together (with_the_guest d) b)
    × Accepted n d
    × Mirrored b
    × Welcomed b

-- The guest was told of the agreed version.
abbrev pub Told : Negotiated → Traffic → Type 0
Told n a = Starts (welcome n) a.guest_put × (a.filled ≡ [])

-- The handshake with the guest, once the version is agreed.
abbrev pub guest_steps : Negotiated → M World Negotiated
guest_steps n = do
  with_context (ascii "guest handshake") (within handshake_timeout (with_guest (downstream n)))
  settled_steps n

pub Starts-more : (p : Bytes) {t : Bytes} (rest : Bytes) → Starts p t → Starts p (t ++ rest)
Starts-more p rest (x, e) = (x ++ rest, rw e (append_assoc p x rest))

pub Does-guest_steps :
    (n : Negotiated) (w : World)
    → IsOpen w
    → Does world_trace (guest_steps n) w (λ m a. (m ≡ n) × Greeted n a) (Told n)
Does-guest_steps n w o =
    Does-bind world_trace
      (Does-with_context world_trace _ (
        Does-within world_trace _ (
          Does-with_guest (
            Does-mono duplex_trace (λ _ d. Accepted n d) (λ d. Starts (welcome n) d.put)
              (λ _ d h. h) (λ d h. starts _ h)
              (downstream-Exchanged n (record { input = w.guest_in; output = w.guest_out }) o.0)))))
      (λ a h. rw h.1 (h.2, refl))
      λ _ a w₁ e₁ h₁.
        Does-mono world_trace _ _
          (λ m b h. (h.0.0, (h₁.0, b, together_eq h₁.1 refl, h₁.2, h.1, h.0.1)))
          (λ b h. rw h₁.1 (Starts-more (welcome n) b.guest_put (accepted h₁.2), h.filled))
          ((Mirrors-settled_steps n).at w₁ (Traded-IsOpen e₁ o))
  where
    starts : {p : Bytes} (f : Bytes) → (p ≡ welcome n) ⊎ (p ≡ welcome n ++ f) → Starts (welcome n) p
    starts f (inl e) = ([], e ∙ sym (append-nil _))
    starts f (inr e) = (f, e)

    accepted : {d : Moved} → Accepted n d → Starts (welcome n) d.put
    accepted h = (h.2, h.4)
