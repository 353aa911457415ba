-- ===== src/Proxy/Session/Halves.antt =====
-- Operations on some halves of a session's connections, in the terms of its traffic.
use claudepod.Prelude.{◌≡◌, refl, sym, ◌∙◌, [], ◌++◌, append-nil, Bytes}
use claudepod.Outcome.{M, zoom}
use claudepod.Outcome.Trace.{Trace, Does, Post-map}
use claudepod.Wire.{Stream, Sink, write_all, flush}
use claudepod.Wire.Copy.{Duplex}
use claudepod.Wire.Reading.{stream_trace}
use claudepod.Wire.Writing.{written, written-write_all, written-flush}
use claudepod.Wire.Moves.{Moved, duplex_trace}
use claudepod.Proxy.Session.{
  World, from_guest, from_host, to_guest, to_host, guest_to_host, host_to_guest, guest_to_nowhere,
}
use claudepod.Proxy.Session.Traffic.{Traded, Traffic, appended, calm, still_in, world_trace}

-- What a sink is given.
abbrev pub sink_trace : Trace Sink
sink_trace = record {
  Log = Bytes;
  idle = [];
  after = λ a b. a ++ b;
  Evolves = λ w a w'. written w' ≡ written w ++ a;
  Ready = λ _. Unit {0};
  still = λ w. sym (append-nil _);
  follows = λ {s} {t} {u} {a} {b} p q. appended _ a b p q;
  keeps = λ _ h. h;
}

-- An operation on a part of the world, in the terms of the world.
pub Does-zoom :
    {T A : Type 0} (tr : Trace T) (get : World → T) (put : T → World → World)
    (embed : tr.Log → Traffic) {P : A → tr.Log → Type 0} {E : tr.Log → Type 0} {m : M T A}
    {w : World}
    → ((a : tr.Log) (t : T) → tr.Evolves (get w) a t → Traded w (embed a) (put t w))
    → Does tr m (get w) P E
    → Does world_trace
        (zoom get put m)
        w
        (λ x b. (a : tr.Log) × (b ≡ embed a) × P x a)
        (λ b. (a : tr.Log) × (b ≡ embed a) × E a)
unfolding zoom
Does-zoom tr get put embed {P} {E} {m} {w} lift d = record {
  log = embed d.log;
  evolves = lift d.log _ d.evolves;
  post = Post-map P E _ _ (m (get w)).0 (λ x h. (d.log, refl, h)) (λ h. (d.log, refl, h)) d.post;
}

-- The traffic of an operation on one part only.
module _ (a : Bytes) where
  abbrev pub guest_took : Traffic
  guest_took = record calm { guest_taken = a }

  abbrev pub guest_got : Traffic
  guest_got = record calm { guest_put = a }

  abbrev pub host_took : Traffic
  host_took = record calm { host_taken = a }

  abbrev pub host_got : Traffic
  host_got = record calm { host_put = a }

abbrev pub upward : Moved → Traffic
upward a = record calm { guest_taken = a.taken; host_put = a.put }

abbrev pub downward : Moved → Traffic
downward a = record calm { host_taken = a.taken; guest_put = a.put }

module _ {A : Type 0} {w : World} where
  module _ {P : A → Moved → Type 0} {E : Moved → Type 0} {m : M Duplex A} where
    pub Does-guest_to_host :
        Does duplex_trace m (record { input = w.guest_in; output = w.host_out }) P E
        → Does world_trace
            (guest_to_host m)
            w
            (λ x b. (a : Moved) × (b ≡ upward a) × P x a)
            (λ b. (a : Moved) × (b ≡ upward a) × E a)
    unfolding guest_to_host
    Does-guest_to_host = Does-zoom duplex_trace _ _ upward λ a d e. record {
      guest_in = e.input;
      guest_out = sym (append-nil _);
      host_in = still_in _;
      host_out = e.output;
      fills = sym (append-nil _);
    }

    pub Does-host_to_guest :
        Does duplex_trace m (record { input = w.host_in; output = w.guest_out }) P E
        → Does world_trace
            (host_to_guest m)
            w
            (λ x b. (a : Moved) × (b ≡ downward a) × P x a)
            (λ b. (a : Moved) × (b ≡ downward a) × E a)
    unfolding host_to_guest
    Does-host_to_guest = Does-zoom duplex_trace _ _ downward λ a d e. record {
      guest_in = still_in _;
      guest_out = e.output;
      host_in = e.input;
      host_out = sym (append-nil _);
      fills = sym (append-nil _);
    }

    pub Does-guest_to_nowhere :
        Does duplex_trace m
          (record { input = w.guest_in; output = record { sent = []; buffered = [] } })
          P
          E
        → Does world_trace
            (guest_to_nowhere m)
            w
            (λ x b. (a : Moved) × (b ≡ guest_took a.taken) × P x a)
            (λ b. (a : Moved) × (b ≡ guest_took a.taken) × E a)
    unfolding guest_to_nowhere
    Does-guest_to_nowhere =
        Does-zoom duplex_trace _ _ (λ a. guest_took a.taken)
          λ a d e. record {
            guest_in = e.input;
            guest_out = sym (append-nil _);
            host_in = still_in _;
            host_out = sym (append-nil _);
            fills = sym (append-nil _);
          }

  module _ {P : A → Bytes → Type 0} {E : Bytes → Type 0} {m : M Stream A} where
    pub Does-from_guest :
        Does stream_trace m w.guest_in P E
        → Does world_trace
            (from_guest m)
            w
            (λ x b. (a : Bytes) × (b ≡ guest_took a) × P x a)
            (λ b. (a : Bytes) × (b ≡ guest_took a) × E a)
    unfolding from_guest
    Does-from_guest = Does-zoom stream_trace _ _ guest_took λ a s e. record {
      guest_in = e;
      guest_out = sym (append-nil _);
      host_in = still_in _;
      host_out = sym (append-nil _);
      fills = sym (append-nil _);
    }

    pub Does-from_host :
        Does stream_trace m w.host_in P E
        → Does world_trace
            (from_host m)
            w
            (λ x b. (a : Bytes) × (b ≡ host_took a) × P x a)
            (λ b. (a : Bytes) × (b ≡ host_took a) × E a)
    unfolding from_host
    Does-from_host = Does-zoom stream_trace _ _ host_took λ a s e. record {
      guest_in = still_in _;
      guest_out = sym (append-nil _);
      host_in = e;
      host_out = sym (append-nil _);
      fills = sym (append-nil _);
    }

  module _ {P : A → Bytes → Type 0} {E : Bytes → Type 0} {m : M Sink A} where
    pub Does-to_guest :
        Does sink_trace m w.guest_out P E
        → Does world_trace
            (to_guest m)
            w
            (λ x b. (a : Bytes) × (b ≡ guest_got a) × P x a)
            (λ b. (a : Bytes) × (b ≡ guest_got a) × E a)
    unfolding to_guest
    Does-to_guest = Does-zoom sink_trace _ _ guest_got λ a s e. record {
      guest_in = still_in _;
      guest_out = e;
      host_in = still_in _;
      host_out = sym (append-nil _);
      fills = sym (append-nil _);
    }

    pub Does-to_host :
        Does sink_trace m w.host_out P E
        → Does world_trace
            (to_host m)
            w
            (λ x b. (a : Bytes) × (b ≡ host_got a) × P x a)
            (λ b. (a : Bytes) × (b ≡ host_got a) × E a)
    unfolding to_host
    Does-to_host = Does-zoom sink_trace _ _ host_got λ a s e. record {
      guest_in = still_in _;
      guest_out = sym (append-nil _);
      host_in = still_in _;
      host_out = e;
      fills = sym (append-nil _);
    }

-- Writers, which always succeed.
module _ {E : Bytes → Type 0} where
  pub Puts-write_all : (bs : Bytes) (k : Sink) → Does sink_trace (write_all bs) k (λ _ a. a ≡ bs) E
  unfolding write_all
  Puts-write_all bs k = record { log = bs; evolves = written-write_all bs k; post = refl }

  pub Puts-flush : (k : Sink) → Does sink_trace flush k (λ _ a. a ≡ []) E
  unfolding flush
  Puts-flush k = record { log = []; evolves = written-flush k ∙ sym (append-nil _); post = refl }
