-- ===== src/Proxy/Session/Pairs.antt =====
-- The two connections of session.rs, each with both of its halves, in the terms of its traffic.
use claudepod.Prelude.{◌≡◌, sym, append-nil}
use claudepod.Outcome.{M}
use claudepod.Outcome.Trace.{Does}
use claudepod.Wire.Copy.{Duplex}
use claudepod.Wire.Moves.{Moved, duplex_trace}
use claudepod.Proxy.Session.{World, with_guest, with_host}
use claudepod.Proxy.Session.Traffic.{Traffic, calm, still_in, world_trace}
use claudepod.Proxy.Session.Halves.{Does-zoom}

abbrev pub with_the_guest : Moved → Traffic
with_the_guest a = record calm { guest_taken = a.taken; guest_put = a.put }

abbrev pub with_the_host : Moved → Traffic
with_the_host a = record calm { host_taken = a.taken; host_put = a.put }

module _ {A : Type 0} {w : World} {P : A → Moved → Type 0} {E : Moved → Type 0}
    {m : M Duplex A} where
  pub Does-with_guest :
      Does duplex_trace m (record { input = w.guest_in; output = w.guest_out }) P E
      → Does world_trace
          (with_guest m)
          w
          (λ x b. (a : Moved) × (b ≡ with_the_guest a) × P x a)
          (λ b. (a : Moved) × (b ≡ with_the_guest a) × E a)
  unfolding with_guest
  Does-with_guest = Does-zoom duplex_trace _ _ with_the_guest λ a d e. record {
    guest_in = e.input;
    guest_out = e.output;
    host_in = still_in _;
    host_out = sym (append-nil _);
    fills = sym (append-nil _);
  }

  pub Does-with_host :
      Does duplex_trace m (record { input = w.host_in; output = w.host_out }) P E
      → Does world_trace
          (with_host m)
          w
          (λ x b. (a : Moved) × (b ≡ with_the_host a) × P x a)
          (λ b. (a : Moved) × (b ≡ with_the_host a) × E a)
  unfolding with_host
  Does-with_host = Does-zoom duplex_trace _ _ with_the_host λ a d e. record {
    guest_in = still_in _;
    guest_out = sym (append-nil _);
    host_in = e.input;
    host_out = e.output;
    fills = sym (append-nil _);
  }
