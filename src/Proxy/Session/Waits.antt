-- ===== src/Proxy/Session/Waits.antt =====
-- A session whose peers have hung up never waits: the halves of its connections.
use claudepod.Prelude.{◌≡◌, true}
use claudepod.Outcome.{M}
use claudepod.Outcome.Ending.{Ends, Ends-zoom}
use claudepod.Wire.{Stream, Sink}
use claudepod.Wire.Copy.{Duplex}
use claudepod.Wire.Ending.{Hung, AnySink, HungInput, wire_ends}
use claudepod.Proxy.Session.{
  World, from_guest, from_host, to_guest, to_host, guest_to_host, host_to_guest, with_guest,
  with_host, guest_to_nowhere,
}

abbrev pub BothHung : World → Type 0
BothHung w = (w.guest_in.closed ≡ true) × (w.host_in.closed ≡ true)

module _ {A : Type 0} where
  pub Ends-from_guest : (m : M Stream A) → Ends Hung m → Ends BothHung (from_guest m)
  unfolding from_guest
  Ends-from_guest m h = Ends-zoom _ _ m (λ w c. c.0) (λ w s c k. (k, c.1)) h

  pub Ends-from_host : (m : M Stream A) → Ends Hung m → Ends BothHung (from_host m)
  unfolding from_host
  Ends-from_host m h = Ends-zoom _ _ m (λ w c. c.1) (λ w s c k. (c.0, k)) h

  pub Ends-to_guest : (m : M Sink A) → Ends AnySink m → Ends BothHung (to_guest m)
  unfolding to_guest
  Ends-to_guest m h = Ends-zoom _ _ m (λ w c. tt) (λ w s c k. c) h

  pub Ends-to_host : (m : M Sink A) → Ends AnySink m → Ends BothHung (to_host m)
  unfolding to_host
  Ends-to_host m h = Ends-zoom _ _ m (λ w c. tt) (λ w s c k. c) h

  pub Ends-guest_to_host : (m : M Duplex A) → Ends HungInput m → Ends BothHung (guest_to_host m)
  unfolding guest_to_host
  Ends-guest_to_host m h = Ends-zoom _ _ m (λ w c. c.0) (λ w d c k. (k, c.1)) h

  pub Ends-host_to_guest : (m : M Duplex A) → Ends HungInput m → Ends BothHung (host_to_guest m)
  unfolding host_to_guest
  Ends-host_to_guest m h = Ends-zoom _ _ m (λ w c. c.1) (λ w d c k. (c.0, k)) h

  pub Ends-with_guest : (m : M Duplex A) → Ends HungInput m → Ends BothHung (with_guest m)
  unfolding with_guest
  Ends-with_guest m h = Ends-zoom _ _ m (λ w c. c.0) (λ w d c k. (k, c.1)) h

  pub Ends-with_host : (m : M Duplex A) → Ends HungInput m → Ends BothHung (with_host m)
  unfolding with_host
  Ends-with_host m h = Ends-zoom _ _ m (λ w c. c.1) (λ w d c k. (c.0, k)) h

  pub Ends-guest_to_nowhere :
      (m : M Duplex A) → Ends HungInput m → Ends BothHung (guest_to_nowhere m)
  unfolding guest_to_nowhere
  Ends-guest_to_nowhere m h = Ends-zoom _ _ m (λ w c. c.0) (λ w d c k. (k, c.1)) h

-- Everything that a session does with its connections.
pub ruleset session_ends = (
  wire_ends, Ends-from_guest, Ends-from_host, Ends-to_guest, Ends-to_host, Ends-guest_to_host,
  Ends-host_to_guest, Ends-with_guest, Ends-with_host, Ends-guest_to_nowhere,
)
