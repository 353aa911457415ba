-- ===== src/Proxy/Session/Delivery.antt =====
-- What a session has written is delivered before it waits for an answer to it.
use claudepod.Prelude.{◌≡◌, refl, [], ℕ}
use claudepod.Outcome.{M, Outcome, ok, err, pending, out_of_fuel, within, zoom}
use claudepod.Outcome.Ending.{Ended, Ends}
use claudepod.Outcome.Stages.{Anyhow, Left, Leaves, Leaves-within, Leaves-always}
use claudepod.Wire.{Stream, Sink, flush}
use claudepod.Wire.Copy.{Duplex}
use claudepod.Wire.Ending.{AnySink}
use claudepod.Proxy.Handshake.Delivery.{Served}
use claudepod.Proxy.Session.{
  World, from_guest, from_host, to_guest, to_host, host_to_guest, with_guest, with_host,
}

abbrev pub HostServed : World → Type 0
HostServed w = w.host_out.buffered ≡ []

-- Nothing waits in a buffer, neither for the guest nor for the host daemon.
abbrev pub Delivered : World → Type 0
Delivered w = (w.guest_out.buffered ≡ []) × (w.host_out.buffered ≡ [])

-- An operation that waits only with everything delivered to the host daemon.
abbrev pub Turn : {A : Type 0} → (World → Type 0) → (World → Type 0) → M World A → Type 0
Turn Pre Post m = Leaves Pre Post Anyhow HostServed m

module _ {A : Type 0} where
  -- What does not write to the host daemon.
  pub Turn-from_guest : (m : M Stream A) → Turn Delivered Delivered (from_guest m)
  unfolding from_guest zoom
  Turn-from_guest m = Leaves-always λ w p. (p, tt, p.1)

  pub Turn-greeting_guest : (m : M Stream A) → Turn HostServed HostServed (from_guest m)
  unfolding from_guest zoom
  Turn-greeting_guest m = Leaves-always λ w p. (p, tt, p)

  pub Turn-from_host : (m : M Stream A) → Turn HostServed HostServed (from_host m)
  unfolding from_host zoom
  Turn-from_host m = Leaves-always λ w p. (p, tt, p)

  pub Turn-to_guest : (m : M Sink A) → Turn HostServed HostServed (to_guest m)
  unfolding to_guest zoom
  Turn-to_guest m = Leaves-always λ w p. (p, tt, p)

  pub Turn-host_to_guest : (m : M Duplex A) → Turn HostServed HostServed (host_to_guest m)
  unfolding host_to_guest zoom
  Turn-host_to_guest m = Leaves-always λ w p. (p, tt, p)

  pub Turn-with_guest : (m : M Duplex A) → Turn HostServed HostServed (with_guest m)
  unfolding with_guest zoom
  Turn-with_guest m = Leaves-always λ w p. (p, tt, p)

  -- What has a time limit does not wait for ever, so it may leave something to be delivered.
  pub Turn-within : {P : World → Type 0} (secs : ℕ) (m : M World A) → Turn P Anyhow (within secs m)
  Turn-within secs m =
      Leaves-within {Late = Anyhow} secs (λ w l. tt) (Leaves-always λ w p. (tt, tt, tt))

  -- A write does not wait.
  not_waiting : (w : World) (r : Outcome A) → Ended r → Left Anyhow Anyhow HostServed r w
  not_waiting w (ok x) e = tt
  not_waiting w (err x) e = tt
  not_waiting w pending e = absurd e
  not_waiting w out_of_fuel e = tt

  pub Turn-to_host :
      {P : World → Type 0} (m : M Sink A) → Ends AnySink m → Turn P Anyhow (to_host m)
  unfolding to_host zoom
  Turn-to_host m h = record { at = λ w p. not_waiting _ (m w.host_out).0 (h.at w.host_out tt).0 }

  pub Turn-tells_guest :
      {P : World → Type 0} (m : M Sink A) → Ends AnySink m → Turn P Anyhow (to_guest m)
  unfolding to_guest zoom
  Turn-tells_guest m h = record {
    at = λ w p. not_waiting _ (m w.guest_out).0 (h.at w.guest_out tt).0;
  }

pub Turn-flush_host : {P : World → Type 0} → Turn P HostServed (to_host flush)
unfolding to_host zoom flush
Turn-flush_host = record { at = λ w p. refl }

pub Turn-flush_guest : Turn HostServed Delivered (to_guest flush)
unfolding to_guest zoom flush
Turn-flush_guest = record { at = λ w p. (refl, p) }

pub Turn-with_host :
    {A : Type 0} (m : M Duplex A)
    → Leaves Anyhow Served Anyhow Served m
    → Turn HostServed HostServed (with_host m)
unfolding with_host zoom
Turn-with_host {A} m h = record {
  at = λ w p. go w (m (ends w)).0 (m (ends w)).1 (h.at (ends w) tt);
}
  where
    ends : World → Duplex
    ends w = record { input = w.host_in; output = w.host_out }

    go :
        (w : World) (r : Outcome A) (d : Duplex)
        → Left Served Anyhow Served r d
        → Left HostServed Anyhow HostServed r (record w { host_in = d.input; host_out = d.output })
    go w (ok x) d l = l
    go w (err x) d l = l
    go w pending d l = l
    go w out_of_fuel d l = l
