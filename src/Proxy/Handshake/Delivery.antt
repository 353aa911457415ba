-- ===== src/Proxy/Handshake/Delivery.antt =====
-- The leg to the host daemon reads only when everything before it is delivered.
use claudepod.Prelude.{◌≡◌, refl, []}
use claudepod.Outcome.{M, Outcome, ok, err, pending, out_of_fuel, zoom}
use claudepod.Outcome.Ending.{Ended, Ends}
use claudepod.Outcome.Stages.{
  Anyhow, Left, Leaves, Leaves-bind, Leaves-if, Leaves-pure, Leaves-always, Leaves-ensure,
}
use claudepod.Wire.{Stream, Sink, flush}
use claudepod.Wire.Copy.{Duplex, reading, writing}
use claudepod.Wire.Ending.{AnySink, Ends-write_u64, Ends-write_string_list}
use claudepod.Proxy.Handshake.{Version, exchange_upstream, settle, read_answer, upstream}

-- Nothing waits in the buffer.
abbrev pub Served : Duplex → Type 0
Served d = d.output.buffered ≡ []

-- An operation that waits only with everything delivered.
abbrev Speaks : {A : Type 0} → (Duplex → Type 0) → (Duplex → Type 0) → M Duplex A → Type 0
Speaks Pre Post m = Leaves Pre Post Anyhow Served m

module _ {A : Type 0} where
  Speaks-reading : (m : M Stream A) → Speaks Served Served (reading m)
  unfolding reading zoom
  Speaks-reading m = Leaves-always λ d p. (p, tt, p)

  Speaks-writing :
      {P : Duplex → Type 0} (m : M Sink A) → Ends AnySink m → Speaks P Anyhow (writing m)
  unfolding writing zoom
  Speaks-writing m h = record { at = λ d p. go _ (m d.output).0 (h.at d.output tt).0 }
    where
      go : (d : Duplex) (r : Outcome A) → Ended r → Left Anyhow Anyhow Served r d
      go d (ok x) e = tt
      go d (err x) e = tt
      go d pending e = absurd e
      go d out_of_fuel e = tt

Speaks-flush : Speaks Anyhow Served (writing flush)
unfolding writing zoom flush
Speaks-flush = record { at = λ d p. refl }

Speaks-exchange_upstream : Speaks Served Served exchange_upstream
unfolding exchange_upstream
Speaks-exchange_upstream =
    Leaves-bind (Speaks-writing _ (Ends-write_string_list _))
      λ _. Leaves-bind Speaks-flush λ _. Leaves-bind (Speaks-reading _) λ _. Leaves-pure _ λ d p. p

Speaks-settle : (daemon : Version) → Speaks Served Served (settle daemon)
unfolding settle
Speaks-settle daemon = Leaves-bind (Leaves-ensure _ _ λ d p. tt) λ _.
    Leaves-bind (Leaves-ensure _ _ λ d p. tt) λ _.
      Leaves-bind (Leaves-if _ Speaks-exchange_upstream (Leaves-pure _ λ d p. p))
        λ _. Leaves-pure _ λ d p. p

Speaks-read_answer : Speaks Served Served read_answer
unfolding read_answer
Speaks-read_answer = Leaves-bind (Speaks-reading _) λ _.
    Leaves-bind (Leaves-ensure _ _ λ d p. tt)
      λ _. Leaves-bind (Speaks-reading _) λ _. Speaks-settle _

pub upstream-Served : Leaves Anyhow Served Anyhow Served upstream
unfolding upstream
upstream-Served = Leaves-bind (Speaks-writing _ (Ends-write_u64 _)) λ _.
    Leaves-bind (Speaks-writing _ (Ends-write_u64 _))
      λ _. Leaves-bind Speaks-flush λ _. Speaks-read_answer
