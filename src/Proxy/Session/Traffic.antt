-- ===== src/Proxy/Session/Traffic.antt =====
-- What passes over the two connections in the op loop of session.rs, and which fills are asked for.
use claudepod.Prelude.{◌≡◌, refl, sym, ap, ◌∙◌, List, [], ◌++◌, append-nil, append_assoc, Bytes}
use claudepod.Outcome.Trace.{Trace}
use claudepod.Wire.{Stream}
use claudepod.Wire.Reading.{IsReady, Passed, Passed-follows, Passed-IsReady}
use claudepod.Wire.Writing.{written}
use claudepod.Proxy.Session.{World}

pub record Traffic : Type 0 where
  pub guest_taken : Bytes
  pub guest_put : Bytes
  pub host_taken : Bytes
  pub host_put : Bytes
  pub filled : List Bytes

pub record Traded (w : World) (a : Traffic) (w' : World) : Type 0 where
  pub guest_in : Passed w.guest_in a.guest_taken w'.guest_in
  pub guest_out : written w'.guest_out ≡ written w.guest_out ++ a.guest_put
  pub host_in : Passed w.host_in a.host_taken w'.host_in
  pub host_out : written w'.host_out ≡ written w.host_out ++ a.host_put
  pub fills : w'.fills ≡ w.fills ++ a.filled

abbrev pub calm : Traffic
calm = record { guest_taken = []; guest_put = []; host_taken = []; host_put = []; filled = [] }

abbrev pub together : Traffic → Traffic → Traffic
together a b = record {
  guest_taken = a.guest_taken ++ b.guest_taken;
  guest_put = a.guest_put ++ b.guest_put;
  host_taken = a.host_taken ++ b.host_taken;
  host_put = a.host_put ++ b.host_put;
  filled = a.filled ++ b.filled;
}

pub together-calm : (a : Traffic) → together a calm ≡ a
together-calm a = λ i. record {
  guest_taken = append-nil a.guest_taken i;
  guest_put = append-nil a.guest_put i;
  host_taken = append-nil a.host_taken i;
  host_put = append-nil a.host_put i;
  filled = append-nil a.filled i;
}

pub together_eq : {a a' b b' : Traffic} → a ≡ a' → b ≡ b' → together a b ≡ together a' b'
together_eq p q = λ i. together (p i) (q i)

-- Both peers send nothing but bytes.
abbrev pub IsOpen : World → Type 0
IsOpen w = IsReady w.guest_in × IsReady w.host_in

pub still_in : (s : Stream) → Passed s [] s
still_in s = record { bytes = refl; ending = refl }

pub Traded-still : (w : World) → Traded w calm w
Traded-still w = record {
  guest_in = still_in w.guest_in;
  guest_out = sym (append-nil _);
  host_in = still_in w.host_in;
  host_out = sym (append-nil _);
  fills = sym (append-nil _);
}

pub appended :
    {A : Type 0} (x : List A) {y z : List A} (a b : List A)
    → y ≡ x ++ a
    → z ≡ y ++ b
    → z ≡ x ++ (a ++ b)
appended x a b p q = q ∙ ap (λ (t : List _). t ++ b) p ∙ append_assoc x a b

pub Traded-follows :
    {u v w : World} {a b : Traffic} → Traded u a v → Traded v b w → Traded u (together a b) w
Traded-follows {a = a} {b = b} p q = record {
  guest_in = Passed-follows p.guest_in q.guest_in;
  guest_out = appended _ a.guest_put b.guest_put p.guest_out q.guest_out;
  host_in = Passed-follows p.host_in q.host_in;
  host_out = appended _ a.host_put b.host_put p.host_out q.host_out;
  fills = appended _ a.filled b.filled p.fills q.fills;
}

-- What fills nothing leaves the fills as they are.
pub Traded-fills : {w w' : World} {a : Traffic} → Traded w a w' → a.filled ≡ [] → w'.fills ≡ w.fills
Traded-fills e h = rw (e.fills, h, append-nil) refl

pub Traded-IsOpen : {w w' : World} {a : Traffic} → Traded w a w' → IsOpen w → IsOpen w'
Traded-IsOpen e h = (Passed-IsReady e.guest_in h.0, Passed-IsReady e.host_in h.1)

abbrev pub world_trace : Trace World
world_trace = record {
  Log = Traffic;
  idle = calm;
  after = together;
  Evolves = Traded;
  Ready = IsOpen;
  still = Traded-still;
  follows = Traded-follows;
  keeps = Traded-IsOpen;
}
