-- ===== src/Wire/Moves.antt =====
-- What an operation between two peers moves: the bytes it takes from the one and gives the other.
use mathlib.Core.Path.{fun_ext}
use claudepod.Prelude.{◌≡◌, refl, sym, ap, ◌∙◌, [], ◌++◌, append_assoc, append-nil, Bytes}
use claudepod.Outcome.{M, zoom, ◌>>=◌}
use claudepod.Outcome.Trace.{Trace, Does, Post-map}
use claudepod.Wire.{Stream, write_all, flush}
use claudepod.Wire.Copy.{Duplex, reading, writing}
use claudepod.Wire.Reading.{Passed, Passed-follows, Passed-IsReady, IsReady, stream_trace}
use claudepod.Wire.Writing.{written, written-write_all, written-flush}

pub record Moved : Type 0 where
  pub taken : Bytes
  pub put : Bytes

pub record Carried (d : Duplex) (a : Moved) (d' : Duplex) : Type 0 where
  pub input : Passed d.input a.taken d'.input
  pub output : written d'.output ≡ written d.output ++ a.put

abbrev pub both : Moved → Moved → Moved
both a b = record { taken = a.taken ++ b.taken; put = a.put ++ b.put }

pub Carried-still : (d : Duplex) → Carried d (record { taken = []; put = [] }) d
Carried-still d = record {
  input = record { bytes = refl; ending = refl };
  output = sym (append-nil (written d.output));
}

pub Carried-follows :
    {d e f : Duplex} {a b : Moved} → Carried d a e → Carried e b f → Carried d (both a b) f
Carried-follows {d} {e} {f} {a} {b} p q = record {
  input = Passed-follows p.input q.input;
  output =
      q.output
      ∙ ap (λ (w : Bytes). w ++ b.put) p.output
      ∙ append_assoc (written d.output) a.put b.put;
}

pub Carried-IsReady : {d e : Duplex} {a : Moved} → Carried d a e → IsReady d.input → IsReady e.input
Carried-IsReady p h = Passed-IsReady p.input h

abbrev pub duplex_trace : Trace Duplex
duplex_trace = record {
  Log = Moved;
  idle = record { taken = []; put = [] };
  after = both;
  Evolves = Carried;
  Ready = λ d. IsReady d.input;
  still = Carried-still;
  follows = Carried-follows;
  keeps = Carried-IsReady;
}

pub Does-reading :
    {A : Type 0} {P : A → Bytes → Type 0} {E : Bytes → Type 0} {m : M Stream A} {d : Duplex}
    → Does stream_trace m d.input P E
    → Does duplex_trace
        (reading m)
        d
        (λ x a. P x a.taken × (a.put ≡ []))
        (λ a. E a.taken × (a.put ≡ []))
unfolding reading zoom
Does-reading {P = P} {E = E} {m = m} {d = d} h = record {
  log = record { taken = h.log; put = [] };
  evolves = record { input = h.evolves; output = sym (append-nil (written d.output)) };
  post = Post-map P E _ _ (m d.input).0 (λ x p. (p, refl)) (λ e. (e, refl)) h.post;
}

pub Does-write_all :
    (bs : Bytes) (d : Duplex) {E : Moved → Type 0}
    → Does duplex_trace (writing (write_all bs)) d (λ _ a. (a.taken ≡ []) × (a.put ≡ bs)) E
unfolding writing zoom write_all
Does-write_all bs d = record {
  log = record { taken = []; put = bs };
  evolves = record {
    input = record { bytes = refl; ending = refl };
    output = written-write_all bs d.output;
  };
  post = (refl, refl);
}

-- The rules for a write and a flush with what comes after them.
module _ {B : Type 0} {Q : B → Moved → Type 0} {E : Moved → Type 0} (n : M Duplex B)
    (d : Duplex) where
  pub Does-emit :
      (bs : Bytes)
      → ((d' : Duplex)
          → d'.input ≡ d.input
          → Does duplex_trace n d'
              (λ y a. Q y (record { taken = a.taken; put = bs ++ a.put }))
              (λ a. E (record { taken = a.taken; put = bs ++ a.put })))
      → Does duplex_trace (writing (write_all bs) >>= λ _. n) d Q E
  unfolding ◌>>=◌ writing zoom write_all
  Does-emit bs k =
      let d' = record d { output = (write_all bs d.output).1 } in
      let h = k d' refl in
      record {
        log = record { taken = h.log.taken; put = bs ++ h.log.put };
        evolves =
            Carried-follows {a = record { taken = []; put = bs }}
              (record {
                input = record { bytes = refl; ending = refl };
                output = written-write_all bs d.output;
              })
              h.evolves;
        post = Post-map _ _ Q E (n d').0 (λ y p. p) (λ p. p) h.post;
      }

  pub Does-flushed :
      ((d' : Duplex) → d'.input ≡ d.input → Does duplex_trace n d' Q E)
      → Does duplex_trace (writing flush >>= λ _. n) d Q E
  unfolding ◌>>=◌ writing zoom flush
  Does-flushed k =
      let d' = record d { output = (flush d.output).1 } in
      let h = k d' refl in
      record {
        log = h.log;
        evolves = record {
          input = h.evolves.input;
          output = h.evolves.output ∙ ap (λ (w : Bytes). w ++ h.log.put) (written-flush d.output);
        };
        post = h.post;
      }

-- Two writes in a row are one.
pub writing-then :
    {B : Type 0} (a b : Bytes) (n : M Duplex B)
    → (writing (write_all a) >>= λ _. (writing (write_all b) >>= λ _. n))
      ≡ (writing (write_all (a ++ b)) >>= λ _. n)
unfolding ◌>>=◌ writing zoom write_all
writing-then a b n = fun_ext λ d.
    ap (λ (t : Bytes). n (record d { output = record { sent = d.output.sent; buffered = t } }))
      (append_assoc d.output.buffered a b)
