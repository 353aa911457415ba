-- ===== src/Proxy/HostClient/Requests.antt =====
-- What `ensure_path_on_connection` of host_client.rs asks of the host daemon.
use claudepod.Prelude.{
  ◌≡◌, refl, ap, ◌∙◌, ◌⊎◌, inl, inr, [], ◌++◌, append-nil, Bytes, ascii, decimal, ◌==◌,
}
use claudepod.Outcome.{
  M, LibraryError, Outcome, ok, err, pending, out_of_fuel, message, fail, ensure, rescue, render,
  with_context, ◌>>=◌,
}
use claudepod.Outcome.Trace.{
  Post, Does, Does-fail, Does-bind, Does-mono, Does-with_context, Does-rescue, Does-ensure_last,
}
use claudepod.Wire.{read_u64, write_all, flush, max_host_string}
use claudepod.Wire.Copy.{Duplex, reading, writing}
use claudepod.Wire.Format.{word, string_frame}
use claudepod.Wire.Reading.{IsReady, Reads-read_u64, Reads-read_string}
use claudepod.Wire.Writing.{write_u64-frame, write_string-frame}
use claudepod.Wire.Moves.{
  Moved, Carried-still, Carried-IsReady, duplex_trace, Does-reading, Does-emit, Does-flushed,
}
use claudepod.StorePath.{validate_direct}
use claudepod.StorePath.Accepted.{validate_direct-Direct, validate_direct-Concluded}
use claudepod.Proxy.RunRoots.Members.{IsDirect}
use claudepod.Proxy.Handshake.{Version}
use claudepod.Proxy.Handshake.Legs.{hello, features_sent, upstream-Agreed}
use claudepod.Proxy.Stderr.Loops.{drain_to_last}
use claudepod.Proxy.Stderr.Drain.{Reads-drain_to_last}
use claudepod.Proxy.HostClient.{op_ensure_path, lift, read_greeting, ensure_path_on_connection}

-- Nothing is written.
abbrev Silent : {A : Type 0} → M Duplex A → Duplex → Type 0
Silent m d = Does duplex_trace m d (λ _ a. a.put ≡ []) (λ _. Unit {0})

Silent-reading_u64 : (d : Duplex) → IsReady d.input → Silent (reading read_u64) d
Silent-reading_u64 d r =
    Does-mono duplex_trace _ _ (λ _ a h. h.1) (λ a h. tt)
      (Does-reading {d = d} (Reads-read_u64 d.input r))

Silent-drain_to_last : (d : Duplex) → IsReady d.input → Silent (reading drain_to_last) d
Silent-drain_to_last d r =
    Does-mono duplex_trace _ _ (λ _ a h. h.1) (λ a h. tt)
      (Does-reading {d = d} (Reads-drain_to_last d.input r))

Silent-bind :
    {A B : Type 0} {m : M Duplex A} {f : A → M Duplex B} {d : Duplex}
    → IsReady d.input
    → Silent m d
    → ((x : A) (d' : Duplex) → IsReady d'.input → Silent (f x) d')
    → Silent (m >>= f) d
Silent-bind {d = d} r h k =
    Does-bind duplex_trace h (λ a e. e)
      λ x a d₁ e₁ h₁.
        Does-mono duplex_trace _ _ (λ _ b p. rw (h₁, p) refl) (λ b e. e)
          (k x d₁ (Carried-IsReady e₁ r))

Silent-read_greeting : (d : Duplex) → IsReady d.input → Silent read_greeting d
unfolding read_greeting
Silent-read_greeting d r =
    Silent-bind r
      (Does-with_context duplex_trace _ (
        Does-mono duplex_trace _ _ (λ _ a h. h.1) (λ a h. tt)
          (Does-reading {d = d} (Reads-read_string max_host_string d.input r))))
      λ _ d₁ r₁.
        Silent-bind r₁ (Does-with_context duplex_trace _ (Silent-reading_u64 d₁ r₁))
          λ _ d₂ r₂. Does-with_context duplex_trace _ (Silent-drain_to_last d₂ r₂)

-- A path that is not direct ends the operation before a byte is written.
Does-validate :
    (path : Bytes) (d : Duplex)
    → Does duplex_trace
        (lift (validate_direct path))
        d
        (λ _ a. (a.put ≡ []) × IsDirect path)
        (λ a. a.put ≡ [])
unfolding lift
Does-validate path d = record {
  log = record { taken = []; put = [] };
  evolves = Carried-still d;
  post = known (validate_direct path) refl;
}
  where
    known :
        (r : Outcome (Unit {0}))
        → validate_direct path ≡ r
        → Post
            (λ (_ : Unit {0}) (a : Moved). (a.put ≡ []) × IsDirect path)
            (λ a. a.put ≡ [])
            r
            (record { taken = []; put = [] })
    known (ok u) e = (refl, (validate_direct-Direct path).0 e)
    known (err x) e = refl
    known pending e = refl
    known out_of_fuel e = rw e at (validate_direct-Concluded path)

-- These bytes are written, if it succeeds.
abbrev Sends : {A : Type 0} → M Duplex A → Duplex → Bytes → Type 0
Sends m d bs = Does duplex_trace m d (λ _ a. a.put ≡ bs) (λ _. Unit {0})

Sends-emit :
    {B : Type 0} {n : M Duplex B} (frame : Bytes) {bs : Bytes} (d : Duplex)
    → IsReady d.input
    → ((d' : Duplex) → IsReady d'.input → Sends n d' bs)
    → Sends (writing (write_all frame) >>= λ _. n) d (frame ++ bs)
Sends-emit {n = n} frame d r k = Does-emit n d frame λ d' q.
    Does-mono duplex_trace _ _ (λ _ a h. ap (λ (t : Bytes). frame ++ t) h) (λ a e. e)
      (k d' (rw q r))

Sends-flushed :
    {B : Type 0} {n : M Duplex B} {bs : Bytes} (d : Duplex)
    → IsReady d.input
    → ((d' : Duplex) → IsReady d'.input → Sends n d' bs)
    → Sends (writing flush >>= λ _. n) d bs
Sends-flushed {n = n} d r k = Does-flushed n d λ d' q. k d' (rw q r)

Sends-after :
    {A B : Type 0} {m : M Duplex A} {f : A → M Duplex B} {bs : Bytes} {d : Duplex}
    → IsReady d.input
    → Silent m d
    → ((x : A) (d' : Duplex) → IsReady d'.input → Sends (f x) d' bs)
    → Sends (m >>= f) d bs
Sends-after r h k =
    Does-bind duplex_trace h (λ a e. e)
      λ x a d₁ e₁ h₁.
        Does-mono duplex_trace _ _ (λ _ b p. rw h₁ p) (λ b e. e) (k x d₁ (Carried-IsReady e₁ r))

-- The request behind the handshake.
abbrev pub request : Bytes → Bytes
request path = word op_ensure_path ++ string_frame path

-- From a stream of bytes, a path that is not a direct store path never makes the operation write a
-- byte. If it succeeds, the daemon was sent the handshake, the two obsolete fields of a client and
-- `EnsurePath` with that path, and nothing else.
pub ensure_path_on_connection-request :
    (texts : LibraryError → Bytes) (path : Bytes) (d : Duplex)
    → IsReady d.input
    → Does duplex_trace
        (ensure_path_on_connection texts path)
        d
        (λ _ a.
          IsDirect path
          × (v : Version) × (a.put
              ≡ (hello ++ features_sent v) ++ (word 0 ++ (word 0 ++ request path))))
        (λ a. (a.put ≡ []) ⊎ IsDirect path)
unfolding ensure_path_on_connection
ensure_path_on_connection-request texts path d r =
    simp (write_u64-frame, write_string-frame)
      (Does-bind duplex_trace (Does-with_context duplex_trace _ (Does-validate path d))
        (λ a e. inl e)
        λ _ a d₁ e₁ h₁.
          let r₁ = Carried-IsReady e₁ r in
          Does-bind duplex_trace (Does-with_context duplex_trace _ (upstream-Agreed d₁ r₁))
            (λ b e. inr h₁.1)
            λ n b d₂ e₂ h₂.
              Does-mono duplex_trace _ _
                (λ _ c h. (
                  h₁.1,
                  n.version,
                  rw (h₁.0, h₂.4)
                      (ap (λ (t : Bytes). (hello ++ features_sent n.version) ++ t)
                        (h ∙ asked path)),
                ))
                (λ c e. inr h₁.1)
                (Sends-emit (word 0) d₂ (Carried-IsReady e₂ r₁) λ d₃ r₃.
                  Sends-emit (word 0) d₃ r₃ λ d₄ r₄. Sends-flushed d₄ r₄ λ d₅ r₅.
                    Sends-after r₅ (Silent-read_greeting d₅ r₅) λ _ d₆ r₆.
                      Sends-emit (word op_ensure_path) d₆ r₆ λ d₇ r₇.
                        Sends-emit (string_frame path) d₇ r₇
                          λ d₈ r₈. Sends-flushed d₈ r₈ (answer texts)))
  where
    asked :
        (path : Bytes)
        → word 0 ++ (word 0 ++ (word op_ensure_path ++ (string_frame path ++ [])))
          ≡ word 0 ++ (word 0 ++ request path)
    asked path =
        ap (λ (t : Bytes). word 0 ++ (word 0 ++ (word op_ensure_path ++ t)))
          (append-nil (string_frame path))

    answer :
        (texts : LibraryError → Bytes) (d : Duplex)
        → IsReady d.input
        → Sends
            (rescue
                (reading drain_to_last)
                (λ e. fail (message (ascii "EnsurePath stderr: " ++ render texts e)))
              >>= λ _. with_context (ascii "EnsurePath result") (reading read_u64) >>= λ success.
                  ensure
                    (success == 1)
                    (ascii "EnsurePath returned unexpected success word " ++ decimal success))
            d
            []
    answer texts d r =
        Sends-after r
          (Does-rescue duplex_trace (Silent-drain_to_last d r) (λ a e. e)
            λ e a d₁ e₁ h₁. Does-fail duplex_trace _ d₁ tt)
          λ _ d₂ r₂.
            Sends-after r₂ (Does-with_context duplex_trace _ (Silent-reading_u64 d₂ r₂))
              λ v d₃ r₃. Does-ensure_last duplex_trace _ _ (λ _. tt) (λ _. refl)
