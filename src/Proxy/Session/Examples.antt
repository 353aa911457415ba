-- ===== src/Proxy/Session/Examples.antt =====
-- Whole sessions, as the tests of session.rs run them.
use claudepod.Prelude.{
  Bool, ◌≡◌, refl, true, Option, some, [], ◌∷◌, ◌++◌, Bytes, ascii, bytes_eq, length,
}
use claudepod.Outcome.{ok, err, message}
use claudepod.Outcome.Trace.{Does}
use claudepod.Wire.{Sink, le_bytes}
use claudepod.Wire.Format.{word, padding}
use claudepod.Wire.Reading.{IsReady-all_bytes}
use claudepod.Wire.Writing.{written}
use claudepod.Proxy.Handshake.{Negotiated, worker_magic_1, worker_magic_2}
use claudepod.Proxy.Ops.{query_referrers}
use claudepod.Proxy.Handshake.Features.{WithPath}
use claudepod.Proxy.RunRoots.{NixRunRoots}
use claudepod.Proxy.Stderr.{stderr_last}
use claudepod.Proxy.Session.{World, Answer, given, Env, establish}
use claudepod.Proxy.Session.Opening.{Fresh, Settled, Unsettled, establish-Settled}
use claudepod.Proxy.Session.Whole.{Completed, Aborted, run-Completed}
use claudepod.Outcome.Stages.{Anyhow, Left}
use claudepod.Proxy.Session.Delivery.{HostServed, Delivered}
use claudepod.Proxy.Session.Delivered.{op_round-Delivered, run-Delivered}
use claudepod.Proxy.Session.Rounds.{
  another, op_round, relay_op, serve_is_valid_path, run, session_code,
}
use claudepod.Proxy.Session.Traffic.{Traffic, together, world_trace, IsOpen, still_in}
use claudepod.Proxy.Session.Mirrors.{Forwarded, Truncated, relay_op-mirrors}
use claudepod.Proxy.Session.Decision.{
  word_sent, Intercepted, Interrupted, serve_is_valid_path-decision,
}
use claudepod.Proxy.Session.Serving.{Ended}
use claudepod.Proxy.Session.Dialling.{Untouched, run-word}
use claudepod.Prelude.{◌⊎◌}
use claudepod.Proxy.Session.Loop.{Round, op_round-served}

abbrev store_path : Bytes
store_path = ascii "/nix/store/aaa111-one"

-- A string with its length and padding.
abbrev put_str : Bytes → Bytes
put_str s = le_bytes 8 (length s) ++ (s ++ padding (length s))

abbrev guest_script : Bytes
guest_script =
    word worker_magic_1
    ++ (word 0x126 ++ (word 1 ++ (put_str (ascii "disable-set-options") ++ (word 0 ++ word 0))))

abbrev host_script : Bytes
host_script =
    word worker_magic_2
    ++ (word 0x126 ++ (word 0 ++ (put_str (ascii "2.34.7") ++ (word 2 ++ word stderr_last))))

abbrev ask_path : Bytes
ask_path = word 1 ++ put_str store_path

abbrev no_sink : Sink
no_sink = record { sent = []; buffered = [] }

-- The guest's bytes and the host's, the paths that may be filled, and what a fill comes to.
abbrev env_of : Bytes → Option NixRunRoots → Answer (Unit {0}) → Env
env_of host_bytes roots filled = record {
  texts = λ _. [];
  chunk = λ n. 3;
  connect = given (record { bytes = host_bytes; closed = true });
  nix_run_roots = roots;
  fill = λ _ _. filled;
}

abbrev world_of : Bytes → Bytes → World
world_of guest_bytes host_bytes = record {
  guest_in = record { bytes = guest_bytes; closed = true };
  guest_out = no_sink;
  host_in = record { bytes = host_bytes; closed = true };
  host_out = no_sink;
  dials = 0;
  fills = [];
  warnings = [];
}

abbrev some_roots : Option NixRunRoots
some_roots = some (record { paths = store_path ∷ [] })

abbrev old_negotiated : Negotiated
old_negotiated = record { version = record { major = 1; minor = 35 }; features = [] }

abbrev filling_env : Env
filling_env =
    env_of (host_script ++ (word stderr_last ++ (word 0 ++ (word stderr_last ++ word 1))))
      some_roots (given tt)

-- A path that the host does not have is filled, and the second answer of the host is the guest's.
filled_session :
    let r = run filling_env (world_of (guest_script ++ ask_path) []) in
    (r.0 ≡ ok tt)
    × (r.1.fills ≡ store_path ∷ [])
    × (r.1.host_out.sent
        ≡ word worker_magic_1
          ++ (word 0x126 ++ (word 0 ++ (word 0 ++ (word 0 ++ (ask_path ++ ask_path))))))
unfolding session_code bytes_eq
filled_session = (refl, refl, refl)

-- What is no op of the allowlist ends the session, and the host is sent nothing of it.
rejected_session :
    let r = op_round filling_env old_negotiated (world_of (word 9 ++ word 0) []) in
    (r.0 ≡ err (message (ascii "rejected op BuildPaths (9): not in the read-only allowlist")))
    × (written r.1.host_out ≡ [])
unfolding session_code bytes_eq written
rejected_session = (refl, refl)

abbrev asking : World
asking = world_of ask_path (word stderr_last ++ (word 0 ++ (word stderr_last ++ word 1)))

asking-IsOpen : IsOpen asking
unfolding le_bytes ascii
asking-IsOpen = (IsReady-all_bytes asking.guest_in refl, IsReady-all_bytes asking.host_in refl)

op_round-served_example :
    Does world_trace
      (op_round filling_env old_negotiated)
      asking
      (λ next a. Round some_roots old_negotiated asking.guest_in next a)
      (Ended some_roots)
op_round-served_example = op_round-served filling_env old_negotiated asking asking-IsOpen

-- Behind the op's word.
abbrev asked : World
asked = world_of (put_str store_path) (word stderr_last ++ (word 0 ++ (word stderr_last ++ word 1)))

asked-IsOpen : IsOpen asked
unfolding le_bytes ascii
asked-IsOpen = (IsReady-all_bytes asked.guest_in refl, IsReady-all_bytes asked.host_in refl)

serve_is_valid_path-decision_example :
    Does world_trace
      (serve_is_valid_path filling_env)
      asked
      (λ next a.
        (next ≡ another)
        × (b : Traffic) × (a ≡ together word_sent b)
        × Intercepted some_roots (filling_env.fill []) b)
      (λ a.
        (b : Traffic) × (a ≡ together word_sent b) × Interrupted some_roots (filling_env.fill []) b)
serve_is_valid_path-decision_example = serve_is_valid_path-decision filling_env asked asked-IsOpen

relay_op-mirrors_example :
    Does world_trace
      (relay_op filling_env old_negotiated query_referrers)
      asked
      (λ next a.
        (next ≡ another) × (b : Bool) × WithPath old_negotiated b × Forwarded b query_referrers a)
      (Truncated query_referrers)
relay_op-mirrors_example =
    relay_op-mirrors filling_env old_negotiated query_referrers asked asked-IsOpen

run-word_example :
    Untouched asking (run filling_env asking).1
    ⊎ ((rest : Bytes) × (asking.guest_in.bytes ≡ word worker_magic_1 ++ rest))
run-word_example = run-word filling_env asking asking-IsOpen.0

abbrev whole : World
whole =
    world_of (guest_script ++ ask_path)
      (host_script ++ (word stderr_last ++ (word 0 ++ (word stderr_last ++ word 1))))

whole-IsOpen : IsOpen whole
unfolding le_bytes ascii
whole-IsOpen = (IsReady-all_bytes whole.guest_in refl, IsReady-all_bytes whole.host_in refl)

whole-Fresh : Fresh filling_env.connect whole
unfolding written
whole-Fresh = (still_in _, refl)

establish-Settled_example : Does world_trace (establish filling_env) whole Settled Unsettled
establish-Settled_example = establish-Settled filling_env whole whole-IsOpen whole-Fresh

run-Completed_example :
    Does world_trace
      (run filling_env)
      whole
      (λ _ a. Completed some_roots whole.guest_in a)
      (λ a. Unsettled a ⊎ Aborted some_roots a)
run-Completed_example = run-Completed filling_env whole whole-IsOpen whole-Fresh

op_round-Delivered_example :
    let r = op_round filling_env old_negotiated asking in Left Delivered Anyhow HostServed r.0 r.1
op_round-Delivered_example = op_round-Delivered filling_env old_negotiated asking (refl, refl)

run-Delivered_example : let r = run filling_env whole in Left Delivered Anyhow HostServed r.0 r.1
run-Delivered_example = run-Delivered filling_env whole refl
