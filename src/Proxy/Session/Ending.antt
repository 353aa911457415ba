-- ===== src/Proxy/Session/Ending.antt =====
-- A session whose peers have hung up, and whose dial and fills are answered, comes to an end.
use claudepod.Prelude.{ℕ, zero, suc, Bool, Option, none, some, List, Bytes, length}
use claudepod.Outcome.{M, LibraryError, Error, ok, err, pending, pure}
use claudepod.Outcome.Ending.{Ended, Ends, Ends-pure, Ends-no_fuel, Ends-bind}
use claudepod.Wire.{Stream}
use claudepod.Wire.Ending.{
  Hung, AnySink, HungInput, Ends-copy_u64, Ends-copy_string, Ends-read_u64_or_eof, wire_ends,
}
use claudepod.Proxy.Handshake.{Negotiated}
use claudepod.Proxy.Handshake.Ending.{Ends-upstream, Ends-guest_magic, Ends-downstream}
use claudepod.Proxy.Ops.{Op, is_valid_path, set_options, allowed}
use claudepod.Proxy.Ops.Ending.{Ends-copy_args, Ends-copy_result}
use claudepod.Proxy.Stderr.{Terminal, Drained}
use claudepod.Proxy.Stderr.Ending.{
  Ends-write_error, Ends-relay, Ends-relay_without_last, Ends-drain_to_terminal,
}
use claudepod.Proxy.Session.{
  World, Answer, given, failed, silent, Env, dial, copy_post_handshake, relay_greeting, establish,
}
use claudepod.Proxy.Session.Rounds.{
  refuse_args, relay_args, copy_path, relay_is_valid_path_args, Recheck, valid, invalid,
  daemon_error, recheck_result, recheck_is_valid_path, write_is_valid_path_result,
  warn_on_demand_fill, fill_path, answer_recheck, fill_and_recheck, answer_is_valid_path,
  intercept_is_valid_path, Next, hung_up, another, reject, copy_reply, relay_op, swallow_options,
  serve_is_valid_path, serve_op, serve_word, op_round, op_loop, run,
}
use claudepod.Proxy.Session.Waits.{BothHung, Ends-from_guest, session_ends}

-- The dial is answered, if by a connection then by one that the host daemon closes in the end.
abbrev pub Dialled : Answer Stream → Type 0
Dialled (given s) = Hung s
Dialled (failed e) = Unit {0}
Dialled silent = ⊥

abbrev pub Answered : Answer (Unit {0}) → Type 0
Answered silent = ⊥
Answered a = Unit {0}

Ends-refuse_args :
    {A : Type 0} (texts : LibraryError → Bytes) (what : Bytes) (e : Error)
    → Ends BothHung (refuse_args {A = A} texts what e)
unfolding refuse_args
Ends-refuse_args texts what e = search (session_ends, Ends-write_error)

Ends-relay_args :
    (texts : LibraryError → Bytes) (op : Op) (m : M World (Unit {0}))
    → Ends BothHung m
    → Ends BothHung (relay_args texts op m)
unfolding relay_args
Ends-relay_args texts op m h = search (session_ends, Ends-refuse_args)

Ends-relay_is_valid_path_args :
    (texts : LibraryError → Bytes) → Ends BothHung (relay_is_valid_path_args texts)
unfolding relay_is_valid_path_args copy_path
Ends-relay_is_valid_path_args texts = search (session_ends, Ends-refuse_args) depth 12

Ends-recheck_result : (d : Drained) → Ends BothHung (recheck_result d)
unfolding recheck_result
Ends-recheck_result Drained.last = search session_ends
Ends-recheck_result (Drained.error text) = search session_ends

Ends-recheck_is_valid_path : (path : Bytes) → Ends BothHung (recheck_is_valid_path path)
unfolding recheck_is_valid_path
Ends-recheck_is_valid_path path =
    search (session_ends, Ends-drain_to_terminal, Ends-recheck_result) depth 12

Ends-write_is_valid_path_result : (b : Bool) → Ends AnySink (write_is_valid_path_result b)
unfolding write_is_valid_path_result
Ends-write_is_valid_path_result b = search wire_ends

Ends-warn_on_demand_fill : (path reason : Bytes) → Ends BothHung (warn_on_demand_fill path reason)
unfolding warn_on_demand_fill
Ends-warn_on_demand_fill path reason = record { at = λ w h. (tt, h) }

Ends-answer_recheck : (path : Bytes) (r : Recheck) → Ends BothHung (answer_recheck path r)
unfolding answer_recheck
Ends-answer_recheck path valid = search (session_ends, Ends-write_is_valid_path_result)
Ends-answer_recheck path invalid =
    search (session_ends, Ends-warn_on_demand_fill, Ends-write_is_valid_path_result)
Ends-answer_recheck path (daemon_error text) =
    search (session_ends, Ends-warn_on_demand_fill, Ends-write_is_valid_path_result)

Ends-reject : (word : ℕ) → Ends BothHung (reject word)
unfolding reject
Ends-reject word = search (session_ends, Ends-write_error)

Ends-copy_reply : (op : Op) (n : Negotiated) (t : Terminal) → Ends BothHung (copy_reply op n t)
unfolding copy_reply
Ends-copy_reply op n Terminal.error = search session_ends
Ends-copy_reply op n Terminal.last = search (session_ends, Ends-copy_result)

Ends-copy_post_handshake : Ends HungInput copy_post_handshake
unfolding copy_post_handshake
Ends-copy_post_handshake = search (wire_ends, Ends-copy_u64)

Ends-relay_greeting : Ends HungInput relay_greeting
unfolding relay_greeting
Ends-relay_greeting = search (wire_ends, Ends-copy_string, Ends-copy_u64, Ends-relay) depth 8

module _ (env : Env) where
  Ends-relay_op : (n : Negotiated) (op : Op) → Ends BothHung (relay_op env n op)
  unfolding relay_op
  Ends-relay_op n op =
      search (session_ends, Ends-relay_args, Ends-copy_args, Ends-relay, Ends-copy_reply) depth 16
        fits 2000

  Ends-swallow_options : (n : Negotiated) → Ends BothHung (swallow_options env n)
  unfolding swallow_options
  Ends-swallow_options n = search (session_ends, Ends-relay_args, Ends-copy_args) depth 12

  module _ (filling : (before : List Bytes) (path : Bytes) → Answered (env.fill before path)) where
    Ends-fill_path : (path : Bytes) → Ends BothHung (fill_path env path)
    unfolding fill_path
    Ends-fill_path path = record {
      at = λ w h. (go (env.fill w.fills path) (filling w.fills path), h);
    }
      where
        go :
            (a : Answer (Unit {0}))
            → Answered a
            → Ended {A = Unit {0}} (elim a [ given u ↦ ok u | failed e ↦ err e | silent ↦ pending ])
        go (given u) h = tt
        go (failed e) h = tt
        go silent h = h

    Ends-fill_and_recheck : (path : Bytes) → Ends BothHung (fill_and_recheck env path)
    unfolding fill_and_recheck
    Ends-fill_and_recheck path =
        search
          (
            session_ends, Ends-fill_path, Ends-warn_on_demand_fill, Ends-recheck_is_valid_path,
            Ends-answer_recheck, Ends-write_is_valid_path_result,
          )
          depth 12 fits 2000

    Ends-answer_is_valid_path :
        (path : Bytes) (t : Terminal) → Ends BothHung (answer_is_valid_path env path t)
    unfolding answer_is_valid_path
    Ends-answer_is_valid_path path Terminal.error = search session_ends
    Ends-answer_is_valid_path path Terminal.last =
        search (session_ends, Ends-fill_and_recheck, Ends-write_is_valid_path_result) depth 12

    Ends-serve_is_valid_path : Ends BothHung (serve_is_valid_path env)
    unfolding serve_is_valid_path intercept_is_valid_path
    Ends-serve_is_valid_path =
        search
          (
            session_ends, Ends-relay_is_valid_path_args, Ends-relay_without_last,
            Ends-answer_is_valid_path,
          )
          depth 12 fits 2000

    Ends-serve_op : (n : Negotiated) (op : Op) → Ends BothHung (serve_op env n op)
    unfolding serve_op
    Ends-serve_op n set_options = Ends-swallow_options n
    Ends-serve_op n is_valid_path = Ends-serve_is_valid_path
    Ends-serve_op n op = Ends-relay_op n op

    Ends-serve_word :
        (n : Negotiated) (word : ℕ) (o : Option Op) → Ends BothHung (serve_word env n word o)
    unfolding serve_word
    Ends-serve_word n word none = Ends-reject word
    Ends-serve_word n word (some op) = Ends-serve_op n op

    Ends-op_round : (n : Negotiated) → Ends BothHung (op_round env n)
    unfolding op_round
    Ends-op_round n = Ends-bind _ _ (Ends-from_guest _ (Ends-read_u64_or_eof env.chunk)) λ o. go o
      where
        go :
            (o : Option ℕ)
            → Ends BothHung
                (elim o [ none ↦ pure hung_up | some word ↦ serve_word env n word (allowed word) ])
        go none = Ends-pure hung_up
        go (some word) = Ends-serve_word n word (allowed word)

    Ends-op_loop : (n : Negotiated) (fuel : ℕ) → Ends BothHung (op_loop env n fuel)
    unfolding op_loop
    Ends-op_loop n zero = Ends-no_fuel
    Ends-op_loop n (suc fuel) =
        let rest = Ends-op_loop n fuel in Ends-bind _ _ (Ends-op_round n) λ next. go rest next
      where
        go :
            Ends BothHung (op_loop env n fuel)
            → (next : Next)
            → Ends BothHung (elim next [ hung_up ↦ pure tt | another ↦ op_loop env n fuel ])
        go rest hung_up = Ends-pure tt
        go rest another = rest

    module _ (dialled : Dialled env.connect) where
      Ends-dial : Ends BothHung (dial env)
      unfolding dial
      Ends-dial = go env.connect dialled
        where
          go : (c : Answer Stream) → Dialled c → Ends BothHung (dial (record env { connect = c }))
          go (given s) h = record { at = λ w c. (tt, (c.0, h)) }
          go (failed e) h = record { at = λ w c. (tt, c) }
          go silent h = absurd h

      Ends-establish : Ends BothHung (establish env)
      unfolding establish
      Ends-establish =
          search
            (
              session_ends, Ends-guest_magic, Ends-dial, Ends-upstream, Ends-downstream,
              Ends-copy_post_handshake, Ends-relay_greeting,
            )
            depth 24 fits 4000

      pub Ends-run : Ends BothHung (run env)
      unfolding run
      Ends-run =
          Ends-bind _ _ Ends-establish
            λ n. record { at = λ w h. (Ends-op_loop n (suc (length w.guest_in.bytes))).at w h }
