-- ===== src/Proxy/Session/Delivered.antt =====
-- A session of session.rs delivers what it has written before it waits.
use claudepod.Proxy.Session.Turns.{
  Turn-answer_recheck, Turn-copy_reply, Turn-recheck_is_valid_path, Turn-reject, Turn-relay_args,
  Turn-relay_is_valid_path_args, Turn-warn_on_demand_fill,
}
use claudepod.Prelude.{
  refl, ℕ, zero, suc, true, false, not, ◌==◌, Option, none, some, Bytes, length,
}
use claudepod.Outcome.{no_fuel, pure, zoom}
use claudepod.Outcome.Stages.{
  Anyhow, Left, Leaves, Leaves-with_context, Leaves-bind, Leaves-rescue, Leaves-if, Leaves-pure,
  Leaves-always, Leaves-within,
}
use claudepod.Wire.{Stream}
use claudepod.Wire.Ending.{Ends-write_u64}
use claudepod.Proxy.Handshake.{Negotiated}
use claudepod.Proxy.Handshake.Delivery.{upstream-Served}
use claudepod.Proxy.Ops.{Op, is_valid_path, set_options, allowed}
use claudepod.Proxy.Stderr.{Terminal}
use claudepod.Proxy.Session.{
  World, Answer, given, failed, silent, Env, guest_to_nowhere, dial, establish,
}
use claudepod.Proxy.Session.Rounds.{
  write_is_valid_path_result, fill_path, fillable, fill_and_recheck, answer_is_valid_path,
  intercept_is_valid_path, Next, hung_up, another, relay_op, swallow_options, serve_is_valid_path,
  serve_op, serve_word, op_round, op_loop, run,
}
use claudepod.Proxy.Session.Delivery.{
  HostServed, Delivered, Turn, Turn-from_guest, Turn-greeting_guest, Turn-from_host, Turn-to_guest,
  Turn-host_to_guest, Turn-with_guest, Turn-with_host, Turn-within, Turn-to_host, Turn-flush_host,
  Turn-flush_guest,
}

module _ (env : Env) where
  Turn-relay_op : (n : Negotiated) (op : Op) → Turn HostServed Delivered (relay_op env n op)
  unfolding relay_op
  Turn-relay_op n op = Leaves-bind (Turn-to_host _ (Ends-write_u64 _)) λ _.
      Leaves-bind (Turn-relay_args {Q = Anyhow} env.texts op (Leaves-always λ w p. (tt, tt, tt)))
        λ _. Leaves-bind Turn-flush_host λ _.
          Leaves-bind (Leaves-with_context _ (Turn-host_to_guest _)) λ t.
            Leaves-bind (Turn-copy_reply op n t)
              λ _. Leaves-bind Turn-flush_guest λ _. Leaves-pure _ λ w p. p

  Turn-swallow_options : (n : Negotiated) → Turn HostServed Delivered (swallow_options env n)
  unfolding swallow_options guest_to_nowhere zoom
  Turn-swallow_options n =
      Leaves-bind (Turn-relay_args env.texts set_options (Leaves-always λ w p. (p, tt, tt))) λ _.
        Leaves-bind (Turn-to_guest _) λ _. Leaves-bind Turn-flush_guest λ _. Leaves-pure _ λ w p. p

  -- A fill does not touch the session's connections.
  fill_path-HostServed :
      (path : Bytes) → Leaves HostServed HostServed HostServed HostServed (fill_path env path)
  unfolding fill_path
  fill_path-HostServed path = Leaves-always λ w p. (p, p, p)

  Turn-fill_and_recheck : (path : Bytes) → Turn HostServed HostServed (fill_and_recheck env path)
  unfolding fill_and_recheck
  Turn-fill_and_recheck path =
      Leaves-bind
        (Leaves-rescue (Leaves-bind (fill_path-HostServed path) λ _. Leaves-pure _ λ w p. p)
          λ e. Leaves-bind (Turn-warn_on_demand_fill _ _) λ _. Leaves-pure _ λ w p. p)
        λ filled.
          Leaves-if filled
            (Leaves-bind (Turn-recheck_is_valid_path path) λ r. Turn-answer_recheck path r)
            (Turn-to_guest _)

  Turn-answer_is_valid_path :
      (path : Bytes) (t : Terminal) → Turn HostServed HostServed (answer_is_valid_path env path t)
  unfolding answer_is_valid_path
  Turn-answer_is_valid_path path Terminal.error = Leaves-pure _ λ w p. p
  Turn-answer_is_valid_path path Terminal.last =
      Leaves-bind (Leaves-with_context _ (Turn-from_host _)) λ v.
        Leaves-if (not (v == 0)) (Turn-to_guest (write_is_valid_path_result true)) (
          Leaves-if (not (fillable env.nix_run_roots path))
            (Turn-to_guest (write_is_valid_path_result false)) (Turn-fill_and_recheck path))

  Turn-serve_is_valid_path : Turn HostServed Delivered (serve_is_valid_path env)
  unfolding serve_is_valid_path intercept_is_valid_path
  Turn-serve_is_valid_path = Leaves-bind (Turn-to_host _ (Ends-write_u64 _)) λ _.
      Leaves-bind
        (Leaves-bind (Turn-relay_is_valid_path_args env.texts) λ path.
          Leaves-bind Turn-flush_host λ _.
            Leaves-bind (Leaves-with_context _ (Turn-host_to_guest _))
              λ t. Turn-answer_is_valid_path path t)
        λ _. Leaves-bind Turn-flush_guest λ _. Leaves-pure _ λ w p. p

  Turn-serve_op : (n : Negotiated) (op : Op) → Turn HostServed Delivered (serve_op env n op)
  unfolding serve_op
  Turn-serve_op n set_options = Turn-swallow_options n
  Turn-serve_op n is_valid_path = Turn-serve_is_valid_path
  Turn-serve_op n op = Turn-relay_op n op

  Turn-serve_word :
      (n : Negotiated) (word : ℕ) (o : Option Op)
      → Turn Delivered Delivered (serve_word env n word o)
  unfolding serve_word
  Turn-serve_word n word none = record { at = λ w p. (Turn-reject word).at w p.1 }
  Turn-serve_word n word (some op) = record { at = λ w p. (Turn-serve_op n op).at w p.1 }

  Turn-op_round : (n : Negotiated) → Turn Delivered Delivered (op_round env n)
  unfolding op_round
  Turn-op_round n = Leaves-bind (Turn-from_guest _) λ o. go o
    where
      go :
          (o : Option ℕ)
          → Turn Delivered Delivered
              (elim o [ none ↦ pure hung_up | some word ↦ serve_word env n word (allowed word) ])
      go none = Leaves-pure _ λ w p. p
      go (some word) = Turn-serve_word n word (allowed word)

  Turn-op_loop : (n : Negotiated) (fuel : ℕ) → Turn Delivered Delivered (op_loop env n fuel)
  unfolding op_loop no_fuel
  Turn-op_loop n zero = record { at = λ w p. tt }
  Turn-op_loop n (suc fuel) =
      let rest = Turn-op_loop n fuel in Leaves-bind (Turn-op_round n) λ next. go rest next
    where
      go :
          Turn Delivered Delivered (op_loop env n fuel)
          → (next : Next)
          → Turn Delivered Delivered
              (elim next [ hung_up ↦ pure tt | another ↦ op_loop env n fuel ])
      go rest hung_up = Leaves-pure _ λ w p. p
      go rest another = rest

  Turn-dial : Turn HostServed HostServed (dial env)
  unfolding dial
  Turn-dial = go env.connect
    where
      go : (c : Answer Stream) → Turn HostServed HostServed (dial (record env { connect = c }))
      go (given s) = record { at = λ w p. refl }
      go (failed e) = record { at = λ w p. tt }
      go silent = record { at = λ w p. p }

  Turn-establish : Turn HostServed Delivered (establish env)
  unfolding establish
  Turn-establish =
      Leaves-bind (Leaves-with_context _ (Leaves-within _ (λ w l. tt) (Turn-greeting_guest _))) λ _.
        Leaves-bind (Leaves-with_context _ Turn-dial) λ _.
          Leaves-bind (Leaves-with_context _ (Turn-with_host _ upstream-Served)) λ n.
            Leaves-bind (Leaves-with_context _ (Leaves-within _ (λ w l. tt) (Turn-with_guest _)))
              λ _. Leaves-bind (Leaves-with_context _ (Turn-within _ _)) λ _.
                Leaves-bind Turn-flush_host λ _.
                  Leaves-bind (Turn-host_to_guest _)
                    λ _. Leaves-bind Turn-flush_guest λ _. Leaves-pure _ λ w p. p

-- From a state in which nothing waits in a buffer, after a round of the op loop that succeeds nothing
-- does, neither for the guest nor for the host daemon, so that the guest has every answer before the
-- next op is read. If the round waits for ever, everything is delivered to the host daemon. Nothing is
-- said of a round that fails.
pub op_round-Delivered :
    (env : Env) (n : Negotiated) (w : World)
    → Delivered w
    → Left Delivered Anyhow HostServed (op_round env n w).0 (op_round env n w).1
op_round-Delivered env n w p = (Turn-op_round env n).at w p

-- Where nothing waits for the host daemon at its start, a session that succeeds has delivered all
-- that it has written, to the guest and to the host daemon; one that waits for ever has delivered
-- everything to the host daemon.
pub run-Delivered :
    (env : Env) (w : World)
    → HostServed w
    → Left Delivered Anyhow HostServed (run env w).0 (run env w).1
unfolding run
run-Delivered env w p =
    (Leaves-bind (Turn-establish env)
        λ n. record { at = λ v q. (Turn-op_loop env n (suc (length v.guest_in.bytes))).at v q }).at
      w p
