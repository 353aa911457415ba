-- ===== src/Proxy/Session/Turns.antt =====
-- What the smaller steps of a session of session.rs leave undelivered.
use claudepod.Prelude.{ℕ, Bytes}
use claudepod.Outcome.{M, LibraryError, Error}
use claudepod.Outcome.Stages.{
  Anyhow, Leaves, Leaves-with_context, Leaves-bind, Leaves-rescue, Leaves-pure, Leaves-fail,
  Leaves-within,
}
use claudepod.Wire.Ending.{Ends-write_u64, Ends-write_string}
use claudepod.Proxy.Handshake.{Negotiated}
use claudepod.Proxy.Ops.{Op}
use claudepod.Proxy.Stderr.{Terminal, Drained}
use claudepod.Proxy.Stderr.Ending.{Ends-write_error}
use claudepod.Proxy.Session.{World}
use claudepod.Proxy.Session.Rounds.{
  refuse_args, relay_args, relay_is_valid_path_args, Recheck, valid, invalid, daemon_error,
  recheck_result, recheck_is_valid_path, warn_on_demand_fill, answer_recheck, reject, copy_reply,
}
use claudepod.Proxy.Session.Delivery.{
  HostServed, Delivered, Turn, Turn-from_host, Turn-to_guest, Turn-host_to_guest, Turn-within,
  Turn-to_host, Turn-tells_guest, Turn-flush_host,
}

-- An error message goes to the guest, and ends the session.
pub Turn-refuse_args :
    {A : Type 0} {P : World → Type 0} (texts : LibraryError → Bytes) (what : Bytes) (e : Error)
    → Turn Anyhow P (refuse_args {A = A} texts what e)
unfolding refuse_args
Turn-refuse_args texts what e =
    Leaves-bind (Turn-tells_guest _ (Ends-write_error _)) λ _. Leaves-fail _ λ w p. tt

pub Turn-relay_args :
    {P Q : World → Type 0} (texts : LibraryError → Bytes) (op : Op) {m : M World (Unit {0})}
    → Leaves P Q Anyhow Anyhow m
    → Turn P Q (relay_args texts op m)
unfolding relay_args
Turn-relay_args texts op h =
    Leaves-rescue (Leaves-within _ (λ w l. tt) h) λ e. Turn-refuse_args texts _ e

pub Turn-relay_is_valid_path_args :
    {P : World → Type 0} (texts : LibraryError → Bytes)
    → Turn P Anyhow (relay_is_valid_path_args texts)
unfolding relay_is_valid_path_args
Turn-relay_is_valid_path_args texts =
    Leaves-rescue (Turn-within _ _) λ e. Turn-refuse_args texts _ e

pub Turn-recheck_result : (d : Drained) → Turn HostServed HostServed (recheck_result d)
unfolding recheck_result
Turn-recheck_result Drained.last =
    Leaves-bind (Leaves-with_context _ (Turn-from_host _)) λ word. Leaves-pure _ λ w p. p
Turn-recheck_result (Drained.error text) = Leaves-pure _ λ w p. p

pub Turn-recheck_is_valid_path :
    {P : World → Type 0} (path : Bytes) → Turn P HostServed (recheck_is_valid_path path)
unfolding recheck_is_valid_path
Turn-recheck_is_valid_path path = Leaves-bind (Turn-to_host _ (Ends-write_u64 _)) λ _.
    Leaves-bind (Turn-to_host _ (Ends-write_string _)) λ _.
      Leaves-bind Turn-flush_host
        λ _. Leaves-bind (Leaves-with_context _ (Turn-from_host _)) λ d. Turn-recheck_result d

pub Turn-warn_on_demand_fill :
    (path reason : Bytes) → Turn HostServed HostServed (warn_on_demand_fill path reason)
unfolding warn_on_demand_fill
Turn-warn_on_demand_fill path reason = record { at = λ w p. p }

pub Turn-answer_recheck :
    (path : Bytes) (r : Recheck) → Turn HostServed HostServed (answer_recheck path r)
unfolding answer_recheck
Turn-answer_recheck path valid = Turn-to_guest _
Turn-answer_recheck path invalid = Leaves-bind (Turn-warn_on_demand_fill _ _) λ _. Turn-to_guest _
Turn-answer_recheck path (daemon_error text) =
    Leaves-bind (Turn-warn_on_demand_fill _ _) λ _. Turn-to_guest _

pub Turn-copy_reply :
    (op : Op) (n : Negotiated) (t : Terminal) → Turn HostServed HostServed (copy_reply op n t)
unfolding copy_reply
Turn-copy_reply op n Terminal.error = Leaves-pure _ λ w p. p
Turn-copy_reply op n Terminal.last = Leaves-with_context _ (Turn-host_to_guest _)

pub Turn-reject : (word : ℕ) → Turn HostServed Delivered (reject word)
unfolding reject
Turn-reject word = Leaves-bind (Turn-to_guest _) λ _. Leaves-fail _ λ w p. tt
