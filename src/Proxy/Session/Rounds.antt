-- ===== src/Proxy/Session/Rounds.antt =====
-- The op loop of session.rs. An op takes eight bytes from the guest at least, so fuel beyond the
-- number of bytes that the guest sends is enough.
use claudepod.Proxy.RunRoots.{run_roots_code}
use claudepod.Proxy.Ops.{ops_code}
use claudepod.Proxy.Session.{establish_code}
use claudepod.Prelude.{
  ℕ, zero, suc, Bool, true, false, not, Option, none, some, [], ◌∷◌, ◌++◌, Bytes, ascii, decimal,
  length, ◌==◌, if◌then◌else◌,
}
use claudepod.Outcome.{
  M, LibraryError, Error, message, context, ok, err, pending, pure, fail, no_fuel, rescue, render,
  within, with_context, ◌>>=◌, ◌>>◌,
}
use claudepod.Wire.{
  Sink, read_u64, read_u64_or_eof, read_string, write_u64, write_string, flush, max_guest_string,
}
use claudepod.Wire.Copy.{Duplex, reading, writing}
use claudepod.Utf8.{from_utf8_lossy}
use claudepod.Proxy.Handshake.{Negotiated}
use claudepod.Proxy.Ops.{
  Op, is_valid_path, set_options, op_word, allowed, op_name, name, copy_args, copy_result,
}
use claudepod.Proxy.RunRoots.{NixRunRoots, contains}
use claudepod.Proxy.Stderr.{Terminal, Drained, stderr_last, write_error}
use claudepod.Proxy.Stderr.Loops.{relay, relay_without_last, drain_to_terminal}
use claudepod.Proxy.Session.{
  World, given, failed, silent, Env, args_timeout, from_guest, from_host, to_guest, to_host,
  guest_to_host, host_to_guest, guest_to_nowhere, establish,
}

-- The synthetic error for arguments that did not come through, and the end of the session.
unfoldable pub refuse_args : {A : Type 0} → (LibraryError → Bytes) → Bytes → Error → M World A
refuse_args texts what e =
    let err = context (what ++ ascii " arguments") e in
    to_guest (write_error (render texts err)) >> fail err

unfoldable pub relay_args : (LibraryError → Bytes) → Op → M World (Unit {0}) → M World (Unit {0})
relay_args texts op copy = rescue (within args_timeout copy) (refuse_args texts (name op))

-- The path is remembered besides.
unfoldable pub copy_path : M Duplex Bytes
copy_path = do raw ← reading (read_string max_guest_string); writing (write_string raw); pure raw

unfoldable pub relay_is_valid_path_args : (LibraryError → Bytes) → M World Bytes
relay_is_valid_path_args texts =
    rescue (within args_timeout (guest_to_host copy_path)) (refuse_args texts (ascii "IsValidPath"))

pub data Recheck : Type 0 where
  valid invalid : Recheck
  daemon_error : Bytes → Recheck

unfoldable pub recheck_result : Drained → M World Recheck
recheck_result Drained.last = do
  word ← with_context (ascii "IsValidPath re-check result") (from_host read_u64)
  pure (if word == 0 then invalid else valid)
recheck_result (Drained.error text) = pure (daemon_error text)

unfoldable pub recheck_is_valid_path : Bytes → M World Recheck
recheck_is_valid_path store_path = do
  to_host (write_u64 (op_word is_valid_path))
  to_host (write_string store_path)
  to_host flush
  drained ← with_context (ascii "IsValidPath re-check stderr") (from_host drain_to_terminal)
  recheck_result drained

-- `u64::from(valid)`
unfoldable pub write_is_valid_path_result : Bool → M Sink (Unit {0})
write_is_valid_path_result answer = do write_u64 stderr_last; write_u64 (if answer then 1 else 0)

unfoldable pub warn_on_demand_fill : Bytes → Bytes → M World (Unit {0})
warn_on_demand_fill store_path reason w = (
  ok tt,
  record w {
    warnings =
        w.warnings
        ++ ((ascii "claudepod-nix-proxy: warning: on-demand fill for "
              ++ (from_utf8_lossy store_path ++ (ascii ": " ++ reason)))
            ∷ []);
  },
)

-- `fill(store_path).await`
unfoldable pub fill_path : Env → Bytes → M World (Unit {0})
fill_path env store_path w = (
  elim (env.fill w.fills store_path) [ given u ↦ ok u | failed e ↦ err e | silent ↦ pending ],
  record w { fills = w.fills ++ (store_path ∷ []) },
)

-- `nix_run_roots.is_some_and(|roots| roots.contains(&store_path))`
unfoldable pub fillable : Option NixRunRoots → Bytes → Bool
fillable none store_path = false
fillable (some roots) store_path = contains roots store_path

unfoldable pub answer_recheck : Bytes → Recheck → M World (Unit {0})
answer_recheck store_path valid = to_guest (write_is_valid_path_result true)
answer_recheck store_path invalid = do
  warn_on_demand_fill store_path (ascii "re-check still invalid")
  to_guest (write_is_valid_path_result false)
answer_recheck store_path (daemon_error text) = do
  warn_on_demand_fill store_path (ascii "re-check failed: " ++ text)
  to_guest (write_is_valid_path_result false)

-- A fill, and the host's second answer; a fill that fails is a warning and no error.
unfoldable pub fill_and_recheck : Env → Bytes → M World (Unit {0})
fill_and_recheck env store_path = do
  filled ← rescue (fill_path env store_path >> pure true) (λ e.
      warn_on_demand_fill store_path (ascii "fill failed: " ++ render env.texts e) >> pure false)
  if filled
      then (recheck_is_valid_path store_path >>= answer_recheck store_path)
      else to_guest (write_is_valid_path_result false)

unfoldable pub answer_is_valid_path : Env → Bytes → Terminal → M World (Unit {0})
answer_is_valid_path env store_path Terminal.error = pure tt
answer_is_valid_path env store_path Terminal.last = do
  host_valid ← with_context (ascii "IsValidPath result") (from_host read_u64)
  if not (host_valid == 0)
      then to_guest (write_is_valid_path_result true)
      else if not (fillable env.nix_run_roots store_path)
      then to_guest (write_is_valid_path_result false)
      else fill_and_recheck env store_path

unfoldable pub intercept_is_valid_path : Env → M World (Unit {0})
intercept_is_valid_path env = do
  store_path ← relay_is_valid_path_args env.texts
  to_host flush
  terminal ← with_context (ascii "IsValidPath stderr") (host_to_guest relay_without_last)
  answer_is_valid_path env store_path terminal

-- How a round of the op loop ends well.
pub data Next : Type 0 where
  hung_up another : Next

unfoldable pub reject : ℕ → M World Next
reject word =
    let msg =
      ascii "rejected op "
      ++ (op_name word
          ++ (ascii " (" ++ (decimal word ++ ascii "): not in the read-only allowlist"))) in
    to_guest (write_error msg) >> fail (message msg)

-- An op that the host daemon answers.
unfoldable pub copy_reply : Op → Negotiated → Terminal → M World (Unit {0})
copy_reply op negotiated Terminal.error = pure tt
copy_reply op negotiated Terminal.last =
    with_context (name op ++ ascii " result") (host_to_guest (copy_result op negotiated))

unfoldable pub relay_op : Env → Negotiated → Op → M World Next
relay_op env negotiated op = do
  to_host (write_u64 (op_word op))
  relay_args env.texts op (guest_to_host (copy_args op negotiated))
  to_host flush
  terminal ← with_context (name op ++ ascii " stderr") (host_to_guest relay)
  copy_reply op negotiated terminal
  to_guest flush
  pure another

unfoldable pub swallow_options : Env → Negotiated → M World Next
swallow_options env negotiated = do
  relay_args env.texts set_options (guest_to_nowhere (copy_args set_options negotiated))
  to_guest (write_u64 stderr_last)
  to_guest flush
  pure another

unfoldable pub serve_is_valid_path : Env → M World Next
serve_is_valid_path env = do
  to_host (write_u64 (op_word is_valid_path))
  intercept_is_valid_path env
  to_guest flush
  pure another

unfoldable pub serve_op : Env → Negotiated → Op → M World Next
serve_op env negotiated set_options = swallow_options env negotiated
serve_op env negotiated is_valid_path = serve_is_valid_path env
serve_op env negotiated op = relay_op env negotiated op

unfoldable pub serve_word : Env → Negotiated → ℕ → Option Op → M World Next
serve_word env negotiated word none = reject word
serve_word env negotiated word (some op) = serve_op env negotiated op

unfoldable pub op_round : Env → Negotiated → M World Next
op_round env negotiated = from_guest (read_u64_or_eof env.chunk) >>= λ o. elim o [
  | none ↦ pure hung_up
  | some word ↦ serve_word env negotiated word (allowed word)
]

unfoldable pub op_loop : Env → Negotiated → ℕ → M World (Unit {0})
op_loop env negotiated zero = no_fuel
op_loop env negotiated (suc fuel) = op_round env negotiated >>= λ next. elim next [
  | hung_up ↦ pure tt
  | another ↦ op_loop env negotiated fuel
]

unfoldable pub run : Env → M World (Unit {0})
run env = establish env >>= λ negotiated w. op_loop env negotiated (suc (length w.guest_in.bytes)) w

-- The definitions of this file, by one name for `unfolding` lines that run them.
unfoldable pub session_code : Unit {0}
unfolding establish_code ops_code run_roots_code refuse_args relay_args copy_path
    relay_is_valid_path_args recheck_result recheck_is_valid_path write_is_valid_path_result
    warn_on_demand_fill fill_path fillable answer_recheck fill_and_recheck answer_is_valid_path
    intercept_is_valid_path reject copy_reply relay_op swallow_options serve_is_valid_path serve_op
    serve_word op_round op_loop run
session_code = tt
