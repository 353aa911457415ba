-- ===== src/Outcome.antt =====
-- What an asynchronous operation comes to: `anyhow::Result` over an explicit state, with the two
-- ways in which a future yields nothing. Used by every module of src/proxy.

pub mod Laws
pub mod Trace
pub mod Ending
pub mod Stages
use claudepod.Prelude.{ℕ, Bytes, ascii, decimal, Bool, true, false, ◌++◌}

-- `ParseIntError`
pub data IntError : Type 0 where
  empty invalid_digit pos_overflow : IntError

-- `std::io::Error`: the two kinds that the program looks at, a file that is no text,
-- and the others by their number.
pub data IoError : Type 0 where
  not_found already_exists invalid_data : IoError
  other : ℕ → IoError

-- Errors of the libraries below: a read that meets the end of the stream, bytes that are not UTF-8,
-- a text that is no number, a failing system call, and a variable that is not set.
pub data LibraryError : Type 0 where
  early_eof : LibraryError
  invalid_utf8 : Bytes → LibraryError
  parse_int : IntError → LibraryError
  io : IoError → LibraryError
  not_present : LibraryError

-- `anyhow::Error`: a library's error, a message of `bail!` or `ensure!`, and an error inside the
-- context that `.context(…)` puts round it.
pub data Error : Type 0 where
  library : LibraryError → Error
  message : Bytes → Error
  context : Bytes → Error → Error

-- `{err:#}`: the chain of contexts, outermost first. The libraries' texts are a parameter.
unfoldable pub render : (LibraryError → Bytes) → Error → Bytes
render texts (library e) = texts e
render texts (message text) = text
render texts (context text e) = text ++ ascii ": " ++ render texts e

-- `pending`: the future waits for a peer that neither sends nor hangs up.
-- `out_of_fuel` is no behaviour of the program: a loop of the model got too little fuel.
pub data Outcome {ℓ} (A : Type ℓ) : Type ℓ where
  ok : A → Outcome A
  err : Error → Outcome A
  pending : Outcome A
  out_of_fuel : Outcome A

-- `?` in a function with no state.
abbrev pub chain {ℓ κ} : {A : Type ℓ} {B : Type κ} → Outcome A → (A → Outcome B) → Outcome B
chain (ok a) f = f a
chain (err e) f = err e
chain pending f = pending
chain out_of_fuel f = out_of_fuel

-- `.with_context(…)` in a function with no state.
abbrev pub add_context {ℓ} : {A : Type ℓ} → Bytes → Outcome A → Outcome A
add_context text (err e) = err (context text e)
add_context text (ok a) = ok a
add_context text pending = pending
add_context text out_of_fuel = out_of_fuel

-- What was read or written before an error stays so: the state comes back beside every outcome.
abbrev pub M {ℓ} : Type ℓ → Type ℓ → Type ℓ
M S A = S → Outcome A × S

module _ {ℓ} {S A : Type ℓ} where
  unfoldable pub pure : A → M S A
  pure a s = (ok a, s)

  unfoldable pub fail : Error → M S A
  fail e s = (err e, s)

  unfoldable pub no_fuel : M S A
  no_fuel s = (out_of_fuel, s)

module _ {ℓ} {S A B : Type ℓ} where
  abbrev pub continue : Outcome A → (A → M S B) → M S B
  continue (ok a) f s = f a s
  continue (err e) f s = (err e, s)
  continue pending f s = (pending, s)
  continue out_of_fuel f s = (out_of_fuel, s)

  infixl 5 ◌>>=◌ ◌>>◌
  unfoldable pub ◌>>=◌ : M S A → (A → M S B) → M S B
  unfolding pure fail no_fuel
  ◌>>=◌ m f s = let (r, s') = m s in continue r f s'

  abbrev pub ◌>>◌ : M S A → M S B → M S B
  m >> k = m >>= λ _. k

module _ {ℓ} {S : Type ℓ} where
  -- `ensure!(cond, text)`
  unfoldable pub ensure : Bool → Bytes → M S (Unit {ℓ})
  unfolding pure fail
  ensure true text = pure tt
  ensure false text = fail (message text)

module _ {ℓ} {A : Type ℓ} where
  abbrev pub time_out : ℕ → Outcome A → Outcome A
  time_out secs pending = err (message (ascii "timed out after " ++ decimal secs ++ ascii "s"))
  time_out secs (ok a) = ok a
  time_out secs (err e) = err e
  time_out secs out_of_fuel = out_of_fuel

module _ {ℓ} {S A : Type ℓ} where
  -- `.context(text)`
  unfoldable pub with_context : Bytes → M S A → M S A
  with_context text m s = let (r, s') = m s in (add_context text r, s')

  -- `within` of session.rs: a future that is still pending at the limit is dropped with an error.
  unfoldable pub within : ℕ → M S A → M S A
  within secs m s = let (r, s') = m s in (time_out secs r, s')

module _ {ℓ} {S T A : Type ℓ} where
  -- An operation on a part of the state.
  unfoldable pub zoom : (S → T) → (T → S → S) → M T A → M S A
  zoom get put m s = let (r, t) = m (get s) in (r, put t s)

module _ {ℓ} {S A : Type ℓ} where
  abbrev pub handle : (Error → M S A) → Outcome A → M S A
  handle h (err e) s = h e s
  handle h (ok a) s = (ok a, s)
  handle h pending s = (pending, s)
  handle h out_of_fuel s = (out_of_fuel, s)

  -- `match m { Ok(a) => Ok(a), Err(e) => h(e) }`
  unfoldable pub rescue : M S A → (Error → M S A) → M S A
  rescue m h s = let (r, s') = m s in handle h r s'
