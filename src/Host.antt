-- ===== src/Host.antt =====
-- What the programs under src/bin use of the operating system: files by their paths, symbolic
-- links, mounts and the environment. Any system call may fail.
pub mod Log
pub mod Changes
pub mod Successes
use claudepod.Prelude.{
  ℕ, ◌+◌, ◌==◌, Option, none, some, Bool, true, false, not, List, [], ◌∷◌, ◌++◌, Bytes, ascii,
  bytes_eq, length, take, if◌then◌else◌,
}
use claudepod.Outcome.{
  Error, library, message, IoError, not_found, already_exists, invalid_data, other, io, Outcome, ok,
  err, M, pure, fail,
}
use claudepod.Utf8.{is_utf8}

-- The contents that a path leads to, or the target of a link that stands at the path.
abbrev pub Contents : Type 0
Contents = Bytes → Option Bytes

abbrev pub put_at : Bytes → Option Bytes → Contents → Contents
put_at path value old p = if bytes_eq path p then value else old p

pub record Mount : Type 0 where
  pub source : Bytes
  pub target : Bytes
  pub fs_type : Bytes
  pub options : Bytes

-- `past` are the contents before each change, the newest first; `calls` counts the system calls.
pub record Host : Type 0 where
  pub files : Contents
  pub links : Contents
  pub mounts : List Mount
  pub past : List Contents
  pub calls : ℕ

-- How a call fails, apart from what the files say. A write that fails has left the file as it was, or
-- with a first part of the bytes.
pub record Fault : Type 0 where
  pub error : ℕ
  pub written : Option ℕ

-- Which calls fail, by their number.
abbrev pub Faults : Type 0
Faults = ℕ → Option Fault

abbrev pub tick : Host → Host
tick h = record h { calls = h.calls + 1 }

abbrev pub change : Contents → Host → Host
change files h = record h { files = files; past = h.files ∷ h.past }

abbrev pub io_error {ℓ} : {A : Type ℓ} → IoError → Outcome A
io_error e = err (library (io e))

-- `std::env::var_os`
abbrev pub Vars : Type 0
Vars = Bytes → Option Bytes

-- `.filter(|value| !value.is_empty())`
abbrev pub not_empty : Option Bytes → Option Bytes
not_empty none = none
not_empty (some value) = if length value == 0 then none else some value

-- `option.with_context(…)`
abbrev pub required {ℓ} : {A : Type ℓ} → Bytes → Option A → Outcome A
required text none = err (message text)
required text (some a) = ok a

abbrev pub is_there : Bytes → Host → Bool
is_there path h = elim (h.files path) [
  | some c ↦ true
  | none ↦ elim (h.links path) [ some t ↦ true | none ↦ false ]
]

abbrev pub erase : Bytes → Host → Host
erase path h = record (change (put_at path none h.files) h) { links = put_at path none h.links }

abbrev pub moved : Bytes → Bytes → Bytes → Host → Host
moved old new contents h =
    record (change (put_at new (some contents) (put_at old none h.files)) h) {
      links = put_at new none h.links;
    }

-- `?` on a result that is there already.
unfoldable pub settled : {A : Type 0} → Outcome A → M Host A
settled r h = (r, h)

abbrev pub answer :
    {A : Type 0} → (Host → Outcome A × Host) → Host → Option Fault → Outcome A × Host
answer effect h none = effect h
answer effect h (some f) = (io_error (other f.error), h)

abbrev pub partly : Bytes → Bytes → Option ℕ → Host → Host
partly path contents none h = h
partly path contents (some n) h = change (put_at path (some (take n contents)) h.files) h

abbrev pub write_answer : Bytes → Bytes → Host → Option Fault → Outcome (Unit {0}) × Host
write_answer path contents h none = (ok tt, change (put_at path (some contents) h.files) h)
write_answer path contents h (some f) = (io_error (other f.error), partly path contents f.written h)

-- What an operation makes of a path with no file, or with some contents.
abbrev pub with_contents :
    {A : Type 0} → (Bytes → Outcome A × Host) → Outcome A × Host → Option Bytes → Outcome A × Host
with_contents found missing none = missing
with_contents found missing (some c) = found c

module _ (faults : Faults) where
  -- A call that comes to what is given unless it fails.
  unfoldable pub call : {A : Type 0} → (Host → Outcome A × Host) → M Host A
  call effect h = answer effect (tick h) (faults h.calls)

  -- `std::fs::write`, or `write_all` on a file that was created at the path.
  unfoldable pub write_file : Bytes → Bytes → M Host (Unit {0})
  write_file path contents h = write_answer path contents (tick h) (faults h.calls)

  -- `std::fs::create_dir_all`, `sync_all`: no file has other contents after it.
  abbrev pub create_dir_all : Bytes → M Host (Unit {0})
  create_dir_all path = call (λ h. (ok tt, h))

  abbrev pub sync_all : Bytes → M Host (Unit {0})
  sync_all path = call (λ h. (ok tt, h))

  abbrev pub mount : Mount → M Host (Unit {0})
  mount m = call (λ h. (ok tt, record h { mounts = h.mounts ++ (m ∷ []) }))

  -- `std::fs::remove_file`
  unfoldable pub remove_file : Bytes → M Host (Unit {0})
  remove_file path =
      call λ h. if is_there path h then (ok tt, erase path h) else (io_error not_found, h)

  -- `symlink(target, link)`
  unfoldable pub symlink : Bytes → Bytes → M Host (Unit {0})
  symlink target link = call λ h.
      if is_there link h
      then (io_error already_exists, h)
      else (ok tt, record h { links = put_at link (some target) h.links })

  -- `OpenOptions::new().write(true).create_new(true).open(path)`
  unfoldable pub create_new : Bytes → M Host (Unit {0})
  create_new path = call λ h.
      if is_there path h
      then (io_error already_exists, h)
      else (ok tt, change (put_at path (some []) h.files) h)

  -- `std::fs::rename` of a file
  unfoldable pub rename : Bytes → Bytes → M Host (Unit {0})
  rename old new =
      call
        λ h. with_contents (λ c. (ok tt, moved old new c h)) (io_error not_found, h) (h.files old)

  -- `std::fs::read`
  unfoldable pub read_file : Bytes → M Host Bytes
  read_file path = call λ h. with_contents (λ c. (ok c, h)) (io_error not_found, h) (h.files path)

  -- `std::fs::read_to_string`
  unfoldable pub read_to_string : Bytes → M Host Bytes
  read_to_string path = call λ h.
      with_contents (λ c. (if is_utf8 c then ok c else io_error invalid_data, h))
        (io_error not_found, h) (h.files path)

  -- `path.try_exists()`
  unfoldable pub try_exists : Bytes → M Host Bool
  try_exists path = call λ h. with_contents (λ c. (ok true, h)) (ok false, h) (h.files path)

-- The definitions of this file, by one name for `unfolding` lines that run them.
unfoldable pub host_code : Unit {0}
unfolding settled call write_file remove_file symlink create_new rename read_file read_to_string
    try_exists
host_code = tt
