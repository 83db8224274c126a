-- ===== src/Broker/Files.antt =====
-- operator_fs.py: bounded reads of files below trusted directories.
pub mod Trust
pub mod Frame
pub mod Balance
pub mod Bounds
pub mod Quiet
use alertmind.Prelude.{
  ℕ, zero, suc, ◌+◌, ◌-◌, ◌*◌, ◌/◌, ◌%◌, min, Bool, true, false, not, ◌&&◌, ◌||◌, String, List, [],
  ◌∷◌, ◌++◌, Option, none, some, all, any, length, take, leb, ltb, nat_eq, is_empty, if◌then◌else◌,
}
use alertmind.Text.{Text, text, text_eq, is_one_of}
use alertmind.Platform.{Bytes}
use alertmind.Result.{Result, ok, err, require}
use alertmind.Broker.Core.{FileCheck}
use alertmind.Broker.Manifest.{path_parts}
use alertmind.Broker.Os.{
  Os, Stat, Failure, operator, os_error, Ran, value, threw, Io, ◌>>=◌, ◌>>◌, pure, raise, demand,
  lift, do_fstat, do_stat, do_read, with_root, with_open,
}
use alertmind.Broker.Files.Trust.{
  chunk_size, Host, Owner, check_platform, identity, check_components, check_bound, owners,
  os_error_code, same_stamp, check_trusted,
}

-- A component that was opened: its parent, its name, its descriptor and its first stat.
pub record Record : Type 0 where
  pub parent : ℕ
  pub name : Text
  pub fd : ℕ
  pub before : Stat

-- Behind a read: the end at an empty chunk, and the rounds that are left otherwise.
abbrev pub after_chunk : (Bytes → Io Bytes) → Bytes → Bytes → Io Bytes
after_chunk next raw [] = pure raw
after_chunk next raw (c ∷ more) = next (raw ++ c ∷ more)

module _ (os : Os) where
  -- `while len(data) <= limit`: the bytes after at most this many rounds.
  unfoldable pub read_loop : ℕ → ℕ → ℕ → Bytes → Io Bytes
  read_loop fd limit zero raw = pure raw
  read_loop fd limit (suc rounds) raw =
      if leb (length raw) limit
      then do_read os fd (min chunk_size (limit + 1 - length raw))
        >>= after_chunk (λ more. read_loop fd limit rounds more) raw
      else pure raw

  -- A round adds a byte or is the last one, so `limit + 1` rounds are enough.
  unfoldable pub read_all : ℕ → ℕ → Io Bytes
  read_all fd limit = read_loop fd limit (suc limit) []

  -- The descriptor and the name of each component are what they were, the last one first.
  unfoldable pub recheck : List Record → Io (Unit {0})
  recheck [] = pure tt
  recheck (r ∷ records) = do
    now ← do_fstat os r.fd
    demand (same_stamp r.before now) "FS_CHANGED"
    named ← do_stat os r.parent r.name
    demand (same_stamp now named) "FS_CHANGED"
    recheck records

  module _ (limit : ℕ) (owners_for : List Text → Io (List Owner)) (root : ℕ)
      (root_before : Stat) where
    -- Behind the loop over the components.
    unfoldable pub read_file : ℕ → Stat → List Record → Io Bytes
    read_file fd before records = do
      raw ← read_all fd limit
      demand (leb (length raw) limit && nat_eq (length raw) before.size) "FS_SIZE"
      recheck records
      root_now ← do_fstat os root
      demand (same_stamp root_before root_now) "FS_CHANGED"
      pure raw

    -- One round of the loop over the components, and what comes behind it.
    unfoldable pub open_part : ℕ → List Text → Text → Bool → (ℕ → Stat → Io Bytes) → Io Bytes
    open_part parent above name directory next = do
      allowed ← owners_for (above ++ name ∷ [])
      before ← do_stat os parent name
      check_trusted before directory allowed
      demand (directory || leb before.size limit) "FS_SIZE"
      with_open os parent name directory (λ fd. do
        opened ← do_fstat os fd
        check_trusted opened directory allowed
        demand (same_stamp before opened) "FS_CHANGED"
        next fd before)

    abbrev pub kept : ℕ → Text → ℕ → Stat → Record
    kept parent name fd before = record { parent = parent; name = name; fd = fd; before = before }

    -- The loop: the last component is the file, and those above it are directories.
    unfoldable pub walk_parts : ℕ → List Text → List Text → List Record → Io Bytes
    walk_parts parent above [] records = raise (operator "FS_COMPONENTS")
    walk_parts parent above (name ∷ []) records =
        open_part parent above name false
          (λ fd before. read_file fd before (kept parent name fd before ∷ records))
    walk_parts parent above (name ∷ child ∷ below) records =
        open_part parent above name true (λ fd before.
          walk_parts fd (above ++ name ∷ []) (child ∷ below) (kept parent name fd before ∷ records))

  -- `_read_at`
  unfoldable pub read_at : ℕ → List Text → ℕ → (List Text → Io (List Owner)) → Io Bytes
  read_at root parts limit owners_for = do
    lift (check_components false parts)
    lift (check_bound limit)
    root_before ← do_fstat os root
    allowed ← owners_for []
    check_trusted root_before true allowed
    walk_parts limit owners_for root root_before root [] parts []

  -- `_read_root`
  unfoldable pub read_root : List Text → ℕ → (List Text → Io (List Owner)) → Io Bytes
  read_root parts limit owners_for = do
    lift (check_components false parts)
    lift (check_bound limit)
    with_root os (λ root. read_at root parts limit owners_for)

  -- `_read_root_owned`
  unfoldable pub read_root_owned : List Text → ℕ → Io Bytes
  read_root_owned parts limit = read_root parts limit (λ _. pure ((0, 0) ∷ []))

  -- `_read_native`
  unfoldable pub read_native : List Text → ℕ → Owner → Io Bytes
  read_native parts limit service = read_root parts limit (owners service)

abbrev recoded {ℓ} : {A : Type ℓ} → Ran A → Ran A
recoded (threw (os_error errno)) = threw (operator (os_error_code errno))
recoded r = r

-- `except OSError as error: raise OperatorError(_os_error_code(error))`
unfoldable pub with_codes {ℓ} : {A : Type ℓ} → Io A → Io A
with_codes m = λ log. let (r, log') = m log in (recoded r, log')

-- The limits of `InstalledReader`, by path: the last check of a path counts.
unfoldable pub limit_of : List FileCheck → Text → Option ℕ
limit_of [] path = none
limit_of (check ∷ checks) path =
    let later = limit_of checks path in
    elim later [
      | some n ↦ some n
      | none ↦ if text_eq check.path path then some check.limit else none
    ]

abbrev is_limit : Option ℕ → ℕ → Bool
is_limit none n = false
is_limit (some m) n = nat_eq n m

-- `InstalledReader(manifest)`: the components of every path are checked before any call.
unfoldable pub check_paths : List FileCheck → Result (Unit {0})
check_paths [] = ok tt
check_paths (check ∷ checks) = elim (check_components false (path_parts check.path)) [
  | err code ↦ err code
  | ok _ ↦ check_paths checks
]

-- `InstalledReader.__call__`
unfoldable pub read_installed : Os → Host → List FileCheck → Text → ℕ → Io Bytes
read_installed os host checks path limit = do
  demand (is_limit (limit_of checks path) limit) "FS_TARGET"
  with_codes (
      check_platform host
      >> (identity host >>= λ service. read_native os (path_parts path) limit service))
