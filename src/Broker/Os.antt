-- ===== src/Broker/Os.antt =====
-- The calls that the read-only adapters of the broker operator make of the operating system. The
-- system may answer a call differently each time: its answers depend on all the calls before it,
-- which a run keeps in a log, the last one first.
pub mod Balance
pub mod After
use alertmind.Prelude.{ℕ, Bool, true, false, String, List, [], ◌∷◌}
use alertmind.Text.{Text}
use alertmind.Platform.{Bytes}
use alertmind.Result.{Result, ok, err}

-- The fields of `os.stat_result` that the code reads.
pub record Stat : Type 0 where
  pub dev : ℕ
  pub ino : ℕ
  pub mode : ℕ
  pub uid : ℕ
  pub gid : ℕ
  pub nlink : ℕ
  pub size : ℕ
  pub mtime : ℕ
  pub ctime : ℕ

-- A call, with the descriptor that it works on. `opened` is an `os.open` that returned the last of
-- its numbers, relative to the descriptor before and without following a link, `followed` one that
-- follows it.
pub data Call : Type 0 where
  opened_root : ℕ → Call
  opened : ℕ → Text → Bool → ℕ → Call
  followed : ℕ → Text → ℕ → Call
  refused : ℕ → Text → Call
  fstat : ℕ → Call
  stat_at : ℕ → Text → Call
  stat_followed : ℕ → Text → Call
  read : ℕ → ℕ → Call
  readlink : ℕ → Text → Call
  close : ℕ → Call
  -- a child process with a pipe to its output, and what is done with it
  spawned : Text → ℕ → Call
  unspawned : Text → Call
  selected waited polled killed : ℕ → Call

-- `OperatorError(code)`, an `OSError` with its number, or `subprocess.TimeoutExpired`.
pub data Failure : Type 0 where
  operator : String → Failure
  os_error : ℕ → Failure
  expired : Failure

pub data Ran {ℓ} (A : Type ℓ) : Type ℓ where
  value : A → Ran A
  threw : Failure → Ran A

-- The system.
pub record Os : Type 0 where
  pub open_root : List Call → Ran ℕ
  pub open_at : List Call → ℕ → Text → Bool → Ran ℕ
  pub open_followed : List Call → ℕ → Text → Ran ℕ
  pub stat : List Call → Call → Ran Stat
  pub read_from : List Call → ℕ → ℕ → Ran Bytes
  pub read_link : List Call → ℕ → Text → Ran Text
  -- the child that prints a group of properties: its start, whether its pipe is ready before the
  -- deadline, its exit status, whether it is still running, and the signal to it
  pub spawn : List Call → Text → Ran ℕ
  pub select : List Call → ℕ → Ran Bool
  pub wait : List Call → ℕ → Ran ℕ
  pub poll : List Call → ℕ → Ran Bool
  pub kill : List Call → ℕ → Ran (Unit {0})

abbrev pub Io {ℓ} : Type ℓ → Type ℓ
Io A = List Call → Ran A × List Call

abbrev pub continue {ℓ κ} :
    {A : Type ℓ} {B : Type κ} → (A → Io B) → Ran A × List Call → Ran B × List Call
continue next (value a, log) = next a log
continue next (threw e, log) = (threw e, log)

infixl 5 ◌>>=◌ ◌>>◌
abbrev pub ◌>>=◌ {ℓ κ} : {A : Type ℓ} {B : Type κ} → Io A → (A → Io B) → Io B
m >>= next = λ log. continue next (m log)

abbrev pub ◌>>◌ {ℓ} : {B : Type ℓ} → Io (Unit {0}) → Io B → Io B
m >> rest = m >>= λ _. rest

abbrev pub pure {ℓ} : {A : Type ℓ} → A → Io A
pure a = λ log. (value a, log)

abbrev pub raise {ℓ} : {A : Type ℓ} → Failure → Io A
raise e = λ log. (threw e, log)

-- `require(condition, code)`
unfoldable pub demand : Bool → String → Io (Unit {0})
demand true code = pure tt
demand false code = raise (operator code)

-- A computation without calls.
unfoldable pub lift {ℓ} : {A : Type ℓ} → Result A → Io A
lift (ok a) = pure a
lift (err code) = raise (operator code)

module _ (os : Os) where
  unfoldable pub do_fstat : ℕ → Io Stat
  do_fstat fd = λ log. (os.stat log (fstat fd), fstat fd ∷ log)

  unfoldable pub do_stat : ℕ → Text → Io Stat
  do_stat fd name = λ log. (os.stat log (stat_at fd name), stat_at fd name ∷ log)

  unfoldable pub do_stat_followed : ℕ → Text → Io Stat
  do_stat_followed fd name =
      λ log. (os.stat log (stat_followed fd name), stat_followed fd name ∷ log)

  unfoldable pub do_read : ℕ → ℕ → Io Bytes
  do_read fd n = λ log. (os.read_from log fd n, read fd n ∷ log)

  unfoldable pub do_readlink : ℕ → Text → Io Text
  do_readlink fd name = λ log. (os.read_link log fd name, readlink fd name ∷ log)

  unfoldable pub do_select : ℕ → Io Bool
  do_select fd = λ log. (os.select log fd, selected fd ∷ log)

  unfoldable pub do_wait : ℕ → Io ℕ
  do_wait fd = λ log. (os.wait log fd, waited fd ∷ log)

  unfoldable pub do_poll : ℕ → Io Bool
  do_poll fd = λ log. (os.poll log fd, polled fd ∷ log)

  unfoldable pub do_kill : ℕ → Io (Unit {0})
  do_kill fd = λ log. (os.kill log fd, killed fd ∷ log)

-- `try: ... finally: os.close(fd)`, and the end of an `ExitStack` that closes it.
unfoldable pub closing {ℓ} : {A : Type ℓ} → ℕ → Io A → Io A
closing fd m = λ log. let (r, log') = m log in (r, close fd ∷ log')

-- An open that, where it returns a descriptor, is followed by a block at whose end it is closed.
abbrev pub with_opened {ℓ} : {A : Type ℓ} → (ℕ → Call) → Call → Ran ℕ → (ℕ → Io A) → Io A
with_opened event failed (value fd) block = λ log. closing fd (block fd) (event fd ∷ log)
with_opened event failed (threw e) block = λ log. (threw e, failed ∷ log)

module _ {ℓ} {A : Type ℓ} (os : Os) where
  unfoldable pub with_root : (ℕ → Io A) → Io A
  with_root block = λ log. with_opened opened_root (refused 0 []) (os.open_root log) block log

  unfoldable pub with_open : ℕ → Text → Bool → (ℕ → Io A) → Io A
  with_open parent name directory block = λ log.
      with_opened (opened parent name directory) (refused parent name)
        (os.open_at log parent name directory) block log

  unfoldable pub with_followed : ℕ → Text → (ℕ → Io A) → Io A
  with_followed parent name block = λ log.
      with_opened (followed parent name) (refused parent name) (os.open_followed log parent name)
        block log

  unfoldable pub with_child : Text → (ℕ → Io A) → Io A
  with_child group block =
      λ log. with_opened (spawned group) (unspawned group) (os.spawn log group) block log
