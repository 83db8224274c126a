-- ===== src/Broker/Files/Quiet.antt =====
-- What operator_fs.py promises where the file system does not change: a read of a path, said without
-- descriptors, rounds and rechecks, and a system that shows an unchanging file system.
pub mod Held
pub mod Kept
pub mod Whole
pub mod Refines
use alertmind.Prelude.{
  ℕ, zero, suc, ◌+◌, Bool, true, false, ◌&&◌, ◌||◌, String, List, [], ◌∷◌, ◌++◌, Option, none, some,
  all, length, take, leb, ltb, nat_eq, if◌then◌else◌,
}
use alertmind.Text.{Text}
use alertmind.Platform.{Bytes}
use alertmind.Broker.Os.{
  Os, Stat, Call, opened_root, opened, followed, fstat, stat_at, read, operator, os_error, Ran,
  value, threw,
}
use alertmind.Broker.Files.Trust.{Owner, max_read, is_component, is_trusted}

-- A file or a directory, and what is in a file.
pub record Entry : Type 0 where
  pub stat : Stat
  pub content : Bytes

abbrev pub FileSystem : Type 0
FileSystem = List Text → Option Entry

-- `ENOENT`
abbrev pub missing {ℓ} : {A : Type ℓ} → Ran A
missing = threw (os_error 2)

-- The rest under a condition, and the code of the failure otherwise.
abbrev pub under {ℓ} : {A : Type ℓ} → Bool → String → Ran A → Ran A
under true code r = r
under false code r = threw (operator code)

module _ (fs : FileSystem) (limit : ℕ) (owned : List Text → List Owner) where
  -- A file, as long as its entry says and within the limit.
  abbrev pub file_content : List Owner → Option Entry → Ran Bytes
  file_content allowed none = missing
  file_content allowed (some e) = under (is_trusted e.stat false allowed) "FS_METADATA" (
      under (leb e.stat.size limit && nat_eq (length e.content) e.stat.size) "FS_SIZE"
        (value e.content))

  abbrev pub directory_then : List Owner → Option Entry → Ran Bytes → Ran Bytes
  directory_then allowed none rest = missing
  directory_then allowed (some e) rest = under (is_trusted e.stat true allowed) "FS_METADATA" rest

  -- The file that a path ends in, below trusted directories.
  unfoldable pub content_below : List Text → List Text → Ran Bytes
  content_below above [] = threw (operator "FS_COMPONENTS")
  content_below above (name ∷ []) =
      file_content (owned (above ++ name ∷ [])) (fs (above ++ name ∷ []))
  content_below above (name ∷ child ∷ below) =
      let rest = content_below (above ++ name ∷ []) (child ∷ below) in
      directory_then (owned (above ++ name ∷ [])) (fs (above ++ name ∷ [])) rest

  -- What a read of a path promises.
  unfoldable pub content_of : List Text → Ran Bytes
  content_of parts =
      under (ltb 0 (length parts) && leb (length parts) 128 && all is_component parts)
        "FS_COMPONENTS"
        (under (leb limit max_read) "FS_BOUND"
          (directory_then (owned []) (fs []) (content_below [] parts)))

-- The path below another one.
abbrev below_path : Option (List Text) → Text → Option (List Text)
below_path none name = none
below_path (some above) name = some (above ++ name ∷ [])

-- The path that a descriptor was opened at, the last time that its number was given.
unfoldable pub path_of : List Call → ℕ → Option (List Text)
path_of [] fd = none
path_of (opened_root new ∷ log) fd =
    let before = path_of log fd in if nat_eq new fd then some [] else before
path_of (opened parent name directory new ∷ log) fd =
    let above = path_of log parent in
    let before = path_of log fd in if nat_eq new fd then below_path above name else before
path_of (_ ∷ log) fd = path_of log fd

-- How many bytes were asked for at a descriptor since it was opened.
unfoldable pub offset : List Call → ℕ → ℕ
offset [] fd = 0
offset (opened parent name directory new ∷ log) fd =
    let before = offset log fd in if nat_eq new fd then 0 else before
offset (read at n ∷ log) fd =
    let before = offset log fd in if nat_eq at fd then n + before else before
offset (_ ∷ log) fd = offset log fd

abbrev pub drop {ℓ} : {A : Type ℓ} → ℕ → List A → List A
drop zero xs = xs
drop (suc n) [] = []
drop (suc n) (x ∷ xs) = drop n xs

abbrev pub stat_answer : Option Entry → Ran Stat
stat_answer none = missing
stat_answer (some e) = value e.stat

abbrev pub open_answer : Option Entry → ℕ → Ran ℕ
open_answer none new = missing
open_answer (some e) new = value new

abbrev pub read_answer : Option Entry → ℕ → ℕ → Ran Bytes
read_answer none from n = missing
read_answer (some e) from n = value (take n (drop from e.content))

module _ (fs : FileSystem) where
  abbrev pub entry_at : Option (List Text) → Option Entry
  entry_at none = none
  entry_at (some path) = fs path

  abbrev pub stat_call : List Call → Call → Ran Stat
  stat_call log (fstat fd) = stat_answer (entry_at (path_of log fd))
  stat_call log (stat_at fd name) = stat_answer (entry_at (below_path (path_of log fd) name))
  stat_call log _ = missing

  -- The system that shows this file system, without links and children. A new descriptor has a number
  -- that no open one has.
  abbrev pub quiet : Os
  quiet = record {
    open_root = λ log. value (length log);
    open_at = λ log parent name directory.
        open_answer (entry_at (below_path (path_of log parent) name)) (length log);
    open_followed = λ log parent name. missing;
    stat = stat_call;
    read_from = λ log fd n. read_answer (entry_at (path_of log fd)) (offset log fd) n;
    read_link = λ log fd name. missing;
    spawn = λ log group. missing;
    select = λ log fd. missing;
    wait = λ log fd. missing;
    poll = λ log fd. missing;
    kill = λ log fd. missing;
  }
