-- ===== src/Broker/Files/Trust.antt =====
-- operator_fs.py: what is trusted, of a host, a path and a file.
use alertmind.Prelude.{
  ℕ, ◌*◌, ◌/◌, ◌%◌, Bool, true, false, not, ◌&&◌, ◌||◌, String, List, [], ◌∷◌, Option, some, all,
  any, length, take, leb, ltb, nat_eq, if◌then◌else◌,
}
use alertmind.Text.{Text, text, text_eq, is_one_of}
use alertmind.Result.{Result, require}
use alertmind.Broker.Os.{Stat, operator, Io, ◌>>◌, pure, raise, demand, lift}

abbrev pub max_read : ℕ
max_read = 100 * 1024 * 1024

abbrev pub chunk_size : ℕ
chunk_size = 65536

abbrev service_name : Text
service_name = text "wazuh-dashboard"

-- `VENDOR`
unfoldable pub vendor : List Text
vendor = text "usr" ∷ text "share" ∷ text "wazuh-dashboard" ∷ []

-- What the process is told of its host: the platform, its flags, who runs it, and the entries of
-- the user and the group database.
pub record Host : Type 0 where
  pub is_linux : Bool
  pub has_flags : Bool
  pub has_dir_fd : Bool
  pub euid : ℕ
  -- name, id and primary group; name and id
  pub user : Option (Text × ℕ × ℕ)
  pub group : Option (Text × ℕ)

-- `_platform`
unfoldable pub check_platform : Host → Io (Unit {0})
check_platform host = do
  demand (host.is_linux && host.has_flags) "FS_PLATFORM"
  demand host.has_dir_fd "FS_PLATFORM"
  demand (nat_eq host.euid 0) "FS_ROOT_REQUIRED"

abbrev pub identity_of : Option (Text × ℕ × ℕ) → Option (Text × ℕ) → Io (ℕ × ℕ)
identity_of (some (user, uid, primary)) (some (group, gid)) = do
  demand
      (text_eq user service_name
        && text_eq group service_name
        && ltb 0 uid
        && ltb 0 gid
        && nat_eq primary gid)
      "FS_SERVICE_IDENTITY"
  pure (uid, gid)
identity_of _ _ = raise (operator "FS_SERVICE_IDENTITY")

-- `_identity`
unfoldable pub identity : Host → Io (ℕ × ℕ)
identity host = identity_of host.user host.group

-- One component of a path: ASCII, at most 255 characters, never upwards, no separator, colon,
-- space or control character.
unfoldable pub is_component : Text → Bool
is_component name =
    all (λ c. leb c 127) name
    && ltb 0 (length name)
    && leb (length name) 255
    && not (is_one_of (text "." ∷ text ".." ∷ []) name)
    && not (
        any (λ c. nat_eq c b'/' || nat_eq c 92 || nat_eq c b':' || leb c 0x20 || nat_eq c 0x7F)
          name)

-- `_components`
unfoldable pub check_components : Bool → List Text → Result (Unit {0})
check_components allow_empty parts =
    require
      ((allow_empty || ltb 0 (length parts)) && leb (length parts) 128 && all is_component parts)
      "FS_COMPONENTS"

-- `_bound`
unfoldable pub check_bound : ℕ → Result (Unit {0})
check_bound limit = require (leb limit max_read) "FS_BOUND"

abbrev same_parts : List Text → List Text → Bool
same_parts [] [] = true
same_parts (a ∷ as') (b ∷ bs) = text_eq a b && same_parts as' bs
same_parts _ _ = false

abbrev pub Owner : Type 0
Owner = ℕ × ℕ

-- `_owners`
unfoldable pub owners : Owner → List Text → Io (List Owner)
owners service parts = do
  lift (check_components true parts)
  pure (if same_parts (take 3 parts) vendor then (0, 0) ∷ service ∷ [] else (0, 0) ∷ [])

-- `_os_error_code`
unfoldable pub os_error_code : ℕ → String
os_error_code errno =
    if nat_eq errno 2
    then "FS_MISSING"
    else (if nat_eq errno 13 || nat_eq errno 1
        then "FS_ACCESS"
        else (if nat_eq errno 40
            then "FS_SYMLINK"
            else (if nat_eq errno 20 then "FS_NOT_DIRECTORY" else "FS_IO")))

-- `_stamp(a) == _stamp(b)`
unfoldable pub same_stamp : Stat → Stat → Bool
same_stamp a b =
    nat_eq a.dev b.dev
    && nat_eq a.ino b.ino
    && nat_eq a.mode b.mode
    && nat_eq a.uid b.uid
    && nat_eq a.gid b.gid
    && nat_eq a.nlink b.nlink
    && nat_eq a.size b.size
    && nat_eq a.mtime b.mtime
    && nat_eq a.ctime b.ctime

abbrev pub is_owner : Stat → Owner → Bool
is_owner st (uid, gid) = nat_eq st.uid uid && nat_eq st.gid gid

-- `stat.S_ISDIR` and `stat.S_ISREG`
abbrev has_kind : Bool → Stat → Bool
has_kind directory st = nat_eq (st.mode / 4096 % 16) (if directory then 4 else 8)

-- `not st.st_mode & 0o6022`: not set-id, and not to be written by group or others
unfoldable pub is_protected : Stat → Bool
is_protected st =
    nat_eq (st.mode / 2048 % 2) 0
    && nat_eq (st.mode / 1024 % 2) 0
    && nat_eq (st.mode / 16 % 2) 0
    && nat_eq (st.mode / 2 % 2) 0

unfoldable pub is_trusted : Stat → Bool → List Owner → Bool
unfolding is_protected
is_trusted st directory allowed =
    has_kind directory st && any (is_owner st) allowed && is_protected st

-- `_trusted`
unfoldable pub check_trusted : Stat → Bool → List Owner → Io (Unit {0})
check_trusted st directory allowed = demand (is_trusted st directory allowed) "FS_METADATA"
