-- ===== src/Tests/Quiet.antt =====
-- A read of a file in a small file system that does not change.
use alertmind.Prelude.{◌≡◌, refl, List, [], ◌∷◌, none, some, if◌then◌else◌}
use alertmind.Text.{Text, text, text_eq}
use alertmind.Broker.Os.{Stat, value, pure}
use alertmind.Broker.Files.{read_root}
use alertmind.Broker.Files.Trust.{Owner}
use alertmind.Broker.Files.Quiet.{Entry, FileSystem, content_of, quiet}
use alertmind.Broker.Files.Quiet.Refines.{read_root-content_of}

abbrev directory_stat : Stat
directory_stat = record {
  dev = 1;
  ino = 2;
  mode = 16877;
  uid = 0;
  gid = 0;
  nlink = 2;
  size = 4096;
  mtime = 1;
  ctime = 1;
}

abbrev file_stat : Stat
file_stat = record {
  dev = 1;
  ino = 9;
  mode = 33188;
  uid = 0;
  gid = 0;
  nlink = 1;
  size = 3;
  mtime = 1;
  ctime = 1;
}

abbrev disk : FileSystem
disk [] = some (record { stat = directory_stat; content = [] })
disk (a ∷ []) =
    if text_eq a (text "etc") then some (record { stat = directory_stat; content = [] }) else none
disk (a ∷ b ∷ []) =
    if text_eq b (text "key")
    then some (record { stat = file_stat; content = text "abc" })
    else none
disk _ = none

abbrev root_only : List Text → List Owner
root_only path = (0, 0) ∷ []

abbrev key_path : List Text
key_path = text "etc" ∷ text "key" ∷ []

read_root-content_of_example :
    (read_root (quiet disk) key_path 8 (λ path. pure (root_only path)) []).0
    ≡ content_of disk 8 root_only key_path
read_root-content_of_example = read_root-content_of disk 8 root_only key_path []

-- The promise is that the file is read.
key_content : content_of disk 8 root_only key_path ≡ value (text "abc")
unfolding content_of alertmind.Broker.Files.Quiet.content_below text text_eq
    alertmind.Broker.Files.Trust.is_trusted alertmind.Broker.Files.Trust.is_component
key_content = refl
