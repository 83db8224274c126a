-- ===== src/Tests/System.antt =====
-- A host on which the read-only adapters of the broker operator succeed.
use alertmind.Prelude.{
  ℕ, pos, true, false, List, [], ◌∷◌, ◌++◌, some, length, nat_eq, if◌then◌else◌,
}
use alertmind.Text.{Text, text, text_eq}
use alertmind.Platform.{Platform, plain, Bytes}
use alertmind.Json.Parsed.{Parsed, Pairs, Elems, bad}
use alertmind.Broker.Core.{node, packaged_linux_node_sha256}
use alertmind.Broker.Os.{Os, Call, Stat, value, read, selected, fstat, stat_at, stat_followed}
use alertmind.Broker.Files.Trust.{Host}

abbrev pub tab : Text
tab = 9 ∷ []

abbrev pub line_end : Text
line_end = 10 ∷ []

abbrev pub four : Text
four = tab ++ (text "5" ++ (tab ++ (text "5" ++ (tab ++ (text "5" ++ (tab ++ text "5"))))))

-- What the files and the pipes hold, by descriptor.
abbrev pub content : ℕ → Bytes
content fd =
    if nat_eq fd 6
    then text "42 (node) S 0 0 0 0 0 0 0 0 0 0 0 0 0 0 0 0 0 0 77 0"
    else if nat_eq fd 7
    then text "Uid:" ++ (four ++ (line_end ++ (text "Gid:" ++ (four ++ line_end))))
    else if nat_eq fd 8
    then node ++ 0 ∷ []
    else if nat_eq fd 9
    then text "PATH=x" ++ 0 ∷ []
    else if nat_eq fd 13
    then packaged_linux_node_sha256
    else if nat_eq fd 20
    then text "a"
      ++ (line_end
          ++ (text "b"
              ++ (line_end
                  ++ (text "c"
                      ++ (line_end
                          ++ (text "d"
                              ++ (line_end
                                  ++ (text "e" ++ (line_end ++ (text "f" ++ line_end))))))))))
    else if nat_eq fd 21
    then text "g"
      ++ (line_end
          ++ (text "e"
              ++ (line_end
                  ++ (text "h"
                      ++ (line_end
                          ++ (text "e"
                              ++ (line_end
                                  ++ (text "e"
                                      ++ (line_end
                                          ++ (text "i"
                                              ++ (line_end
                                                  ++ (text "i"
                                                      ++ (line_end
                                                          ++ (text "d"
                                                            ++ (line_end
                                                            ++ (text "d"
                                                            ++ (line_end
                                                            ++ (text "d"
                                                            ++ (line_end
                                                            ++ (text "j"
                                                            ++ (line_end
                                                            ++ (text "k"
                                                            ++ line_end))))))))))))))))))))))
    else text "x"

abbrev pub typed : Text → Parsed → Parsed
typed signature v =
    Parsed.obj
      (Pairs.pair (text "type") (Parsed.str signature) (Pairs.pair (text "data") v Pairs.end))

abbrev pub zeros : Elems
zeros =
    let z = Parsed.int (pos 0) in
    Elems.cons z (
      Elems.cons z
        (Elems.cons z (Elems.cons z (Elems.cons z (Elems.cons z (Elems.cons z Elems.nil))))))

-- The lines that the service manager prints, each shortened to a letter.
abbrev pub record_of : ℕ → Parsed
record_of c =
    if nat_eq c b'a'
    then typed (text "s") (Parsed.str (text "wazuh-dashboard.service"))
    else if nat_eq c b'b'
    then typed (text "s") (Parsed.str (text "loaded"))
    else if nat_eq c b'c'
    then typed (text "s") (Parsed.str (text "active"))
    else if nat_eq c b'd'
    then typed (text "s") (Parsed.str [])
    else if nat_eq c b'e'
    then typed (text "as") (Parsed.arr Elems.nil)
    else if nat_eq c b'f'
    then typed (text "b") (Parsed.bool false)
    else if nat_eq c b'g'
    then typed (text "a(sasasttttuii)") (
        Parsed.arr (
          Elems.cons
            (Parsed.arr (
              Elems.cons (Parsed.str node)
                (Elems.cons (Parsed.arr Elems.nil) (Elems.cons (Parsed.arr Elems.nil) zeros))))
            Elems.nil))
    else if nat_eq c b'h'
    then typed (text "a(sb)") (Parsed.arr Elems.nil)
    else if nat_eq c b'i'
    then typed (text "s") (Parsed.str (text "wazuh-dashboard"))
    else if nat_eq c b'j'
    then typed (text "u") (Parsed.int (pos 42))
    else if nat_eq c b'k'
    then typed (text "t") (Parsed.int (pos 9))
    else bad

abbrev pub parse_letter : Bytes → Parsed
parse_letter (c ∷ []) = record_of c
parse_letter _ = bad

abbrev pub runtime : Platform
runtime = record plain { parse = parse_letter }

abbrev pub descriptor_of : Text → ℕ
descriptor_of name =
    if text_eq name (text "stat")
    then 6
    else if text_eq name (text "status")
    then 7
    else if text_eq name (text "cmdline")
    then 8
    else if text_eq name (text "environ")
    then 9
    else if text_eq name (text "exe")
    then 13
    else if text_eq name (text "busctl")
    then 12
    else 4

-- A directory, and a regular file of the size of its content; both are the root's.
abbrev pub stat_of : ℕ → Stat
stat_of fd = record {
  dev = 1;
  ino = fd;
  uid = 0;
  gid = 0;
  nlink = 1;
  mtime = 0;
  ctime = 0;
  mode = (if nat_eq fd 3 then 16384 else if nat_eq fd 4 then 16384 else 32768);
  size = length (content fd);
}

abbrev pub stated : Call → Stat
stated (fstat fd) = stat_of fd
stated (stat_at fd name) = stat_of (descriptor_of name)
stated (stat_followed fd name) = stat_of (descriptor_of name)
stated _ = stat_of 0

-- A file or a pipe is read whole at once, and then it is at its end.
abbrev pub next_part : List Call → ℕ → Bytes
next_part (read _ _ ∷ _) fd = []
next_part (selected _ ∷ read _ _ ∷ _) fd = []
next_part _ fd = content fd

abbrev pub system : Os
system = record {
  open_root = λ _. value 3;
  open_at = λ _ _ name _. value (descriptor_of name);
  open_followed = λ _ _ name. value (descriptor_of name);
  stat = λ _ call. value (stated call);
  read_from = λ log fd _. value (next_part log fd);
  read_link = λ _ _ _. value node;
  spawn = λ _ group. value (if text_eq group (text "Unit") then 20 else 21);
  select = λ _ _. value true;
  wait = λ _ _. value 0;
  poll = λ _ _. value false;
  kill = λ _ _. value tt;
}

abbrev pub host : Host
host = record {
  is_linux = true;
  has_flags = true;
  has_dir_fd = true;
  euid = 0;
  user = some (text "wazuh-dashboard", 5, 5);
  group = some (text "wazuh-dashboard", 5);
}
