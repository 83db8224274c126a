-- ===== src/Broker/Manifest.antt =====
-- `installed_checks` of operator_core.py: the files that may be installed, from a pinned manifest.
pub mod Entries
use alertmind.Prelude.{
  ℕ, zero, String, ◌+◌, ◌*◌, ◌≤◌, ℤ, pos, Bool, true, false, not, ◌&&◌, ◌||◌, List, [], ◌∷◌, ◌++◌,
  Option, none, some, leb, ltb, nat_eq, all, any, length, keep, is_empty, if◌then◌else◌,
  int_between,
}
use alertmind.Text.{Text, text, text_eq, is_one_of, starts_with, split_on, join, between}
use alertmind.Json.{Json, int, str, obj, Fields, end, field}
use alertmind.Json.Dict.{get, has, lookup, size}
use alertmind.Json.Parsed.{Codes, loads}
use alertmind.Dumps.{insert_sorted, canonical}
use alertmind.Platform.{Platform, Bytes}
use alertmind.Result.{Result, ok, err, ◌>>=◌, ◌>>◌, require}
use alertmind.Broker.Core.{
  base, client, node, header, contract, original_sha256, candidate_sha256,
  packaged_linux_node_sha256, packaged_node_header_sha256, files_digest, max_manifest, mebibyte,
  is_digest, FileCheck,
}
use alertmind.Broker.Recovery.{is_text}

abbrev pub manifest_codes : Codes
manifest_codes = record {
  duplicate = "MANIFEST_DUPLICATE_KEY";
  number = "MANIFEST_JSON";
  syntax = "MANIFEST_JSON";
}

-- `PurePosixPath(name).parts` of a relative name: empty components and "." are dropped.
unfoldable pub path_parts : Text → List Text
path_parts name = keep (λ a. not (is_empty a) && not (text_eq a (text "."))) (split_on b'/' name)

-- `not re.search(r'[\\:\x00-\x20\x7f]', name)`
unfoldable pub is_clean : Text → Bool
is_clean = all (λ c. not (nat_eq c 92 || nat_eq c b':' || leb c 0x20 || nat_eq c 0x7F))

-- The test of a dependency's name: below node_modules, in normal form, never upwards.
unfoldable pub is_safe_name : Text → Bool
unfolding path_parts is_clean
is_safe_name name =
    starts_with (text "node_modules/") name
    && text_eq (join (b'/' ∷ []) (path_parts name)) name
    && not (is_one_of (path_parts name) (text ".."))
    && is_clean name

abbrev pub original_name : Text
original_name = text "original.cjs"

abbrev pub candidate_name : Text
candidate_name = text "candidate.cjs"

-- `type(size) is int` excludes booleans.
abbrev entry_values : Json → Json → Result (ℕ × Text)
entry_values (int (pos n)) (str digest) =
    require (leb n (2 * mebibyte) && is_digest digest) "MANIFEST_ENTRY" >> ok (n, digest)
entry_values _ _ = err "MANIFEST_ENTRY"

-- The size and the digest of an entry.
unfoldable pub entry : Json → Result (ℕ × Text)
entry (obj fs) =
    require (nat_eq (size fs) 2 && (has (text "bytes") fs && has (text "sha256") fs))
      "MANIFEST_ENTRY"
    >> entry_values (get (text "bytes") fs) (get (text "sha256") fs)
entry _ = err "MANIFEST_ENTRY"

abbrev pub sized_check : Text → Text → ℕ → FileCheck
sized_check path digest size = record {
  path = path;
  digest = digest;
  limit = 2 * mebibyte;
  size = some size;
}

-- The body of the loop for one entry: the checks that it adds.
unfoldable pub check_entry : Text → ℕ → Text → Result (List FileCheck)
check_entry name size digest =
    if text_eq name original_name
    then require (text_eq digest original_sha256) "MANIFEST_CLIENT" >> ok []
    else if text_eq name candidate_name
    then require (text_eq digest candidate_sha256) "MANIFEST_CLIENT"
      >> ok (sized_check client digest size ∷ [])
    else require (is_safe_name name) "MANIFEST_PATH"
      >> ok (sized_check (base ++ name) digest size ∷ [])

-- The loop: the checks in order, and the total size.
unfoldable pub check_files : Fields → Result (List FileCheck × ℕ)
check_files end = ok ([], 0)
check_files (field name info files) = do
  (size, digest) ← entry info
  checks ← check_entry name size digest
  (more, total) ← check_files files
  ok (checks ++ more, size + total)

-- `sorted(files.items())`; no key stands twice, so the values are not compared
unfoldable pub sorted_items : Fields → Fields
sorted_items end = end
sorted_items (field k v fs) = insert_sorted k v (sorted_items fs)

unfoldable pub node_check : FileCheck
node_check = record {
  path = node;
  digest = packaged_linux_node_sha256;
  limit = 100 * mebibyte;
  size = none;
}

unfoldable pub header_check : FileCheck
header_check = record {
  path = header;
  digest = packaged_node_header_sha256;
  limit = 65536;
  size = none;
}

abbrev pub as_dict : Json → String → Result Fields
as_dict (obj fs) code = ok fs
as_dict _ code = err code

module _ ⦃p : Platform⦄ where
  unfoldable pub installed_checks : Bytes → Result (List FileCheck)
  installed_checks raw = do
    require (ltb 0 (length raw) && leb (length raw) max_manifest) "MANIFEST_SIZE"
    value ← loads manifest_codes (p.parse raw)
    manifest ← as_dict value "MANIFEST_SHAPE"
    require (all (λ (k, v). is_text (get k manifest) v) contract) "MANIFEST_CONTRACT"
    files ← as_dict (get (text "files") manifest) "MANIFEST_FILES"
    require (leb 2 (size files) && leb (size files) 4096) "MANIFEST_FILES"
    require (text_eq (p.sha256 (canonical (obj files))) files_digest) "MANIFEST_FILES_DIGEST"
    (checks, total) ← check_files (sorted_items files)
    require (has original_name files && has candidate_name files && leb total (32 * mebibyte))
        "MANIFEST_FILES"
    ok (checks ++ node_check ∷ header_check ∷ [])
