-- ===== src/Tests/Manifests.antt =====
-- Runs of the manifest checks and of the two-pass verification of operator_core.py.
use alertmind.Prelude.{
  ℕ, ◌*◌, ◌≡◌, refl, pos, List, [], ◌∷◌, ◌++◌, All, nat_eq, replicate, if◌then◌else◌, length, ◌≤◌,
}
use alertmind.Text.{Text, text, text_eq, starts_with, split_on, join}
use alertmind.Json.Parsed.{Parsed, Pairs, end, pair, str, int, obj, loads}
use alertmind.Json.Dict.{lookup, insert}
use alertmind.Dumps.{insert_sorted, canonical}
use alertmind.Platform.{Platform, plain}
use alertmind.Result.{ok, require}
use alertmind.Broker.Core.{
  contract, original_sha256, candidate_sha256, files_digest, client, node, header,
  packaged_linux_node_sha256, packaged_node_header_sha256, package_version, base, is_digest,
  FileCheck, mebibyte,
}
use alertmind.Broker.Recovery.{is_text}
use alertmind.Broker.Manifest.{
  installed_checks, check_files, check_entry, entry, sorted_items, is_safe_name, node_check,
  header_check, sized_check,
}
use alertmind.Broker.Verify.{Reader, bytes, verify_installed_bytes, verify_pass, check_read}
use alertmind.Broker.Verify.Passes.{verified, SawAll, verify_installed_bytes_iff}
use alertmind.Broker.Manifest.Entries.{IsListed, HasClient, sizes, installed_checks-IsListed}

abbrev dependency_digest : Text
dependency_digest = text "00000000000000000000000000000000000000000000000000000000000000ff"

abbrev listed : Text → ℕ → Text → Pairs → Pairs
listed name n digest rest =
    pair name (obj (pair (text "bytes") (int (pos n)) (pair (text "sha256") (str digest) end))) rest

abbrev files : Pairs
files = listed (text "original.cjs") 3 original_sha256 (
    listed (text "node_modules/axios/index.js") 7 dependency_digest
      (listed (text "candidate.cjs") 5 candidate_sha256 end))

abbrev pinned : List (Text × Text) → Pairs → Pairs
pinned [] rest = rest
pinned ((k, v) ∷ more) rest = pair k (str v) (pinned more rest)

manifest : Parsed
unfolding contract
manifest = obj (pinned contract (pair (text "files") (obj files) end))

-- A runtime in which every text has the pinned digest and every manifest is the one above.
abbrev lenient : Platform
lenient = record plain { sha256 = λ _. files_digest; parse = λ _. manifest }

abbrev checks : List FileCheck
checks =
    sized_check client candidate_sha256 5
    ∷ sized_check (base ++ text "node_modules/axios/index.js") dependency_digest 7
    ∷ node_check
    ∷ header_check
    ∷ []

-- The entries come out in the order of their names, and original.cjs is dropped.
sample_is_accepted : installed_checks ⦃p = lenient⦄ (0 ∷ []) ≡ ok checks
unfolding installed_checks manifest loads lookup insert insert_sorted require is_text text_eq text
    check_files check_entry entry sorted_items is_safe_name is_digest starts_with split_on join
    contract files_digest
sample_is_accepted = refl

installed_checks-IsListed_example :
    (found : List FileCheck) × (checks ≡ found ++ node_check ∷ header_check ∷ [])
    × All IsListed found
    × HasClient found
    × (sizes found ≤ 32 * mebibyte)
installed_checks-IsListed_example =
    installed_checks-IsListed ⦃p = lenient⦄ (0 ∷ []) checks sample_is_accepted

-- A disk on which every file has a length of its own.
abbrev disk : Reader
disk clock path limit =
    if text_eq path client
    then bytes (replicate 5 0)
    else if text_eq path node
    then bytes (replicate 2 0)
    else if text_eq path header
    then bytes (replicate 3 0)
    else bytes (replicate 7 0)

-- A runtime that gives each of these contents the digest that the manifest pins.
abbrev measured : Platform
measured = record lenient {
  sha256 = λ raw.
      if nat_eq (length raw) 5
      then candidate_sha256
      else if nat_eq (length raw) 2
      then packaged_linux_node_sha256
      else if nat_eq (length raw) 3
      then packaged_node_header_sha256
      else if nat_eq (length raw) 7
      then dependency_digest
      else files_digest;
}

measured_accepts : installed_checks ⦃p = measured⦄ (0 ∷ []) ≡ ok checks
unfolding installed_checks manifest loads lookup insert insert_sorted require is_text text_eq text
    check_files check_entry entry sorted_items is_safe_name is_digest starts_with split_on join
    contract files_digest canonical
measured_accepts = refl

disk_is_verified :
    verify_installed_bytes ⦃p = measured⦄ (0 ∷ []) disk package_version node
    ≡ ok (verified ⦃p = measured⦄ checks)
unfolding verify_installed_bytes verify_pass check_read installed_checks manifest loads lookup
    insert insert_sorted require is_text text_eq text check_files check_entry entry sorted_items
    is_safe_name is_digest starts_with split_on join contract files_digest canonical package_version
    node client header node_check header_check
disk_is_verified = refl

verify_installed_bytes_iff_example :
    (package_version ≡ package_version)
    × (node ≡ node)
    × ((found : List FileCheck) × (installed_checks ⦃p = measured⦄ (0 ∷ []) ≡ ok found)
        × SawAll ⦃p = measured⦄ disk 0 found
        × SawAll ⦃p = measured⦄ disk (length found) found
        × (verified ⦃p = measured⦄ checks ≡ verified ⦃p = measured⦄ found))
verify_installed_bytes_iff_example =
    (verify_installed_bytes_iff ⦃p = measured⦄ (0 ∷ []) disk package_version node
        (verified ⦃p = measured⦄ checks)).0
      disk_is_verified
