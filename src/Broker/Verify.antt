-- ===== src/Broker/Verify.antt =====
-- `verify_installed_bytes` of operator_core.py: two passes of bounded reads over the pinned files.
pub mod Passes
use alertmind.Prelude.{
  ℕ, suc, Bool, true, false, ◌&&◌, List, [], ◌∷◌, Option, none, some, leb, nat_eq, length,
}
use alertmind.Text.{Text, text_eq}
use alertmind.Platform.{Platform, Bytes}
use alertmind.Result.{Result, ok, err, ◌>>=◌, ◌>>◌, require}
use alertmind.Broker.Core.{node, package_version, FileCheck}
use alertmind.Broker.Manifest.{installed_checks}

-- What the caller's `read_bounded` does: it raises, or returns bytes or something else.
pub data Reply : Type 0 where
  raised other : Reply
  bytes : Bytes → Reply

-- Files change between reads, so a reader answers by the number of the reads before, too.
abbrev pub Reader : Type 0
Reader = ℕ → Text → ℕ → Reply

-- `check.size is None or len(raw) == check.size`
abbrev pub size_ok : Option ℕ → ℕ → Bool
size_ok none n = true
size_ok (some size) n = nat_eq n size

module _ ⦃p : Platform⦄ where
  -- The tests of one read.
  unfoldable pub check_read : FileCheck → Reply → Result (Unit {0})
  check_read check raised = err "ARTIFACT_READ"
  check_read check other = err "ARTIFACT_SIZE"
  check_read check (bytes raw) = do
    require (leb (length raw) check.limit && size_ok check.size (length raw)) "ARTIFACT_SIZE"
    require (text_eq (p.sha256 raw) check.digest) "ARTIFACT_DIGEST"

  -- `for check in checks`: one pass, which counts its reads.
  unfoldable pub verify_pass : Reader → ℕ → List FileCheck → Result ℕ
  verify_pass read clock [] = ok clock
  verify_pass read clock (check ∷ checks) =
      check_read check (read clock check.path check.limit) >> verify_pass read (suc clock) checks

-- The result dictionary.
pub record Verified : Type 0 where
  pub byte_integrity_passed : Bool
  pub checked_files : ℕ
  pub passes : ℕ
  pub startup_authorized : Bool
  pub live_acceptance : Bool

module _ ⦃p : Platform⦄ where
  unfoldable pub verify_installed_bytes : Bytes → Reader → Text → Text → Result Verified
  verify_installed_bytes manifest read version selected_node = do
    require (text_eq version package_version) "PACKAGE_VERSION"
    require (text_eq selected_node node) "RUNTIME_PATH"
    checks ← installed_checks manifest
    clock ← verify_pass read 0 checks
    _ ← verify_pass read clock checks
    ok (record {
      byte_integrity_passed = true;
      checked_files = length checks;
      passes = 2;
      startup_authorized = false;
      live_acceptance = false;
    })
