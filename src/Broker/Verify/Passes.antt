-- ===== src/Broker/Verify/Passes.antt =====
-- A passed verification has seen the pinned bytes of every file in each of two passes.
use alertmind.Prelude.{
  ℕ, suc, ◌+◌, ◌≤◌, ◌≡◌, refl, ◌↔◌, true, false, List, [], ◌∷◌, Option, none, some, arith, length,
  nat_eq_iff, ap, subst, sym, ◌∙◌,
}
use alertmind.Text.{Text, text_eq}
use alertmind.Text.Laws.{text_eq_iff, text_eq_refl}
use alertmind.Platform.{Platform, Bytes}
use alertmind.Result.{ok, require, after_ok, after_require, ok-injective}
use alertmind.Broker.Core.{node, package_version, FileCheck}
use alertmind.Broker.Manifest.{installed_checks}
use alertmind.Broker.Verify.{
  Reply, raised, other, bytes, Reader, size_ok, check_read, verify_pass, Verified,
  verify_installed_bytes,
}

abbrev pub HasSize : Option ℕ → ℕ → Type 0
HasSize none n = Unit
HasSize (some size) n = n ≡ size

module _ ⦃p : Platform⦄ where
  -- The reply is the pinned file: bytes within the limit, of the pinned size and digest.
  abbrev pub IsPinned : FileCheck → Reply → Type 0
  IsPinned check (bytes raw) =
      (length raw ≤ check.limit) × HasSize check.size (length raw) × (p.sha256 raw ≡ check.digest)
  IsPinned check _ = ⊥

  -- Every read of a pass that starts after `clock` reads gave the pinned file.
  abbrev pub SawAll : Reader → ℕ → List FileCheck → Type 0
  SawAll read clock [] = Unit
  SawAll read clock (check ∷ checks) =
      IsPinned check (read clock check.path check.limit) × SawAll read (suc clock) checks

  size_ok_iff : (o : Option ℕ) (n : ℕ) → (size_ok o n ≡ true) ↔ HasSize o n
  size_ok_iff none n = (λ _. tt, λ _. refl)
  size_ok_iff (some size) n = nat_eq_iff n size

  check_read_iff :
      (check : FileCheck) (reply : Reply) → (check_read check reply ≡ ok tt) ↔ IsPinned check reply
  unfolding check_read require
  check_read_iff check raised = (λ h. cc, λ h. absurd h)
  check_read_iff check other = (λ h. cc, λ h. absurd h)
  check_read_iff check (bytes raw) =
      ground (arith, size_ok_iff check.size (length raw), text_eq_iff (p.sha256 raw) check.digest)

  verify_pass_sound :
      (read : Reader) (clock : ℕ) (checks : List FileCheck) {m : ℕ}
      → verify_pass read clock checks ≡ ok m
      → SawAll read clock checks × (m ≡ clock + length checks)
  unfolding verify_pass
  verify_pass_sound read clock [] h = (tt, let e = ok-injective h in omega arith)
  verify_pass_sound read clock (check ∷ checks) h =
      after_ok (check_read check (read clock check.path check.limit)) h λ _ e h1.
        let (saw, same) = verify_pass_sound read (suc clock) checks h1 in
        (((check_read_iff check _).0 e, saw), omega arith)

  verify_pass_complete :
      (read : Reader) (clock : ℕ) (checks : List FileCheck)
      → SawAll read clock checks
      → verify_pass read clock checks ≡ ok (clock + length checks)
  unfolding verify_pass
  verify_pass_complete read clock [] _ = ap ok (omega arith)
  verify_pass_complete read clock (check ∷ checks) (here, later) =
      rw ((check_read_iff check _).1 here)
        (verify_pass_complete read (suc clock) checks later ∙ ap ok (omega arith))

  -- The result of a passed verification.
  abbrev pub verified : List FileCheck → Verified
  verified checks = record {
    byte_integrity_passed = true;
    checked_files = length checks;
    passes = 2;
    startup_authorized = false;
    live_acceptance = false;
  }

  -- The verification passes exactly when the package version and the Node path are the pinned
  -- ones, the manifest is accepted, and each of the two passes over its files read, from every
  -- file, bytes within the bound, of the pinned size and digest; the result counts the files
  -- and authorizes no startup.
  pub verify_installed_bytes_iff :
      (manifest : Bytes) (read : Reader) (version selected_node : Text) (result : Verified)
      → (verify_installed_bytes manifest read version selected_node ≡ ok result) ↔ (
          (version ≡ package_version)
          × (selected_node ≡ node)
          × ((checks : List FileCheck) × (installed_checks manifest ≡ ok checks)
              × SawAll read 0 checks
              × SawAll read (length checks) checks
              × (result ≡ verified checks)))
  verify_installed_bytes_iff manifest read version selected_node result = (
    λ h.
        unfold verify_installed_bytes in
        after_require (text_eq version package_version) _ h λ v h1.
          after_require (text_eq selected_node node) _ h1 λ n h2.
            after_ok (installed_checks manifest) h2 λ checks e h3.
              after_ok (verify_pass read 0 checks) h3 λ clock e1 h4.
                after_ok (verify_pass read clock checks) h4 λ _ e2 h5.
                  let (first, same) = verify_pass_sound read 0 checks e1 in
                  let (second, _) = verify_pass_sound read clock checks e2 in
                  (
                    (text_eq_iff _ _).0 v,
                    (text_eq_iff _ _).0 n,
                    (
                      checks,
                      e,
                      first,
                      subst (λ k. SawAll read k checks) (same ∙ omega arith) second,
                      sym (ok-injective h5),
                    ),
                  ),
    λ (v, n, (checks, e, first, second, same)).
        unfold verify_installed_bytes require in
        let start : 0 + length checks ≡ length checks = omega arith in
        rw (v, n, text_eq_refl, text_eq_refl, e, verify_pass_complete read 0 checks first, start)
          (rw (verify_pass_complete read (length checks) checks second, same)),
  )
