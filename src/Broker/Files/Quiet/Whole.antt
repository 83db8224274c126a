-- ===== src/Broker/Files/Quiet/Whole.antt =====
-- On an unchanging file system the read of an opened file of operator_fs.py returns the whole file, or
-- fails the test of its size.
use alertmind.Prelude.{
  ℕ, suc, ◌≤◌, ◌≡◌, refl, ap, ◌⊎◌, inl, inr, true, ◌&&◌, List, [], some, All, length, leb, nat_eq,
  Bool-cases, arith,
}
use alertmind.Text.{Text}
use alertmind.Platform.{Bytes}
use alertmind.Broker.Os.{Call, value, Io, pure, demand}
use alertmind.Broker.Files.Trust.{Owner}
use alertmind.Broker.Files.{Record, read_file}
use alertmind.Broker.Files.Quiet.{Entry, FileSystem, offset, under, quiet}
use alertmind.Broker.Files.Quiet.Held.{Held, Later, IsWhole, Reads, read_all-Reads}
use alertmind.Broker.Files.Quiet.Kept.{
  same_stamp_refl, do_fstat-quiet, IsKept, All-Later, recheck-quiet,
}

-- The owners that a path is allowed, as the code is given them.
abbrev pub own : (List Text → List Owner) → List Text → Io (List Owner)
own owned path = pure (owned path)

-- The length test of the code, of the bytes that were read, is that of the whole file.
tested :
    (limit size whole content : ℕ)
    → leb size limit ≡ true
    → (whole ≡ content) ⊎ ((suc limit ≤ whole) × (suc limit ≤ content))
    → leb whole limit && nat_eq whole size ≡ leb size limit && nat_eq content size
tested limit size whole content fits (inl same) = rw same (ground arith)
tested limit size whole content fits (inr (over, longer)) = ground arith

module _ (fs : FileSystem) (limit : ℕ) (owned : List Text → List Owner) (root : ℕ) (re : Entry)
    (root_found : fs [] ≡ some re) where
  lengths :
      (fd : ℕ) (path : List Text) (e : Entry) (found : fs path ≡ some e) (whole : Bytes)
      → IsWhole fs fd limit path e found whole
      → (length whole ≡ length e.content)
        ⊎ ((suc limit ≤ length whole) × (suc limit ≤ length e.content))
  unfolding IsWhole
  lengths fd path e found whole (inl same) = inl (ap length same)
  lengths fd path e found whole (inr h) = inr h

  complete :
      (fd : ℕ) (path : List Text) (e : Entry) (found : fs path ≡ some e) (whole : Bytes)
      → IsWhole fs fd limit path e found whole
      → leb e.stat.size limit && nat_eq (length e.content) e.stat.size ≡ true
      → whole ≡ e.content
  unfolding IsWhole
  complete fd path e found whole (inl same) h = same
  complete fd path e found whole (inr (over, longer)) h =
      absurd (never e.stat.size (length e.content) longer h)
    where
      never : (size n : ℕ) → suc limit ≤ n → leb size limit && nat_eq n size ≡ true → ⊥
      never size n longer h = ground arith

  -- The read of a file that was opened.
  pub read_file-quiet :
      (fd : ℕ) (path : List Text) (e : Entry) (records : List Record) (log : List Call)
      → fs path ≡ some e
      → Held log fd path
      → offset log fd ≡ 0
      → Held log root []
      → All (IsKept fs log) records
      → leb e.stat.size limit ≡ true
      → (read_file (quiet fs) limit (own owned) root re.stat fd e.stat records log).0
        ≡ under
            (leb e.stat.size limit && nat_eq (length e.content) e.stat.size)
            "FS_SIZE"
            (value e.content)
  unfolding read_file Reads demand Later
  read_file-quiet fd path e records log found held start top kept_all fits =
      let (whole, log', out, ends, later) =
        read_all-Reads fs fd limit path e found log held start in
      let test =
        tested limit e.stat.size (length whole) (length e.content) fits
          (lengths fd path e found whole ends) in
      rw out (
        rw test
          (elim (Bool-cases (leb e.stat.size limit && nat_eq (length e.content) e.stat.size)) [
            | inl good ↦
                let (log'', passes, later') =
                  recheck-quiet fs records log' (All-Later fs log log' records later kept_all) in
                let now =
                  do_fstat-quiet fs log'' root [] re (later' _ _ (later _ _ top)) root_found in
                rw good (
                  rw passes (
                    rw now (
                      rw (same_stamp_refl re.stat)
                        (ap value (complete fd path e found whole ends good)))))
            | inr bad ↦ rw bad refl
          ]))
