-- ===== src/Broker/Files/Quiet/Refines.antt =====
-- On an unchanging file system the reads of operator_fs.py do what their promise says.
use alertmind.Prelude.{
  ℕ, suc, ◌≡◌, refl, ap, ◌∙◌, inl, inr, Bool, true, false, ◌&&◌, ◌||◌, List, [], ◌∷◌, ◌++◌, none,
  some, All, all, length, leb, ltb, Bool-cases, Option-cases, arith,
}
use alertmind.Text.{Text}
use alertmind.Platform.{Bytes}
use alertmind.Result.{require}
use alertmind.Broker.Os.{
  Call, Stat, opened_root, opened, fstat, stat_at, Ran, Io, pure, demand, lift, do_fstat, do_stat,
  closing, with_open, with_root,
}
use alertmind.Broker.Files.Trust.{
  Owner, max_read, is_component, is_trusted, check_trusted, check_components, check_bound,
}
use alertmind.Broker.Files.{Record, open_part, walk_parts, kept, read_at, read_root}
use alertmind.Broker.Files.Quiet.{
  Entry, FileSystem, path_of, offset, missing, under, content_below, content_of, quiet,
}
use alertmind.Broker.Files.Quiet.Held.{
  Held, Later, Later-trans, Later-fstat, Later-stat_at, Later-opened, Held-opened, alike,
}
use alertmind.Broker.Files.Quiet.Kept.{
  same_stamp_refl, do_fstat-quiet, do_stat-quiet, IsKept, All-Later,
}
use alertmind.Broker.Files.Quiet.Whole.{own, read_file-quiet}

module _ (fs : FileSystem) (limit : ℕ) (owned : List Text → List Owner) (root : ℕ) (re : Entry)
    (root_found : fs [] ≡ some re) where
  -- What a component comes to, with the rest behind it.
  abbrev part_then : Bool → List Owner → Entry → Ran Bytes → Ran Bytes
  part_then directory allowed e rest =
      under (is_trusted e.stat directory allowed) "FS_METADATA"
        (under (directory || leb e.stat.size limit) "FS_SIZE" rest)

  module _ (parent : ℕ) (above : List Text) (name : Text) (directory : Bool) (log : List Call)
      (up : Held log parent above) where
    -- The log behind the calls for a component.
    behind : List Call
    behind =
        let l1 = stat_at parent name ∷ log in
        fstat (length l1) ∷ opened parent name directory (length l1) ∷ l1

    Later-behind : Later log behind
    unfolding behind
    Later-behind =
        let l1 = stat_at parent name ∷ log in
        let l2 = opened parent name directory (length l1) ∷ l1 in
        Later-trans log l1 _ (Later-stat_at log parent name)
          (Later-trans l1 l2 _ (Later-opened l1 parent name directory) (Later-fstat l2 (length l1)))

    Held-behind : Held behind (suc (length log)) (above ++ name ∷ [])
    unfolding behind Later
    Held-behind =
        let l1 = stat_at parent name ∷ log in
        let l2 = opened parent name directory (length l1) ∷ l1 in
        Later-fstat l2 (length l1) _ _
          (Held-opened l1 parent name directory above (Later-stat_at log parent name _ _ up))

    offset-behind : offset behind (suc (length log)) ≡ 0
    unfolding behind offset
    offset-behind = rw (alike (suc (length log))) refl

    open_part-missing :
        (next : ℕ → Stat → Io Bytes)
        → fs (above ++ name ∷ []) ≡ none
        → (open_part
            (quiet fs)
            limit
            (own owned)
            root
            re.stat
            parent
            above
            name
            directory
            next
            log).0
          ≡ missing
    unfolding open_part do_stat Held
    open_part-missing next absent = let (at, lt) = up in rw at (rw absent refl)

    open_part-quiet :
        (next : ℕ → Stat → Io Bytes) (e : Entry) (rest : Ran Bytes)
        → fs (above ++ name ∷ []) ≡ some e
        → (directory || leb e.stat.size limit ≡ true
            → (next (suc (length log)) e.stat behind).0 ≡ rest)
        → (open_part
            (quiet fs)
            limit
            (own owned)
            root
            re.stat
            parent
            above
            name
            directory
            next
            log).0
          ≡ part_then directory (owned (above ++ name ∷ [])) e rest
    unfolding open_part demand check_trusted with_open closing behind Later Held path_of
    open_part-quiet next e rest found k =
        let l1 = stat_at parent name ∷ log in
        let l2 = opened parent name directory (length l1) ∷ l1 in
        let new =
          Held-opened l1 parent name directory above (Later-stat_at log parent name _ _ up) in
        rw (do_stat-quiet fs log parent name above e up found)
          (elim (Bool-cases (is_trusted e.stat directory (owned (above ++ name ∷ [])))) [
            | inr bad ↦ rw bad refl
            | inl good ↦ rw good (elim (Bool-cases (directory || leb e.stat.size limit)) [
              | inr bad ↦ rw bad refl
              | inl fits ↦ rw fits (
                  rw up.0 (
                    rw found (
                      rw (do_fstat-quiet fs l2 (length l1) (above ++ name ∷ []) e new found)
                        (rw good (rw (same_stamp_refl e.stat) (k fits))))))
            ])
          ])

  -- Under the limit twice is under the limit.
  under_twice :
      (a b : Bool) (r : Ran Bytes)
      → under a "FS_SIZE" (under (a && b) "FS_SIZE" r) ≡ under (a && b) "FS_SIZE" r
  under_twice true b r = refl
  under_twice false b r = refl

  -- What is held and kept behind the calls for a component.
  kept-behind :
      (parent : ℕ) (above : List Text) (name : Text) (directory : Bool) (e : Entry)
      (records : List Record) (log : List Call)
      → (up : Held log parent above) → fs (above ++ name ∷ []) ≡ some e
      → All (IsKept fs log) records
      → All (IsKept fs (behind parent above name directory log up)) (
          kept (quiet fs) limit (own owned) root re.stat parent name (suc (length log)) e.stat
          ∷ records)
  unfolding IsKept Later
  kept-behind parent above name directory e records log up found kept_all =
      let later = Later-behind parent above name directory log up in
      (
        (
          above,
          e,
          later parent above up,
          Held-behind parent above name directory log up,
          found,
          refl,
        ),
        All-Later fs log _ records later kept_all,
      )

  -- The walk, from a held descriptor of the path above.
  walk_parts-quiet :
      (parent : ℕ) (above parts : List Text) (records : List Record) (log : List Call)
      → Held log parent above
      → Held log root []
      → All (IsKept fs log) records
      → (walk_parts (quiet fs) limit (own owned) root re.stat parent above parts records log).0
        ≡ content_below fs limit owned above parts
  unfolding walk_parts content_below Later
  walk_parts-quiet parent above [] records log up top kept_all = refl
  walk_parts-quiet parent above (name ∷ []) records log up top kept_all =
      elim (Option-cases (fs (above ++ name ∷ []))) [
        | inl absent ↦ rw absent (open_part-missing parent above name false log up _ absent)
        | inr (e, found) ↦ rw found (
            open_part-quiet parent above name false log up _ e _ found (λ fits.
              read_file-quiet fs limit owned root re root_found (suc (length log))
                (above ++ name ∷ []) e _ _ found (Held-behind parent above name false log up)
                (offset-behind parent above name false log up)
                (Later-behind parent above name false log up root [] top)
                (kept-behind parent above name false e records log up found kept_all) fits)
            ∙ ap (under (is_trusted e.stat false (owned (above ++ name ∷ []))) "FS_METADATA")
                (under_twice (leb e.stat.size limit) _ _))
      ]
  walk_parts-quiet parent above (name ∷ child ∷ below) records log up top kept_all =
      elim (Option-cases (fs (above ++ name ∷ []))) [
        | inl absent ↦ rw absent (open_part-missing parent above name true log up _ absent)
        | inr (e, found) ↦ rw found (
            open_part-quiet parent above name true log up _ e _ found (λ _.
              walk_parts-quiet (suc (length log)) (above ++ name ∷ []) (child ∷ below) _ _
                (Held-behind parent above name true log up)
                (Later-behind parent above name true log up root [] top)
                (kept-behind parent above name true e records log up found kept_all)))
      ]

Held-root : (log : List Call) → Held (opened_root (length log) ∷ log) (length log) []
unfolding Held path_of
Held-root log = let same = alike (length log) in (rw same refl, omega arith)

root-Held :
    (log : List Call) → Held (fstat (length log) ∷ opened_root (length log) ∷ log) (length log) []
unfolding Later
root-Held log =
    Later-fstat (opened_root (length log) ∷ log) (length log) (length log) [] (Held-root log)

module _ (fs : FileSystem) (limit : ℕ) (owned : List Text → List Owner) where
  do_fstat-missing :
      (log : List Call)
      → fs [] ≡ none
      → do_fstat (quiet fs) (length log) (opened_root (length log) ∷ log)
        ≡ (missing, fstat (length log) ∷ opened_root (length log) ∷ log)
  unfolding do_fstat path_of
  do_fstat-missing log absent = let same = alike (length log) in rw same (rw absent refl)

  -- On a file system that does not change, a read below the root returns exactly the bytes of the
  -- file at the path, or raises the failure, that the promise names: the descriptors, the rounds, the
  -- rechecks and the calls before it make no difference.
  pub read_root-content_of :
      (parts : List Text) (log : List Call)
      → (read_root (quiet fs) parts limit (λ path. pure (owned path)) log).0
        ≡ content_of fs limit owned parts
  unfolding read_root read_at content_of check_components check_bound lift require with_root closing
      check_trusted demand Held path_of Later
  read_root-content_of parts log =
      elim (Bool-cases (ltb 0 (length parts) && leb (length parts) 128 && all is_component parts)) [
        | inr bad ↦ rw bad refl
        | inl safe ↦ rw safe (elim (Bool-cases (leb limit max_read)) [
          | inr bad ↦ rw bad refl
          | inl bounded ↦ rw bounded (elim (Option-cases (fs [])) [
            | inl absent ↦ rw absent (rw (do_fstat-missing log absent) refl)
            | inr (re, found) ↦ rw found (
                rw
                  (do_fstat-quiet fs (opened_root (length log) ∷ log) (length log) [] re
                    (Held-root log) found)
                  (elim (Bool-cases (is_trusted re.stat true (owned []))) [
                    | inr bad ↦ rw bad refl
                    | inl good ↦ rw good (
                        walk_parts-quiet fs limit owned (length log) re found (length log) [] parts
                          [] _ (root-Held log) (root-Held log) tt)
                  ]))
          ])
        ])
      ]
