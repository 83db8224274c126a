-- ===== src/Broker/Files/Quiet/Kept.antt =====
-- On an unchanging file system every stat is what the file system says, and every recheck of
-- operator_fs.py passes.
use alertmind.Prelude.{ℕ, ◌≡◌, refl, true, List, [], ◌∷◌, ◌++◌, some, All}
use alertmind.Text.{Text}
use alertmind.Broker.Os.{Call, Stat, fstat, stat_at, value, demand, do_fstat, do_stat}
use alertmind.Broker.Files.Trust.{same_stamp}
use alertmind.Broker.Files.{Record, recheck}
use alertmind.Broker.Files.Quiet.{Entry, FileSystem, quiet}
use alertmind.Broker.Files.Quiet.Held.{
  Held, Later, Later-same, Later-trans, Later-fstat, Later-stat_at, alike,
}

pub same_stamp_refl : (st : Stat) → same_stamp st st ≡ true
unfolding same_stamp
same_stamp_refl st =
    rw
      (
        alike st.dev,
        alike st.ino,
        alike st.mode,
        alike st.uid,
        alike st.gid,
        alike st.nlink,
        alike st.size,
        alike st.mtime,
        alike st.ctime,
      )
      refl

module _ (fs : FileSystem) where
  pub do_fstat-quiet :
      (log : List Call) (fd : ℕ) (path : List Text) (e : Entry)
      → Held log fd path
      → fs path ≡ some e
      → do_fstat (quiet fs) fd log ≡ (value e.stat, fstat fd ∷ log)
  unfolding do_fstat Held
  do_fstat-quiet log fd path e (at, lt) found = rw at (rw found refl)

  pub do_stat-quiet :
      (log : List Call) (parent : ℕ) (name : Text) (above : List Text) (e : Entry)
      → Held log parent above
      → fs (above ++ name ∷ []) ≡ some e
      → do_stat (quiet fs) parent name log ≡ (value e.stat, stat_at parent name ∷ log)
  unfolding do_stat Held
  do_stat-quiet log parent name above e (at, lt) found = rw at (rw found refl)

  -- A component that was opened is what the file system says it is.
  unfoldable pub IsKept : List Call → Record → Type 0
  IsKept log r =
      (above : List Text) × (e : Entry) × Held log r.parent above
      × Held log r.fd (above ++ r.name ∷ [])
      × (fs (above ++ r.name ∷ []) ≡ some e)
      × (r.before ≡ e.stat)

  pub All-Later :
      (log log' : List Call) (records : List Record)
      → Later log log'
      → All (IsKept log) records
      → All (IsKept log') records
  unfolding IsKept Later
  All-Later log log' [] later h = tt
  All-Later log log' (r ∷ records) later ((above, e, up, down, found, same), h) =
      ((above, e, later _ _ up, later _ _ down, found, same), All-Later log log' records later h)

  -- Every recheck passes.
  pub recheck-quiet :
      (records : List Record) (log : List Call)
      → All (IsKept log) records
      → (log' : List Call) × (recheck (quiet fs) records log ≡ (value tt, log')) × Later log log'
  unfolding recheck IsKept demand Later
  recheck-quiet [] log h = (log, refl, Later-same log)
  recheck-quiet (r ∷ records) log ((above, e, up, down, found, same), h) =
      let fstat_log = fstat r.fd ∷ log in
      let stat_log = stat_at r.parent r.name ∷ fstat_log in
      let later =
        Later-trans _ _ _ (Later-fstat log r.fd) (Later-stat_at fstat_log r.parent r.name) in
      let (log', rest, later') =
        recheck-quiet records stat_log (All-Later log stat_log records later h) in
      let now = do_fstat-quiet log r.fd (above ++ r.name ∷ []) e down found in
      let named =
        do_stat-quiet fstat_log r.parent r.name above e (Later-fstat log r.fd _ _ up) found in
      (
        log',
        rw now
            (rw same (rw (same_stamp_refl e.stat) (rw named (rw (same_stamp_refl e.stat) rest)))),
        Later-trans _ _ _ later later',
      )
