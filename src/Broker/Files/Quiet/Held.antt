-- ===== src/Broker/Files/Quiet/Held.antt =====
-- The descriptors of a system that shows an unchanging file system: they keep their paths, and a
-- bounded read of one comes to the end of the file or beyond the limit.
use mathlib.Core.List.{append_assoc, append-nil}
use alertmind.Prelude.{
  ℕ, zero, suc, ◌+◌, ◌-◌, ◌≤◌, ◌<◌, min, ◌≡◌, refl, sym, ap, ◌∙◌, subst, ◌⊎◌, inl, inr, Bool, true,
  false, List, [], ◌∷◌, ◌++◌, some, length, length-append, take, leb, nat_eq, nat_eq_iff,
  Bool-cases, arith,
}
use alertmind.Text.{Text}
use alertmind.Platform.{Bytes}
use alertmind.Broker.Os.{Call, opened, fstat, stat_at, read, Ran, value, Io, continue, do_read}
use alertmind.Broker.Files.Trust.{chunk_size}
use alertmind.Broker.Files.{after_chunk, read_loop, read_all}
use alertmind.Broker.Files.Quiet.{
  Entry, FileSystem, path_of, offset, drop, entry_at, read_answer, quiet,
}

-- A descriptor that was opened at a path and not given again.
unfoldable pub Held : List Call → ℕ → List Text → Type 0
Held log fd path = (path_of log fd ≡ some path) × (fd < length log)

-- What was held is held.
unfoldable pub Later : List Call → List Call → Type 0
Later log log' = (fd : ℕ) (path : List Text) → Held log fd path → Held log' fd path

pub Later-trans : (l m n : List Call) → Later l m → Later m n → Later l n
unfolding Later
Later-trans l m n first second fd path h = second fd path (first fd path h)

pub Later-same : (log : List Call) → Later log log
unfolding Later
Later-same log fd path h = h

pub Later-fstat : (log : List Call) (at : ℕ) → Later log (fstat at ∷ log)
unfolding Later Held path_of
Later-fstat log at fd path (h, lt) = (h, omega arith)

pub Later-stat_at : (log : List Call) (at : ℕ) (name : Text) → Later log (stat_at at name ∷ log)
unfolding Later Held path_of
Later-stat_at log at name fd path (h, lt) = (h, omega arith)

pub Later-read : (log : List Call) (at n : ℕ) → Later log (read at n ∷ log)
unfolding Later Held path_of
Later-read log at n fd path (h, lt) = (h, omega arith)

differ : (a b : ℕ) → b < a → nat_eq a b ≡ false
differ a b h = ground arith

pub alike : (a : ℕ) → nat_eq a a ≡ true
alike a = (nat_eq_iff a a).1 refl

-- A new descriptor leaves the others alone, and is one of the path below its parent.
pub Later-opened :
    (log : List Call) (parent : ℕ) (name : Text) (directory : Bool)
    → Later log (opened parent name directory (length log) ∷ log)
unfolding Later Held path_of
Later-opened log parent name directory fd path (h, lt) =
    let new = differ (length log) fd lt in (rw new h, omega arith)

pub Held-opened :
    (log : List Call) (parent : ℕ) (name : Text) (directory : Bool) (above : List Text)
    → Held log parent above
    → Held (opened parent name directory (length log) ∷ log) (length log) (above ++ name ∷ [])
unfolding Held path_of
Held-opened log parent name directory above (h, lt) =
    let same = alike (length log) in (rw same (rw h refl), omega arith)

take-drop : (n : ℕ) (xs : Bytes) → take n xs ++ drop n xs ≡ xs
take-drop zero xs = refl
take-drop (suc n) [] = refl
take-drop (suc n) (x ∷ xs) = ap (λ l. x ∷ l) (take-drop n xs)

drop-nil : (n : ℕ) → drop {A = ℕ} n [] ≡ []
drop-nil zero = refl
drop-nil (suc n) = refl

drop-add : (n o : ℕ) (xs : Bytes) → drop (n + o) xs ≡ drop n (drop o xs)
drop-add n zero xs = let e : n + 0 ≡ n = omega arith in rw e refl
drop-add n (suc o) [] = drop-nil (n + suc o) ∙ sym (drop-nil n)
drop-add n (suc o) (x ∷ xs) =
    let e : n + suc o ≡ suc (n + o) = omega arith in rw e (drop-add n o xs)

take-empty : (n : ℕ) (xs : Bytes) → 1 ≤ n → [] ≡ take n xs → xs ≡ []
take-empty zero xs h e = absurd (omega arith)
take-empty (suc n) [] h e = refl
take-empty (suc n) (x ∷ xs) h e = cc

module _ (fs : FileSystem) (fd limit : ℕ) (path : List Text) (e : Entry)
    (found : fs path ≡ some e) where
  -- The whole file was read, or more than the limit.
  unfoldable pub IsWhole : Bytes → Type 0
  IsWhole raw = (raw ≡ e.content) ⊎ ((suc limit ≤ length raw) × (suc limit ≤ length e.content))

  unfoldable pub Reads : List Call → Ran Bytes × List Call → Type 0
  Reads log out =
      (whole : Bytes) × (log' : List Call) × (out ≡ (value whole, log'))
      × IsWhole whole
      × Later log log'

  -- The bytes read so far, and those that are left.
  Stands : List Call → Bytes → Bytes → Type 0
  Stands log raw rest =
      Held log fd path × (drop (offset log fd) e.content ≡ rest) × (e.content ≡ raw ++ rest)

  beyond :
      (log : List Call) (raw rest : Bytes)
      → Stands log raw rest
      → suc limit ≤ length raw
      → IsWhole raw
  unfolding Stands IsWhole
  beyond log raw rest (held, left, all) h =
      let total = ap length all in let split = length-append raw rest in inr (h, omega arith)

  answered :
      (log : List Call) (raw rest : Bytes) (n : ℕ)
      → Stands log raw rest
      → read_answer (entry_at fs (path_of log fd)) (offset log fd) n ≡ value (take n rest)
  unfolding Stands Held
  answered log raw rest n ((at, lt), left, all) = rw at (rw found (rw left refl))

  moved :
      (log : List Call) (raw rest chunk : Bytes) (n : ℕ)
      → chunk ≡ take n rest
      → Stands log raw rest
      → Stands (read fd n ∷ log) (raw ++ chunk) (drop n rest)
  unfolding Stands Held path_of offset
  moved log raw rest chunk n got ((at, lt), left, all) =
      let same = alike fd in
      (
        (at, omega arith),
        rw same (drop-add n (offset log fd) e.content ∙ ap (drop n) left),
        all
            ∙ ap (λ l. raw ++ l) (sym (take-drop n rest))
            ∙ sym (append_assoc raw _ _)
            ∙ ap (λ l. (raw ++ l) ++ drop n rest) (sym got),
      )

  -- Behind one answer, if the rounds that are left come to the end.
  round :
      (next : Bytes → Io Bytes) (log : List Call) (raw rest chunk : Bytes) (n : ℕ)
      → 1 ≤ n
      → chunk ≡ take n rest
      → Stands log raw rest
      → ((c : ℕ) (more : Bytes)
          → Stands (read fd n ∷ log) (raw ++ c ∷ more) (drop n rest)
          → Reads (read fd n ∷ log) (next (raw ++ c ∷ more) (read fd n ∷ log)))
      → Reads log (continue (after_chunk next raw) (value chunk, read fd n ∷ log))
  unfolding Reads IsWhole Stands
  round next log raw rest [] n positive got (held, left, all) k = (
    raw,
    read fd n ∷ log,
    refl,
    inl (sym (all ∙ ap (λ l. raw ++ l) (take-empty n rest positive got) ∙ append-nil raw)),
    Later-read log fd n,
  )
  round next log raw rest (c ∷ more) n positive got stands k =
      let (whole, log', out, ends, later) = k c more (moved log raw rest (c ∷ more) n got stands) in
      (whole, log', out, ends, Later-trans _ _ _ (Later-read log fd n) later)

  room_left : (a : ℕ) → leb a limit ≡ true → 1 ≤ min chunk_size (limit + 1 - a)
  room_left a h = ground arith

  read_loop-Reads :
      (rounds : ℕ) (raw rest : Bytes) (log : List Call)
      → Stands log raw rest
      → suc limit ≤ length raw + rounds
      → Reads log (read_loop (quiet fs) fd limit rounds raw log)
  unfolding read_loop Reads do_read
  read_loop-Reads zero raw rest log stands h =
      (raw, log, refl, beyond log raw rest stands (omega arith), Later-same log)
  read_loop-Reads (suc rounds) raw rest log stands h = elim (Bool-cases (leb (length raw) limit)) [
    | inl room ↦ rw room (
        let n : ℕ = min chunk_size (limit + 1 - length raw) in
        let next : Bytes → Io Bytes = λ more. read_loop (quiet fs) fd limit rounds more in
        subst
          (λ (answer : Ran Bytes).
            Reads log (continue (after_chunk next raw) (answer, read fd n ∷ log)))
          (sym (answered log raw rest n stands))
          (round next log raw rest (take n rest) n (room_left (length raw) room) refl stands
            (λ c more stands'.
              let longer = length-append raw (c ∷ more) in
              read_loop-Reads rounds (raw ++ c ∷ more) (drop n rest) _ stands' (omega arith))))
    | inr full ↦
        rw full
          (raw, log, refl, beyond log raw rest stands (above (length raw) full), Later-same log)
  ]
    where
      above : (a : ℕ) → leb a limit ≡ false → suc limit ≤ a
      above a h = ground arith

  -- A bounded read of a descriptor that was just opened.
  pub read_all-Reads :
      (log : List Call)
      → Held log fd path
      → offset log fd ≡ 0
      → Reads log (read_all (quiet fs) fd limit log)
  unfolding read_all Stands
  read_all-Reads log held start =
      read_loop-Reads (suc limit) [] e.content log (held, rw start refl, refl) (omega arith)
