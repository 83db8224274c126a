-- ===== src/Broker/Files/Frame.antt =====
-- What a bounded read of operator_fs.py does to the log of the calls, for any relation between the
-- log before and the log behind that the single calls respect.
use alertmind.Prelude.{
  ℕ, Bool, true, false, ◌&&◌, ◌||◌, String, List, [], ◌∷◌, ◌++◌, ◌≡◌, all, length, ltb, leb, zero,
  suc, All, Bool-cases, inl, inr, arith, refl, Option, some, none,
}
use alertmind.Text.{Text}
use alertmind.Platform.{Bytes}
use alertmind.Result.{Result, ok, err, require}
use alertmind.Broker.Os.{
  Os, Call, Stat, Ran, value, threw, Io, continue, ◌>>=◌, ◌>>◌, demand, lift, do_fstat, do_stat,
  do_read, with_root, with_open,
}
use alertmind.Broker.Files.Trust.{
  Owner, is_component, check_components, check_bound, check_trusted, Host, check_platform, identity,
  identity_of, owners,
}
use alertmind.Broker.Files.{
  Record, after_chunk, read_loop, read_all, recheck, read_file, open_part, walk_parts, read_at,
  read_root,
}

abbrev pub Keeps {ℓ} : {A : Type ℓ} → (List Call → List Call → Type 0) → Io A → Type 0
Keeps R m = (log : List Call) → R log (m log).1

-- The relation holds of the calls that a read makes: a component is only looked up and opened by a
-- name that is one.
pub record Frame (R : List Call → List Call → Type 0) : Type 1 where
  pub same : (l : List Call) → R l l
  pub after : (l m n : List Call) → R l m → R m n → R l n
  pub fstats : (os : Os) (fd : ℕ) → Keeps R (do_fstat os fd)
  pub reads : (os : Os) (fd n : ℕ) → Keeps R (do_read os fd n)
  pub stats :
      (os : Os) (fd : ℕ) (name : Text) → is_component name ≡ true → Keeps R (do_stat os fd name)
  pub opens :
      {A : Type 0} (os : Os) (parent : ℕ) (name : Text) (directory : Bool) (block : ℕ → Io A)
      → is_component name ≡ true
      → ((fd : ℕ) → Keeps R (block fd))
      → Keeps R (with_open os parent name directory block)
  pub roots :
      {A : Type 0} (os : Os) (block : ℕ → Io A)
      → ((fd : ℕ) → Keeps R (block fd))
      → Keeps R (with_root os block)

pub third : (a b c : Bool) → a && b && c ≡ true → c ≡ true
third a b c h = ground arith

module _ {R : List Call → List Call → Type 0} (frame : Frame R) where
  pub bind-Keeps {ℓ κ} :
      {A : Type ℓ} {B : Type κ} (m : Io A) (f : A → Io B)
      → Keeps R m
      → ((a : A) → Keeps R (f a))
      → Keeps R (m >>= f)
  bind-Keeps {A = A} m f h k log = frame.after log (m log).1 _ (h log) (next (m log))
    where
      next : (out : Ran A × List Call) → R out.1 (continue f out).1
      next (value a, log') = k a log'
      next (threw e, log') = frame.same log'

  pub demand-Keeps : (b : Bool) (code : String) → Keeps R (demand b code)
  unfolding demand
  demand-Keeps true code log = frame.same log
  demand-Keeps false code log = frame.same log

  pub lift-Keeps {ℓ} : {A : Type ℓ} (r : Result A) → Keeps R (lift r)
  unfolding lift
  lift-Keeps (ok a) log = frame.same log
  lift-Keeps (err code) log = frame.same log

  -- A test in front of a run: behind it the test held.
  pub require-Keeps {ℓ} :
      {B : Type ℓ} (b : Bool) (code : String) (rest : Io B)
      → (b ≡ true → Keeps R rest)
      → Keeps R (lift (require b code) >> rest)
  unfolding lift require
  require-Keeps true code rest h log = h refl log
  require-Keeps false code rest h log = frame.same log

  both_true : (a b : Bool) → a && b ≡ true → (a ≡ true) × (b ≡ true)
  both_true true b h = (refl, h)
  both_true false b h = absurd (cc)

  module _ (os : Os) where
    chunk_Keeps :
        (fd limit rounds : ℕ) (raw : Bytes)
        → ((more : Bytes) → Keeps R (read_loop os fd limit rounds more))
        → (chunk : Bytes)
        → Keeps R (after_chunk (λ more. read_loop os fd limit rounds more) raw chunk)
    chunk_Keeps fd limit rounds raw h [] = frame.same
    chunk_Keeps fd limit rounds raw h (c ∷ more) = h (raw ++ c ∷ more)

    pub read_loop-Keeps :
        (fd limit rounds : ℕ) (raw : Bytes) → Keeps R (read_loop os fd limit rounds raw)
    unfolding read_loop
    read_loop-Keeps fd limit zero raw = frame.same
    read_loop-Keeps fd limit (suc rounds) raw = elim (Bool-cases (leb (length raw) limit)) [
      | inl room ↦ rw room (
          bind-Keeps (do_read os fd _) _ (frame.reads os fd _)
            (chunk_Keeps fd limit rounds raw (read_loop-Keeps fd limit rounds)))
      | inr full ↦ rw full frame.same
    ]

    HasNames : List Record → Type 0
    HasNames records = All (λ (r : Record). is_component r.name ≡ true) records

    recheck-Keeps : (records : List Record) → HasNames records → Keeps R (recheck os records)
    unfolding recheck HasNames
    recheck-Keeps [] h = frame.same
    recheck-Keeps (r ∷ records) (here, later) =
        bind-Keeps (do_fstat os r.fd) _ (frame.fstats os r.fd) (λ now.
          bind-Keeps (demand _ _) _ (demand-Keeps _ _) (λ _.
            bind-Keeps (do_stat os r.parent r.name) _ (frame.stats os r.parent r.name here)
              (λ named.
                bind-Keeps (demand _ _) _ (demand-Keeps _ _) (λ _. recheck-Keeps records later))))

    module _ (limit : ℕ) (owners_for : List Text → Io (List Owner))
        (owned : (parts : List Text) → Keeps R (owners_for parts)) (root : ℕ)
        (root_before : Stat) where
      read_file-Keeps :
          (fd : ℕ) (before : Stat) (records : List Record)
          → HasNames records
          → Keeps R (read_file os limit owners_for root root_before fd before records)
      unfolding read_file read_all
      read_file-Keeps fd before records h =
          bind-Keeps (read_loop os fd limit (suc limit) []) _
            (read_loop-Keeps fd limit (suc limit) [])
            (λ raw. bind-Keeps (demand _ _) _ (demand-Keeps _ _) (λ _.
              bind-Keeps (recheck os records) _ (recheck-Keeps records h) (λ _.
                bind-Keeps (do_fstat os root) _ (frame.fstats os root)
                  (λ root_now. bind-Keeps (demand _ _) _ (demand-Keeps _ _) (λ _. frame.same)))))

      open_part-Keeps :
          (parent : ℕ) (above : List Text) (name : Text) (directory : Bool)
          (next : ℕ → Stat → Io Bytes)
          → is_component name ≡ true
          → ((fd : ℕ) (before : Stat) → Keeps R (next fd before))
          → Keeps R
              (open_part os limit owners_for root root_before parent above name directory next)
      unfolding open_part check_trusted
      open_part-Keeps parent above name directory next safe h =
          bind-Keeps (owners_for _) _ (owned _) (λ allowed.
            bind-Keeps (do_stat os parent name) _ (frame.stats os parent name safe) (λ before.
              bind-Keeps (demand _ _) _ (demand-Keeps _ _) (λ _.
                bind-Keeps (demand _ _) _ (demand-Keeps _ _) (λ _.
                  frame.opens os parent name directory _ safe (λ fd.
                    bind-Keeps (do_fstat os fd) _ (frame.fstats os fd) (λ opened.
                      bind-Keeps (demand _ _) _ (demand-Keeps _ _)
                        (λ _. bind-Keeps (demand _ _) _ (demand-Keeps _ _) (λ _. h fd before))))))))

      walk_parts-Keeps :
          (parent : ℕ) (above parts : List Text) (records : List Record)
          → all is_component parts ≡ true
          → HasNames records
          → Keeps R (walk_parts os limit owners_for root root_before parent above parts records)
      unfolding walk_parts HasNames
      walk_parts-Keeps parent above [] records safe h = frame.same
      walk_parts-Keeps parent above (name ∷ []) records safe h =
          let (here, _) = both_true (is_component name) _ safe in
          open_part-Keeps parent above name false _ here
            (λ fd before. read_file-Keeps fd before _ (here, h))
      walk_parts-Keeps parent above (name ∷ child ∷ below) records safe h =
          let (here, later) = both_true (is_component name) _ safe in
          open_part-Keeps parent above name true _ here
            (λ fd before. walk_parts-Keeps fd _ (child ∷ below) _ later (here, h))

    pub read_at-Keeps :
        (root : ℕ) (parts : List Text) (limit : ℕ) (owners_for : List Text → Io (List Owner))
        → ((above : List Text) → Keeps R (owners_for above))
        → Keeps R (read_at os root parts limit owners_for)
    unfolding read_at check_components check_bound check_trusted HasNames
    read_at-Keeps root parts limit owners_for owned = require-Keeps _ _ _ (λ safe.
        require-Keeps _ _ _ (λ _.
          bind-Keeps (do_fstat os root) _ (frame.fstats os root) (λ root_before.
            bind-Keeps (owners_for []) _ (owned []) (λ allowed.
              bind-Keeps (demand _ _) _ (demand-Keeps _ _) (λ _.
                walk_parts-Keeps limit owners_for owned root root_before root [] parts []
                  (third (false || ltb 0 (length parts)) (leb (length parts) 128)
                    (all is_component parts) safe)
                  tt)))))

    pub read_root-Keeps :
        (parts : List Text) (limit : ℕ) (owners_for : List Text → Io (List Owner))
        → ((above : List Text) → Keeps R (owners_for above))
        → Keeps R (read_root os parts limit owners_for)
    unfolding read_root check_components check_bound
    read_root-Keeps parts limit owners_for owned = require-Keeps _ _ _ (λ _.
        require-Keeps _ _ _
          (λ _. frame.roots os _ (λ root. read_at-Keeps root parts limit owners_for owned)))

  pub check_platform-Keeps : (host : Host) → Keeps R (check_platform host)
  unfolding check_platform
  check_platform-Keeps host =
      bind-Keeps (demand _ _) _ (demand-Keeps _ _)
        (λ _. bind-Keeps (demand _ _) _ (demand-Keeps _ _) (λ _. demand-Keeps _ _))

  identity_of-Keeps :
      (user : Option (Text × ℕ × ℕ)) (group : Option (Text × ℕ)) → Keeps R (identity_of user group)
  identity_of-Keeps (some u) (some g) =
      bind-Keeps (demand _ _) _ (demand-Keeps _ _) (λ _. frame.same)
  identity_of-Keeps (some u) none = frame.same
  identity_of-Keeps none g = frame.same

  pub identity-Keeps : (host : Host) → Keeps R (identity host)
  unfolding identity
  identity-Keeps host = identity_of-Keeps host.user host.group

  pub owners-Keeps : (service : Owner) (parts : List Text) → Keeps R (owners service parts)
  unfolding owners
  owners-Keeps service parts =
      bind-Keeps (lift (check_components true parts)) _ (lift-Keeps _) (λ _. frame.same)
