-- ===== src/Broker/Files/Balance.antt =====
-- What a bounded read of operator_fs.py leaves open, and which names it asks for.
use alertmind.Prelude.{ℕ, true, ◌≡◌, refl, ◌∙◌, List, [], ◌∷◌, All}
use alertmind.Text.{Text}
use alertmind.Broker.Core.{FileCheck}
use alertmind.Broker.Manifest.{path_parts}
use alertmind.Broker.Os.{
  Os, Call, opened_root, opened, followed, refused, stat_at, stat_followed, readlink, spawned, Ran,
  value, threw, Io, do_fstat, do_stat, do_read, closing, with_opened, with_root, with_open, demand,
}
use alertmind.Broker.Os.Balance.{
  held, Balanced, with_root-Balanced, with_open-Balanced, do_fstat-Balanced, do_stat-Balanced,
  do_read-Balanced,
}
use alertmind.Broker.Files.Trust.{Host, Owner, is_component, owners, check_platform, identity}
use alertmind.Broker.Files.Frame.{
  Keeps, Frame, bind-Keeps, demand-Keeps, read_root-Keeps, check_platform-Keeps, identity-Keeps,
  owners-Keeps,
}
use alertmind.Broker.Files.{read_native, with_codes, read_installed}

-- A look-up and an open ask for a single component, below a descriptor, without following a link,
-- and no process is started.
unfoldable pub IsConfined : Call → Type 0
IsConfined (opened parent name directory fd) = is_component name ≡ true
IsConfined (stat_at fd name) = is_component name ≡ true
IsConfined (followed _ _ _) = ⊥
IsConfined (stat_followed _ _) = ⊥
IsConfined (readlink _ _) = ⊥
IsConfined (spawned _ _) = ⊥
IsConfined _ = Unit

-- The log behind holds what the log before held of open descriptors, and adds confined calls.
unfoldable pub Orderly : List Call → List Call → Type 0
Orderly before behind =
    (held behind ≡ held before) × (All IsConfined before → All IsConfined behind)

IsConfined-open :
    {A : Type 0} (event : ℕ → Call) (failed : Call) (o : Ran ℕ) (block : ℕ → Io A) (log : List Call)
    → ((fd : ℕ) → IsConfined (event fd))
    → IsConfined failed
    → ((fd : ℕ) → Keeps Orderly (block fd))
    → All IsConfined log
    → All IsConfined (with_opened event failed o block log).1
unfolding Orderly closing IsConfined
IsConfined-open event failed (value fd) block log e f h c =
    (tt, (h fd (event fd ∷ log)).1 (e fd, c))
IsConfined-open event failed (threw x) block log e f h c = (f, c)

pub orderly : Frame Orderly
unfolding Orderly Balanced do_fstat do_stat do_read with_open with_root IsConfined
orderly = record {
  same = λ l. (refl, λ c. c);
  after = λ l m n a b. (b.0 ∙ a.0, λ c. b.1 (a.1 c));
  fstats = λ os fd log. (do_fstat-Balanced os fd log, λ c. (tt, c));
  reads = λ os fd n log. (do_read-Balanced os fd n log, λ c. (tt, c));
  stats = λ os fd name safe log. (do_stat-Balanced os fd name log, λ c. (safe, c));
  opens = λ os parent name directory block safe h log. (
    with_open-Balanced os parent name directory block (λ fd l. (h fd l).0) log,
    IsConfined-open (opened parent name directory) (refused parent name)
        (os.open_at log parent name directory) block log (λ _. safe) tt h,
  );
  roots = λ os block h log. (
    with_root-Balanced os block (λ fd l. (h fd l).0) log,
    IsConfined-open opened_root (refused 0 []) (os.open_root log) block log (λ _. tt) tt h,
  );
}

module _ (os : Os) where
  with_codes-Orderly : {A : Type 0} (m : Io A) → Keeps Orderly m → Keeps Orderly (with_codes m)
  unfolding with_codes
  with_codes-Orderly m h = h

  read_native-Orderly :
      (parts : List Text) (limit : ℕ) (service : Owner)
      → Keeps Orderly (read_native os parts limit service)
  unfolding read_native
  read_native-Orderly parts limit service =
      read_root-Keeps orderly os parts limit (owners service) (owners-Keeps orderly service)

  -- Whatever the system answers, and whether the read succeeds or not, a read of an installed file
  -- leaves open exactly the descriptors that were open before, and it looks up and opens single
  -- components only, each relative to a descriptor and without following a link.
  pub read_installed-Orderly :
      (host : Host) (checks : List FileCheck) (path : Text) (limit : ℕ) (log : List Call)
      → let behind = (read_installed os host checks path limit log).1 in
        (held behind ≡ held log) × (All IsConfined log → All IsConfined behind)
  unfolding Orderly read_installed
  read_installed-Orderly host checks path limit =
      bind-Keeps orderly (demand _ _) _ (demand-Keeps orderly _ _) (λ _. with_codes-Orderly _ (
        bind-Keeps orderly (check_platform host) _ (check_platform-Keeps orderly host) (λ _.
          bind-Keeps orderly (identity host) _ (identity-Keeps orderly host)
            (λ service. read_native-Orderly (path_parts path) limit service))))
