-- ===== src/Broker/Process/Balance.antt =====
-- What a look at the running process leaves open.
use alertmind.Prelude.{ℕ, Bool, true, false, List, [], ◌∷◌, ◌≡◌, String}
use alertmind.Text.{Text}
use alertmind.Platform.{Platform}
use alertmind.Json.{Fields}
use alertmind.Broker.Os.{
  Os, Call, Io, ◌>>◌, demand, lift, do_fstat, do_stat, do_stat_followed, do_readlink,
}
use alertmind.Broker.Os.Balance.{
  held, Balanced, pure-Balanced, lift-Balanced, demand-Balanced, bind-Balanced, with_root-Balanced,
  with_open-Balanced, with_followed-Balanced, do_fstat-Balanced, do_stat-Balanced,
  do_stat_followed-Balanced, do_readlink-Balanced,
}
use alertmind.Broker.Files.{read_all}
use alertmind.Broker.Files.Frame.{read_loop-Keeps, identity-Keeps}
use alertmind.Broker.Files.Balance.{orderly}
use alertmind.Broker.Files.Trust.{Host, Owner, identity, check_trusted}
use alertmind.Broker.Service.{read_configuration, check_tool}
use alertmind.Broker.Service.Balance.{
  Orderly-Balanced, check_tool-Balanced, read_configuration-Balanced,
}
use alertmind.Broker.Process.{
  with_directory, read_small, executable, look, native_snapshot, read_anchor, anchored_snapshot,
  observed, with_io_code, observe_running_process,
}

-- A test in front of a run.
tested :
    {B : Type 0} (b : Bool) (code : String) (rest : Io B)
    → Balanced rest
    → Balanced (demand b code >> rest)
tested b code rest h = bind-Balanced (demand b code) _ (demand-Balanced b code) (λ _. h)

module _ (os : Os) where
  read_all-Balanced : (fd limit : ℕ) → Balanced (read_all os fd limit)
  unfolding read_all
  read_all-Balanced fd limit = Orderly-Balanced _ (read_loop-Keeps orderly os fd limit _ [])

  with_directory-Balanced :
      {A : Type 0} (parent : ℕ) (name : Text) (allowed : List Owner) (block : ℕ → Io A)
      → ((fd : ℕ) → Balanced (block fd))
      → Balanced (with_directory os parent name allowed block)
  unfolding with_directory check_trusted
  with_directory-Balanced parent name allowed block h =
      bind-Balanced (do_stat os parent name) _ (do_stat-Balanced os parent name) (λ before.
        tested _ _ _ (
          with_open-Balanced os parent name true _ (λ fd.
            bind-Balanced (do_fstat os fd) _ (do_fstat-Balanced os fd)
              (λ now. tested _ _ _ (h fd)))))

  read_small-Balanced :
      (directory : ℕ) (name : Text) (limit : ℕ) (allowed : List Owner)
      → Balanced (read_small os directory name limit allowed)
  unfolding read_small check_trusted
  read_small-Balanced directory name limit allowed =
      bind-Balanced (do_stat os directory name) _ (do_stat-Balanced os directory name) (λ before.
        tested _ _ _ (
          with_open-Balanced os directory name false _ (λ fd.
            bind-Balanced (do_fstat os fd) _ (do_fstat-Balanced os fd) (λ opened. tested _ _ _ (
              bind-Balanced (read_all os fd limit) _ (read_all-Balanced fd limit) (λ raw.
                tested _ _ _ (
                  bind-Balanced (do_fstat os fd) _ (do_fstat-Balanced os fd) (λ now. tested _ _ _ (
                    bind-Balanced (do_stat os directory name) _ (do_stat-Balanced os directory name)
                      (λ named. tested _ _ _ (pure-Balanced raw)))))))))))

  module _ ⦃p : Platform⦄ where
    executable-Balanced :
        (directory : ℕ) (allowed : List Owner) → Balanced (executable os directory allowed)
    unfolding executable check_trusted
    executable-Balanced directory allowed =
        bind-Balanced (do_readlink os directory _) _ (do_readlink-Balanced os directory _) (λ link.
          tested _ _ _ (
            with_followed-Balanced os directory _ _ (λ fd.
              bind-Balanced (do_fstat os fd) _ (do_fstat-Balanced os fd) (λ before. tested _ _ _ (
                tested _ _ _ (
                  bind-Balanced (read_all os fd _) _ (read_all-Balanced fd _) (λ raw. tested _ _ _ (
                    bind-Balanced (do_fstat os fd) _ (do_fstat-Balanced os fd) (λ now.
                      tested _ _ _ (
                        bind-Balanced (do_stat_followed os directory _) _
                          (do_stat_followed-Balanced os directory _)
                          (λ named. tested _ _ _ (
                            bind-Balanced (do_readlink os directory _) _
                              (do_readlink-Balanced os directory _)
                              (λ link'. tested _ _ _ (tested _ _ _ (pure-Balanced _)))))))))))))))

    look-Balanced :
        (pid : ℕ) (service : Owner) (proc directory : ℕ)
        → Balanced (look os pid service proc directory)
    unfolding look
    look-Balanced pid service proc directory =
        let small = λ (name : Text) (limit : ℕ).
          read_small-Balanced directory name limit ((0, 0) ∷ service ∷ []) in
        bind-Balanced (do_fstat os directory) _ (do_fstat-Balanced os directory) (λ initial.
          bind-Balanced (read_small os directory _ _ _) _ (small _ _) (λ stat.
            bind-Balanced (lift _) _ (lift-Balanced _) (λ start.
              bind-Balanced (read_small os directory _ _ _) _ (small _ _) (λ status.
                bind-Balanced (lift _) _ (lift-Balanced _) (λ _.
                  bind-Balanced (read_small os directory _ _ _) _ (small _ _) (λ cmdline.
                    bind-Balanced (read_small os directory _ _ _) _ (small _ _) (λ environment.
                      bind-Balanced (lift _) _ (lift-Balanced _) (λ _.
                        bind-Balanced (lift _) _ (lift-Balanced _) (λ _.
                          bind-Balanced (executable os directory _) _
                            (executable-Balanced directory _)
                            (λ inode.
                              bind-Balanced (read_small os directory _ _ _) _ (small _ _)
                                (λ status'. bind-Balanced (lift _) _ (lift-Balanced _) (λ _.
                                  bind-Balanced (read_small os directory _ _ _) _ (small _ _)
                                    (λ stat'. bind-Balanced (lift _) _ (lift-Balanced _) (λ start'.
                                      tested _ _ _ (
                                        bind-Balanced (do_fstat os directory) _
                                          (do_fstat-Balanced os directory)
                                          (λ now. tested _ _ _ (
                                            bind-Balanced (do_stat os proc _) _
                                              (do_stat-Balanced os proc _)
                                              (λ named.
                                                tested _ _ _ (pure-Balanced _)))))))))))))))))))

    native_snapshot-Balanced :
        (pid : ℕ) (service : Owner) → Balanced (native_snapshot os pid service)
    unfolding native_snapshot check_trusted
    native_snapshot-Balanced pid service = bind-Balanced (lift _) _ (lift-Balanced _) (λ _.
        with_root-Balanced os _ (λ root.
          bind-Balanced (do_fstat os root) _ (do_fstat-Balanced os root) (λ root_stat.
            tested _ _ _ (
              with_directory-Balanced root _ _ _
                (λ proc. with_directory-Balanced proc _ _ _ (look-Balanced pid service proc))))))

    read_anchor-Balanced : Balanced (read_anchor os)
    unfolding read_anchor
    read_anchor-Balanced =
        bind-Balanced (read_configuration os) _ (read_configuration-Balanced os) (λ values.
          tested _ _ _ (
            bind-Balanced (lift _) _ (lift-Balanced _)
              (λ _. tested _ _ _ (tested _ _ _ (pure-Balanced values)))))

module _ ⦃p : Platform⦄ (os : Os) (host : Host) where
  anchored_snapshot-Balanced :
      (service : Owner) (anchor : Fields) → Balanced (anchored_snapshot os host service anchor)
  unfolding anchored_snapshot
  anchored_snapshot-Balanced service anchor =
      bind-Balanced (native_snapshot os _ service) _ (native_snapshot-Balanced os _ service)
        (λ snapshot.
          bind-Balanced (read_anchor os) _ (read_anchor-Balanced os)
            (λ again. tested _ _ _ (pure-Balanced snapshot)))

  observed-Balanced : Balanced (observed os host)
  unfolding observed
  observed-Balanced =
      bind-Balanced (identity host) _ (Orderly-Balanced _ (identity-Keeps orderly host)) (λ service.
        bind-Balanced (read_anchor os) _ (read_anchor-Balanced os) (λ anchor.
          bind-Balanced (anchored_snapshot os host service anchor) _
            (anchored_snapshot-Balanced service anchor)
            (λ first.
              bind-Balanced (anchored_snapshot os host service anchor) _
                (anchored_snapshot-Balanced service anchor)
                (λ second. tested _ _ _ (
                  bind-Balanced (lift _) _ (lift-Balanced _) (λ arguments.
                    bind-Balanced (lift _) _ (lift-Balanced _)
                      (λ environment. pure-Balanced _)))))))

  -- Whatever the system answers, and whether the observation succeeds or not, a look at the running
  -- process leaves open exactly the descriptors that were open before: every file, directory and
  -- pipe that it opened is closed again, the last one first.
  pub observe_running_process-Balanced :
      (log : List Call) → held (observe_running_process os host log).1 ≡ held log
  unfolding observe_running_process with_io_code Balanced
  observe_running_process-Balanced =
      bind-Balanced (check_tool os host) _ (check_tool-Balanced os host)
        (λ _ log. observed-Balanced log)
