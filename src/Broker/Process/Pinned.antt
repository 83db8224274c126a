-- ===== src/Broker/Process/Pinned.antt =====
-- What an observation of the running process establishes.
use alertmind.Prelude.{
  ℕ, ◌≤◌, Bool, true, false, ◌&&◌, List, [], ◌∷◌, ◌≡◌, ap, ◌∙◌, length, leb→le, nat_eq, nat_eq_iff,
  sym,
}
use alertmind.Text.{Text, text, nat_text}
use alertmind.Text.Laws.{text_eq_sound}
use alertmind.Platform.{Platform, Bytes}
use alertmind.Json.{Fields}
use alertmind.Result.{ok}
use alertmind.Broker.Core.{node, packaged_linux_node_sha256}
use alertmind.Broker.Os.{
  Os, Call, opened_root, opened, followed, fstat, stat_at, readlink, operator, os_error, expired,
  Ran, value, threw, Io, do_fstat, do_stat, do_stat_followed, do_readlink, with_root, with_open,
  with_followed,
}
use alertmind.Broker.Os.After.{
  first_value, after_value, after_run, after_open, after_demand, after_computed, value-injective,
  demanded,
}
use alertmind.Broker.Files.{read_all}
use alertmind.Broker.Files.Trust.{Host, Owner, identity, check_trusted, check_platform}
use alertmind.Broker.Service.{check_tool}
use alertmind.Broker.Process.Records.{
  stat_limit, status_limit, cmdline_limit, environ_limit, nul_fields,
}
use alertmind.Broker.Process.{
  Snapshot, ProcessObservation, recoded, with_directory, read_small, executable, executable_limit,
  look, native_snapshot, read_anchor, main_pid, anchored_snapshot, observed, observation_of,
  same_snapshot, with_io_code, observe_running_process,
}

module _ ⦃p : Platform⦄ (os : Os) where
  abbrev exe : Text
  exe = text "exe"

  -- At this moment of a run the link `exe` of an open directory is that of the packaged program, and
  -- behind it the file that the link leads to is opened, and read whole with the pinned digest.
  pub IsExecutable : ℕ → List Call → Type 0
  IsExecutable directory log =
      (fd : ℕ) × (raw : Bytes) × (os.read_link log directory exe ≡ value node)
      × (os.open_followed (readlink directory exe ∷ log) directory exe ≡ value fd)
      × ((read_all os fd executable_limit
            (fstat fd ∷ followed directory exe fd ∷ readlink directory exe ∷ log)).0
          ≡ value raw)
      × (p.sha256 raw ≡ packaged_linux_node_sha256)
      × (length raw ≤ executable_limit)

  -- In the open directory of a process a look reads the arguments and the environment that the
  -- snapshot holds, and then the pinned executable, each at its moment of the run.
  pub IsSeen : ℕ → Owner → Snapshot → List Call → Type 0
  IsSeen directory service s log =
      let small =
        λ (name : Text) (limit : ℕ). read_small os directory name limit ((0, 0) ∷ service ∷ []) in
      let l1 = (small (text "stat") stat_limit (fstat directory ∷ log)).1 in
      let l2 = (small (text "status") status_limit l1).1 in
      let l3 = (small (text "cmdline") cmdline_limit l2).1 in
      ((small (text "cmdline") cmdline_limit l2).0 ≡ value s.cmdline)
      × ((small (text "environ") environ_limit l3).0 ≡ value s.environment)
      × IsExecutable directory (small (text "environ") environ_limit l3).1

  -- The directory is the one that `/proc/<pid>` is opened as at this moment, from the root downwards.
  pub IsPinned : ℕ → Owner → Snapshot → List Call → Type 0
  IsPinned pid service s log =
      (root : ℕ) × (proc : ℕ) × (directory : ℕ) × (os.open_root log ≡ value root)
      × (let l1 = stat_at root (text "proc") ∷ fstat root ∷ opened_root root ∷ log in
          let l2 =
            stat_at proc (nat_text pid) ∷ fstat proc ∷ opened root (text "proc") true proc ∷ l1 in
          (os.open_at l1 root (text "proc") true ≡ value proc)
          × (os.open_at l2 proc (nat_text pid) true ≡ value directory)
          × IsSeen directory service s
              (fstat directory ∷ opened proc (nat_text pid) true directory ∷ l2))

  right : (a b : Bool) → a && b ≡ true → b ≡ true
  right true b h = h
  right false b h = absurd (cc)

  executable-IsExecutable :
      (directory : ℕ) (allowed : List Owner) (inode : ℕ × ℕ) (log : List Call)
      → (executable os directory allowed log).0 ≡ value inode
      → IsExecutable directory log
  unfolding executable check_trusted with_followed do_readlink do_fstat IsExecutable
  executable-IsExecutable directory allowed inode log h =
      after_run (do_readlink os directory exe) _ log h (λ link linked h1.
        after_demand _ _ _ _ h1 (λ named h2.
          after_open _ _ (os.open_followed (readlink directory exe ∷ log) directory exe) _ _ h2
            (λ fd found h3. after_run (do_fstat os fd) _ _ h3 (λ before _ h4.
              after_demand _ _ _ _ h4 (λ _ h5. after_demand _ _ _ _ h5 (λ _ h6.
                after_run (read_all os fd _) _ _ h6 (λ raw read h7.
                  after_demand _ _ _ _ h7 (λ sized h8.
                    after_value (do_fstat os fd) _ _ h8 (λ now l5 h9.
                      after_demand _ _ _ l5 h9 (λ _ h10.
                        after_value (do_stat_followed os directory _) _ l5 h10 (λ named' l6 h11.
                          after_demand _ _ _ l6 h11 (λ _ h12.
                            after_value (do_readlink os directory _) _ l6 h12 (λ link' l7 h13.
                              after_demand _ _ _ l7 h13 (λ _ h14.
                                after_demand _ _ _ l7 h14 (λ digest _. (
                                  fd,
                                  raw,
                                  linked ∙ ap value (text_eq_sound _ _ named),
                                  found,
                                  read,
                                  text_eq_sound _ _ digest,
                                  leb→le _ _ (right (nat_eq (length raw) before.size) _ sized),
                                ))))))))))))))))

  look-IsSeen :
      (pid : ℕ) (service : Owner) (proc directory : ℕ) (s : Snapshot) (log : List Call)
      → (look os pid service proc directory log).0 ≡ value s
      → IsSeen directory service s log
  unfolding look do_fstat IsSeen
  look-IsSeen pid service proc directory s log h =
      after_run (do_fstat os directory) _ log h (λ initial _ h1.
        after_run (read_small os directory _ _ _) _ _ h1 (λ stat _ h2.
          after_computed _ _ _ h2 (λ start _ h3.
            after_run (read_small os directory _ _ _) _ _ h3 (λ status _ h4.
              after_computed _ _ _ h4 (λ _ _ h5.
                after_run (read_small os directory _ _ _) _ _ h5 (λ cmdline given h6.
                  after_run (read_small os directory _ _ _) _ _ h6 (λ environment around h7.
                    after_computed _ _ _ h7 (λ _ _ h8. after_computed _ _ _ h8 (λ _ _ h9.
                      after_run (executable os directory _) _ _ h9 (λ inode ran h10.
                        after_value (read_small os directory _ _ _) _ _ h10 (λ status' l1 h11.
                          after_computed _ _ l1 h11 (λ _ _ h12.
                            after_value (read_small os directory _ _ _) _ l1 h12 (λ stat' l2 h13.
                              after_computed _ _ l2 h13 (λ start' _ h14.
                                after_demand _ _ _ l2 h14 (λ _ h15.
                                  after_value (do_fstat os directory) _ l2 h15 (λ now l3 h16.
                                    after_demand _ _ _ l3 h16 (λ _ h17.
                                      after_value (do_stat os proc _) _ l3 h17 (λ named l4 h18.
                                        after_demand _ _ _ l4 h18 (λ _ h19.
                                          let same = value-injective h19 in
                                          (
                                            given ∙ ap (λ (x : Snapshot). value x.cmdline) same,
                                            around
                                                ∙ ap (λ (x : Snapshot). value x.environment) same,
                                            executable-IsExecutable directory _ inode _ ran,
                                          ))))))))))))))))))))

  opened_directory {μ} :
      {A : Type 0} {P : Type μ} (parent : ℕ) (name : Text) (allowed : List Owner) (block : ℕ → Io A)
      (a : A) (log : List Call)
      → (with_directory os parent name allowed block log).0 ≡ value a
      → ((fd : ℕ)
          → os.open_at (stat_at parent name ∷ log) parent name true ≡ value fd
          → (block fd (fstat fd ∷ opened parent name true fd ∷ stat_at parent name ∷ log)).0
            ≡ value a
          → P)
      → P
  unfolding with_directory with_open check_trusted do_stat do_fstat
  opened_directory parent name allowed block a log h k =
      after_run (do_stat os parent name) _ log h (λ before _ h1. after_demand _ _ _ _ h1 (λ _ h2.
        after_open _ _ (os.open_at (stat_at parent name ∷ log) parent name true) _ _ h2
          (λ fd found h3.
            after_run (do_fstat os fd) _ _ h3
              (λ now _ h4. after_demand _ _ _ _ h4 (λ _ h5. k fd found h5)))))

  native_snapshot-IsPinned :
      (pid : ℕ) (service : Owner) (s : Snapshot) (log : List Call)
      → (native_snapshot os pid service log).0 ≡ value s
      → IsPinned pid service s log
  unfolding native_snapshot check_trusted with_root do_fstat IsPinned
  native_snapshot-IsPinned pid service s log h = after_computed _ _ log h (λ _ _ h1.
      after_open _ _ (os.open_root log) _ log h1 (λ root found h2.
        after_run (do_fstat os root) _ _ h2 (λ root_stat _ h3. after_demand _ _ _ _ h3 (λ _ h4.
          opened_directory root (text "proc") _ _ s _ h4 (λ proc found' h5.
            opened_directory proc (nat_text pid) _ _ s _ h5 (λ directory found'' h6. (
              root,
              proc,
              directory,
              found,
              (found', found'', look-IsSeen pid service proc directory s _ h6),
            )))))))

recoded_value : {A : Type 0} (r : Ran A) {a : A} → recoded r ≡ value a → r ≡ value a
recoded_value (value b) h = h
recoded_value (threw (operator code)) h = absurd (cc)
recoded_value (threw (os_error n)) h = absurd (cc)
recoded_value (threw expired) h = absurd (cc)

module _ ⦃p : Platform⦄ (os : Os) (host : Host) where
  -- Both looks of the run, the second one behind the first, are at the main process of the
  -- configuration that was read before them, and agree; the observation counts what the second one
  -- holds.
  pub IsObserved : ProcessObservation → List Call → Type 0
  IsObserved o log =
      (service : Owner) × (anchor : Fields) × (first : Snapshot) × (second : Snapshot)
      × (arguments : List Bytes) × (environment : List Bytes) × (let start =
            (identity host log).1 in
          let l1 = (read_anchor os start).1 in
          let l2 = (anchored_snapshot os host service anchor l1).1 in
          ((identity host log).0 ≡ value service)
          × ((read_anchor os start).0 ≡ value anchor)
          × IsPinned os (main_pid anchor) service first l1
          × IsPinned os (main_pid anchor) service second l2
          × (same_snapshot first second ≡ true)
          × (nul_fields false second.cmdline ≡ ok arguments)
          × (nul_fields true second.environment ≡ ok environment)
          × (o ≡ observation_of arguments environment))

  anchored_snapshot-IsPinned :
      (service : Owner) (anchor : Fields) (s : Snapshot) (log : List Call)
      → (anchored_snapshot os host service anchor log).0 ≡ value s
      → IsPinned os (main_pid anchor) service s log
  unfolding anchored_snapshot
  anchored_snapshot-IsPinned service anchor s log h =
      after_run (native_snapshot os (main_pid anchor) service) _ log h (λ t ran h1.
        after_value (read_anchor os) _ _ h1 (λ again l1 h2. after_demand _ _ _ l1 h2 (λ _ h3.
          native_snapshot-IsPinned os (main_pid anchor) service s log
            (ran ∙ ap value (value-injective h3)))))

  observed-IsObserved :
      (o : ProcessObservation) (log : List Call)
      → (observed os host log).0 ≡ value o
      → IsObserved o log
  unfolding observed IsObserved
  observed-IsObserved o log h = after_run (identity host) _ log h (λ service known h1.
      after_run (read_anchor os) _ _ h1 (λ anchor read h2.
        after_run (anchored_snapshot os host service anchor) _ _ h2 (λ first e1 h3.
          after_run (anchored_snapshot os host service anchor) _ _ h3 (λ second e2 h4.
            after_demand _ _ _ _ h4 (λ same h5. after_computed _ _ _ h5 (λ arguments ea h6.
              after_computed _ _ _ h6 (λ environment ee h7. (
                service,
                anchor,
                first,
                second,
                arguments,
                environment,
                (
                  known,
                  read,
                  anchored_snapshot-IsPinned service anchor first _ e1,
                  anchored_snapshot-IsPinned service anchor second _ e2,
                  same,
                  ea,
                  ee,
                  sym (value-injective h7),
                ),
              ))))))))

  -- An observation of the running process is made by root. Behind the check of the tool, its run
  -- reads the configuration and looks twice, with the same result, at the main process that it names:
  -- from the root it opens `/proc`, in it the directory of that process, reads there the arguments
  -- and the environment, and whole, within the limit and with the pinned digest, the file that `exe`
  -- leads to, which is the packaged program. The counts are those of these arguments and this
  -- environment.
  pub observe_running_process-IsPinned :
      (o : ProcessObservation) (log : List Call)
      → (observe_running_process os host log).0 ≡ value o
      → (host.euid ≡ 0) × IsObserved o (check_tool os host log).1
  unfolding observe_running_process with_io_code check_tool check_platform
  observe_running_process-IsPinned o log h =
      let (_, e) = first_value (check_tool os host) _ log h in
      let (_, e') = first_value (check_platform host) _ log e in
      after_run (check_tool os host) _ log h (λ _ _ h1. (
        after_demand _ _ _ log e'
            (λ _ h2. after_demand _ _ _ log h2 (λ _ h3. (nat_eq_iff _ _).0 (demanded _ _ log h3))),
        observed-IsObserved o _ (recoded_value _ h1),
      ))
