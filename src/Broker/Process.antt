-- ===== src/Broker/Process.antt =====
-- operator_process.py: two looks at the process of the service, between readings of its
-- configuration.
pub mod Records
pub mod Balance
pub mod Pinned
use alertmind.Prelude.{
  ℕ, ◌*◌, ◌^◌, ℤ, pos, negsuc, Bool, true, false, not, ◌&&◌, ◌||◌, List, [], ◌∷◌, Option, none,
  some, any, length, leb, ltb, nat_eq,
}
use alertmind.Text.{Text, text, text_eq, is_one_of, nat_text}
use alertmind.Platform.{Platform, Bytes}
use alertmind.Json.{Json, int, str, Fields}
use alertmind.Json.Dict.{get}
use alertmind.Json.Equal.{fields_eq}
use alertmind.Result.{Result, ok, err}
use alertmind.Broker.Core.{node, packaged_linux_node_sha256, mebibyte}
use alertmind.Broker.Recovery.{is_text}
use alertmind.Broker.Os.{
  Os, Stat, Failure, operator, os_error, Ran, value, threw, Io, ◌>>=◌, ◌>>◌, pure, raise, demand,
  lift, do_fstat, do_stat, do_stat_followed, do_readlink, with_root, with_open, with_followed,
}
use alertmind.Broker.Files.{read_all}
use alertmind.Broker.Files.Trust.{Host, Owner, identity, check_trusted, same_stamp}
use alertmind.Broker.Service.{check_tool, read_configuration}
use alertmind.Broker.Service.Properties.{risk_names}
use alertmind.Broker.Process.Records.{
  stat_limit, status_limit, cmdline_limit, environ_limit, check_pid, start_time, check_credentials,
  nul_fields, name_of,
}

abbrev pub executable_limit : ℕ
executable_limit = 100 * mebibyte

-- `_key(a) == _key(b)`
unfoldable pub same_key : Stat → Stat → Bool
same_key a b =
    nat_eq a.dev b.dev
    && nat_eq a.ino b.ino
    && nat_eq a.mode b.mode
    && nat_eq a.uid b.uid
    && nat_eq a.gid b.gid

-- `_Snapshot`
pub record Snapshot : Type 0 where
  pub start : ℕ
  pub executable : ℕ × ℕ
  pub cmdline : Bytes
  pub environment : Bytes

unfoldable pub same_snapshot : Snapshot → Snapshot → Bool
same_snapshot a b =
    nat_eq a.start b.start
    && nat_eq a.executable.0 b.executable.0
    && nat_eq a.executable.1 b.executable.1
    && text_eq a.cmdline b.cmdline
    && text_eq a.environment b.environment

abbrev natural : Json → ℕ
natural (int (pos n)) = n
natural _ = 0

abbrev pub main_pid : Fields → ℕ
main_pid values = natural (get (text "MainPID") values)

module _ (os : Os) where
  -- `_open_directory`, and what is done below it
  unfoldable pub with_directory {ℓ} : {A : Type ℓ} → ℕ → Text → List Owner → (ℕ → Io A) → Io A
  with_directory parent name allowed block = do
    before ← do_stat os parent name
    check_trusted before true allowed
    with_open os parent name true
        (λ fd. do now ← do_fstat os fd; demand (same_key before now) "PROCESS_CHANGED"; block fd)

  -- `_read_small`
  unfoldable pub read_small : ℕ → Text → ℕ → List Owner → Io Bytes
  read_small directory name limit allowed = do
    before ← do_stat os directory name
    check_trusted before false allowed
    with_open os directory name false (λ fd. do
      opened ← do_fstat os fd
      demand (same_key before opened) "PROCESS_CHANGED"
      raw ← read_all os fd limit
      demand (leb (length raw) limit) "PROCESS_SIZE"
      now ← do_fstat os fd
      demand (same_key before now) "PROCESS_CHANGED"
      named ← do_stat os directory name
      demand (same_key now named) "PROCESS_CHANGED"
      pure raw)

  module _ ⦃p : Platform⦄ where
    -- `_executable`
    unfoldable pub executable : ℕ → List Owner → Io (ℕ × ℕ)
    executable directory allowed = do
      link ← do_readlink os directory (text "exe")
      demand (text_eq link node) "PROCESS_EXECUTABLE"
      with_followed os directory (text "exe") (λ fd. do
        before ← do_fstat os fd
        check_trusted before false allowed
        demand (ltb 0 before.size && leb before.size executable_limit) "PROCESS_SIZE"
        raw ← read_all os fd executable_limit
        demand (nat_eq (length raw) before.size && leb (length raw) executable_limit) "PROCESS_SIZE"
        now ← do_fstat os fd
        demand (same_stamp before now) "PROCESS_CHANGED"
        named ← do_stat_followed os directory (text "exe")
        demand (same_stamp now named) "PROCESS_CHANGED"
        link' ← do_readlink os directory (text "exe")
        demand (text_eq link' node) "PROCESS_CHANGED"
        demand (text_eq (p.sha256 raw) packaged_linux_node_sha256) "PROCESS_DIGEST"
        pure (before.dev, before.ino))

    -- Below the open directory of the process.
    unfoldable pub look : ℕ → Owner → ℕ → ℕ → Io Snapshot
    look pid service proc directory = do
      let allowed = (0, 0) ∷ service ∷ []
      initial ← do_fstat os directory
      stat ← read_small directory (text "stat") stat_limit allowed
      start ← lift (start_time stat pid)
      status ← read_small directory (text "status") status_limit allowed
      lift (check_credentials status service)
      cmdline ← read_small directory (text "cmdline") cmdline_limit allowed
      environment ← read_small directory (text "environ") environ_limit allowed
      _ ← lift (nul_fields false cmdline)
      _ ← lift (nul_fields true environment)
      inode ← executable directory allowed
      status' ← read_small directory (text "status") status_limit allowed
      lift (check_credentials status' service)
      stat' ← read_small directory (text "stat") stat_limit allowed
      start' ← lift (start_time stat' pid)
      demand (nat_eq start' start) "PROCESS_CHANGED"
      now ← do_fstat os directory
      demand (same_key initial now) "PROCESS_CHANGED"
      named ← do_stat os proc (nat_text pid)
      demand (same_key now named) "PROCESS_CHANGED"
      pure (record {
        start = start;
        executable = inode;
        cmdline = cmdline;
        environment = environment;
      })

    -- `_native_snapshot`
    unfoldable pub native_snapshot : ℕ → Owner → Io Snapshot
    native_snapshot pid service = do
      lift (check_pid pid)
      with_root os (λ root. do
        root_stat ← do_fstat os root
        check_trusted root_stat true ((0, 0) ∷ [])
        with_directory root (text "proc") ((0, 0) ∷ []) (λ proc.
            with_directory proc (nat_text pid) ((0, 0) ∷ service ∷ []) (look pid service proc)))

    -- `_anchor`
    unfoldable pub read_anchor : Io Fields
    read_anchor = do
      values ← read_configuration os
      demand (is_text (get (text "ActiveState") values) (text "active")) "PROCESS_NOT_RUNNING"
      lift (check_pid (main_pid values))
      demand (ltb 0 (natural (get (text "ExecMainStartTimestampMonotonic") values)))
          "PROCESS_NOT_RUNNING"
      demand
          (is_text (get (text "User") values) (text "wazuh-dashboard")
            && is_text (get (text "Group") values) (text "wazuh-dashboard"))
          "PROCESS_IDENTITY"
      pure values

-- `ProcessObservation`
pub record ProcessObservation : Type 0 where
  pub argument_count : ℕ
  pub argv0_matches_packaged_path : Bool
  pub environment_entries : ℕ
  pub runtime_override_named : Bool
  pub process_executable_matches_pin : Bool
  pub passes : ℕ
  pub service_reads : ℕ
  pub effective_environment_proven : Bool
  pub loaded_code_proven : Bool
  pub startup_authorized : Bool

abbrev is_first : Text → List Bytes → Bool
is_first a [] = false
is_first a (b ∷ _) = text_eq b a

abbrev is_risk : Bytes → Bool
is_risk entry = elim (name_of entry) [ none ↦ false | some name ↦ is_one_of risk_names name ]

unfoldable pub observation_of : List Bytes → List Bytes → ProcessObservation
observation_of arguments environment = record {
  argument_count = length arguments;
  argv0_matches_packaged_path = is_first node arguments;
  environment_entries = length environment;
  runtime_override_named = any is_risk environment;
  process_executable_matches_pin = true;
  passes = 2;
  service_reads = 3;
  effective_environment_proven = false;
  loaded_code_proven = false;
  startup_authorized = false;
}

abbrev pub recoded {ℓ} : {A : Type ℓ} → Ran A → Ran A
recoded (threw (os_error _)) = threw (operator "PROCESS_IO")
recoded r = r

-- `except OSError: raise OperatorError('PROCESS_IO')`
unfoldable pub with_io_code {ℓ} : {A : Type ℓ} → Io A → Io A
with_io_code m = λ log. let (r, log') = m log in (recoded r, log')

module _ ⦃p : Platform⦄ (os : Os) (host : Host) where
  -- One look at the process, and the configuration behind it unchanged.
  unfoldable pub anchored_snapshot : Owner → Fields → Io Snapshot
  anchored_snapshot service anchor = do
    snapshot ← native_snapshot os (main_pid anchor) service
    again ← read_anchor os
    demand (fields_eq again anchor) "PROCESS_CHANGED"
    pure snapshot

  unfoldable pub observed : Io ProcessObservation
  observed = do
    service ← identity host
    anchor ← read_anchor os
    first ← anchored_snapshot service anchor
    second ← anchored_snapshot service anchor
    demand (same_snapshot first second) "PROCESS_CHANGED"
    arguments ← lift (nul_fields false second.cmdline)
    environment ← lift (nul_fields true second.environment)
    pure (observation_of arguments environment)

  -- `observe_running_process`
  unfoldable pub observe_running_process : Io ProcessObservation
  observe_running_process = do check_tool os host; with_io_code observed
