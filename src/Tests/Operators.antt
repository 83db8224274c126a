-- ===== src/Tests/Operators.antt =====
-- Runs of the read-only adapters of the broker operator.
use alertmind.Prelude.{
  arith, ◌≤◌, true, false, ◌≡◌, refl, ◌⊎◌, List, [], ◌∷◌, ◌++◌, none, All, length, all,
}
use alertmind.Text.{Text, text, text_eq, join}
use alertmind.Json.{Json, Fields, str, arr, bool, nil, field, end}
use alertmind.Json.Parsed.{Parsed, Pairs, Elems, bad}
use alertmind.Result.{ok}
use alertmind.Broker.Core.{node, packaged_linux_node_sha256, FileCheck, client, mebibyte}
use alertmind.Broker.Os.{
  Os, Call, Stat, Ran, value, threw, operator, read, selected, fstat, stat_at, stat_followed, Io,
  pure,
}
use alertmind.Broker.Os.Balance.{held}
use alertmind.Broker.Files.{read_root, read_loop, read_all, read_installed}
use alertmind.Broker.Files.Trust.{Host, Owner, max_read, is_component}
use alertmind.Broker.Files.Balance.{IsConfined, read_installed-Orderly}
use alertmind.Broker.Files.Bounds.{read_loop-read_all, read_root-bounds}
use alertmind.Broker.Service.{check_tool}
use alertmind.Broker.Service.Properties.{parse_properties, properties_of, unit_properties}
use alertmind.Broker.Service.Properties.Typed.{HasType, parse_properties-HasType}
use alertmind.Broker.Process.{ProcessObservation, observe_running_process}
use alertmind.Broker.Process.Balance.{observe_running_process-Balanced}
use alertmind.Broker.Process.Pinned.{IsObserved, observe_running_process-IsPinned}
use alertmind.Broker.Process.Records.{nul_fields}
use alertmind.Broker.Process.Records.Fields.{nul_fields-join}
use alertmind.Tests.System.{content, runtime, system, host}

abbrev owned_by_root : List Text → Io (List Owner)
owned_by_root _ = pure ((0, 0) ∷ [])

abbrev tool_path : List Text
tool_path = text "usr" ∷ text "bin" ∷ text "busctl" ∷ []

reads_tool : (read_root system tool_path 16 owned_by_root []).0 ≡ value (text "x")
unfolding alertmind.Broker.Os.demand alertmind.Broker.Os.lift alertmind.Broker.Os.do_fstat
    alertmind.Broker.Os.do_stat alertmind.Broker.Os.do_stat_followed alertmind.Broker.Os.do_read
    alertmind.Broker.Os.do_readlink alertmind.Broker.Os.do_select alertmind.Broker.Os.do_wait
    alertmind.Broker.Os.do_poll alertmind.Broker.Os.do_kill alertmind.Broker.Os.closing
    alertmind.Broker.Os.with_root alertmind.Broker.Os.with_open alertmind.Broker.Os.with_followed
    alertmind.Broker.Os.with_child alertmind.Broker.Files.read_loop alertmind.Broker.Files.read_all
    alertmind.Broker.Files.recheck alertmind.Broker.Files.read_file alertmind.Broker.Files.open_part
    alertmind.Broker.Files.walk_parts alertmind.Broker.Files.read_at
    alertmind.Broker.Files.read_root alertmind.Broker.Files.read_root_owned
    alertmind.Broker.Files.read_native alertmind.Broker.Files.with_codes
    alertmind.Broker.Files.Trust.vendor alertmind.Broker.Files.Trust.check_platform
    alertmind.Broker.Files.Trust.identity alertmind.Broker.Files.Trust.is_component
    alertmind.Broker.Files.Trust.check_components alertmind.Broker.Files.Trust.check_bound
    alertmind.Broker.Files.Trust.owners alertmind.Broker.Files.Trust.os_error_code
    alertmind.Broker.Files.Trust.same_stamp alertmind.Broker.Files.Trust.is_protected
    alertmind.Broker.Files.Trust.is_trusted alertmind.Broker.Files.Trust.check_trusted
    alertmind.Result.require alertmind.Text.text alertmind.Text.text_eq
reads_tool = refl

read_root-bounds_example :
    (length (text "x") ≤ 16) × (16 ≤ max_read) × (all is_component tool_path ≡ true)
read_root-bounds_example =
    read_root-bounds system tool_path 16 owned_by_root (text "x") [] reads_tool

abbrev check : FileCheck
check = record { path = client; digest = []; limit = 2; size = none }

read_installed-Orderly_example :
    let behind = (read_installed system host (check ∷ []) client 2 []).1 in
    (held behind ≡ held []) × (All IsConfined [] → All IsConfined behind)
read_installed-Orderly_example = read_installed-Orderly system host (check ∷ []) client 2 []

read_loop-read_all_example : read_loop system 12 4 9 [] [] ≡ read_all system 12 4 []
read_loop-read_all_example = read_loop-read_all system 12 4 9 [] (omega arith)

two_fields :
    nul_fields true (text "A=b" ++ 0 ∷ (text "PATH=" ++ 0 ∷ []))
    ≡ ok (text "A=b" ∷ text "PATH=" ∷ [])
unfolding nul_fields alertmind.Result.require text alertmind.Broker.Process.Records.before_nul
    alertmind.Broker.Process.Records.check_names alertmind.Text.split_on
    alertmind.Text.Trim.partition alertmind.Broker.Service.Summary.is_variable_name text_eq
two_fields = refl

nul_fields-join_example :
    (text "A=b" ++ 0 ∷ (text "PATH=" ++ 0 ∷ [])
      ≡ join (0 ∷ []) (text "A=b" ∷ text "PATH=" ∷ []) ++ 0 ∷ [])
    ⊎ ((true ≡ true)
        × (text "A=b" ++ 0 ∷ (text "PATH=" ++ 0 ∷ []) ≡ [])
        × (text "A=b" ∷ text "PATH=" ∷ [] ≡ []))
nul_fields-join_example =
    nul_fields-join true (text "A=b" ++ 0 ∷ (text "PATH=" ++ 0 ∷ []))
      (text "A=b" ∷ text "PATH=" ∷ []) two_fields

observe_running_process-Balanced_example :
    held (observe_running_process ⦃p = runtime⦄ system host []).1 ≡ held []
observe_running_process-Balanced_example =
    observe_running_process-Balanced ⦃p = runtime⦄ system host []

abbrev seen : ProcessObservation
seen = record {
  argument_count = 1;
  argv0_matches_packaged_path = true;
  environment_entries = 1;
  runtime_override_named = true;
  process_executable_matches_pin = true;
  passes = 2;
  service_reads = 3;
  effective_environment_proven = false;
  loaded_code_proven = false;
  startup_authorized = false;
}

observes : (observe_running_process ⦃p = runtime⦄ system host []).0 ≡ value seen
unfolding alertmind.Broker.Os.demand alertmind.Broker.Os.lift alertmind.Broker.Os.do_fstat
    alertmind.Broker.Os.do_stat alertmind.Broker.Os.do_stat_followed alertmind.Broker.Os.do_read
    alertmind.Broker.Os.do_readlink alertmind.Broker.Os.do_select alertmind.Broker.Os.do_wait
    alertmind.Broker.Os.do_poll alertmind.Broker.Os.do_kill alertmind.Broker.Os.closing
    alertmind.Broker.Os.with_root alertmind.Broker.Os.with_open alertmind.Broker.Os.with_followed
    alertmind.Broker.Os.with_child alertmind.Broker.Files.read_loop alertmind.Broker.Files.read_all
    alertmind.Broker.Files.recheck alertmind.Broker.Files.read_file alertmind.Broker.Files.open_part
    alertmind.Broker.Files.walk_parts alertmind.Broker.Files.read_at
    alertmind.Broker.Files.read_root alertmind.Broker.Files.read_root_owned
    alertmind.Broker.Files.read_native alertmind.Broker.Files.with_codes
    alertmind.Broker.Files.Trust.vendor alertmind.Broker.Files.Trust.check_platform
    alertmind.Broker.Files.Trust.identity alertmind.Broker.Files.Trust.is_component
    alertmind.Broker.Files.Trust.check_components alertmind.Broker.Files.Trust.check_bound
    alertmind.Broker.Files.Trust.owners alertmind.Broker.Files.Trust.os_error_code
    alertmind.Broker.Files.Trust.same_stamp alertmind.Broker.Files.Trust.is_protected
    alertmind.Broker.Files.Trust.is_trusted alertmind.Broker.Files.Trust.check_trusted
    alertmind.Result.require alertmind.Text.text alertmind.Text.text_eq alertmind.Text.after?
    alertmind.Text.starts_with alertmind.Text.split_on alertmind.Text.nat_text
    alertmind.Text.Trim.lstrip_char alertmind.Text.Trim.rstrip_char alertmind.Text.Trim.strip_char
    alertmind.Text.Trim.partition alertmind.Json.truthy alertmind.Json.Dict.lookup
    alertmind.Json.Dict.insert alertmind.Json.Dict.erase alertmind.Json.Parsed.unique
    alertmind.Json.Parsed.loads alertmind.Json.Parsed.loads_items alertmind.Json.Parsed.loads_pairs
    alertmind.Json.Equal.json_eq alertmind.Json.Equal.items_eq alertmind.Json.Equal.fields_eq
    alertmind.Broker.Core.base alertmind.Broker.Core.node
    alertmind.Broker.Core.packaged_linux_node_sha256 alertmind.Broker.Recovery.is_text
    alertmind.Broker.Service.Properties.unit_name
    alertmind.Broker.Service.Properties.unit_properties
    alertmind.Broker.Service.Properties.service_properties
    alertmind.Broker.Service.Properties.properties_of alertmind.Broker.Service.Properties.risk_names
    alertmind.Broker.Service.Properties.is_plain_string
    alertmind.Broker.Service.Properties.is_string_list
    alertmind.Broker.Service.Properties.is_unsigned alertmind.Broker.Service.Properties.is_signed
    alertmind.Broker.Service.Properties.is_file_row alertmind.Broker.Service.Properties.is_exec_row
    alertmind.Broker.Service.Properties.is_valid alertmind.Broker.Service.Properties.lines_of
    alertmind.Broker.Service.Properties.typed_data alertmind.Broker.Service.Properties.parse_lines
    alertmind.Broker.Service.Properties.parse_properties
    alertmind.Broker.Service.Summary.is_variable_name alertmind.Broker.Service.Summary.entry_names
    alertmind.Broker.Service.Summary.summarize alertmind.Broker.Service.Query.with_query_codes
    alertmind.Broker.Service.Query.pipe_loop alertmind.Broker.Service.Query.clean_up
    alertmind.Broker.Service.Query.with_cleanup alertmind.Broker.Service.Query.child_output
    alertmind.Broker.Service.Query.query alertmind.Broker.Service.update
    alertmind.Broker.Service.check_tool alertmind.Broker.Service.read_configuration
    alertmind.Broker.Service.observe_service_configuration
    alertmind.Broker.Process.Records.check_pid alertmind.Broker.Process.Records.after_last
    alertmind.Broker.Process.Records.open_words alertmind.Broker.Process.Records.words_of
    alertmind.Broker.Process.Records.value_of alertmind.Broker.Process.Records.start_time
    alertmind.Broker.Process.Records.rows_of alertmind.Broker.Process.Records.check_credentials
    alertmind.Broker.Process.Records.before_nul alertmind.Broker.Process.Records.check_names
    alertmind.Broker.Process.Records.nul_fields alertmind.Broker.Process.same_key
    alertmind.Broker.Process.same_snapshot alertmind.Broker.Process.with_directory
    alertmind.Broker.Process.read_small alertmind.Broker.Process.executable
    alertmind.Broker.Process.look alertmind.Broker.Process.native_snapshot
    alertmind.Broker.Process.read_anchor alertmind.Broker.Process.observation_of
    alertmind.Broker.Process.with_io_code alertmind.Broker.Process.anchored_snapshot
    alertmind.Broker.Process.observed alertmind.Broker.Process.observe_running_process
    alertmind.Broker.Manifest.path_parts alertmind.Broker.Manifest.is_clean
    alertmind.Broker.Manifest.is_safe_name alertmind.Broker.Manifest.entry
    alertmind.Broker.Manifest.check_entry alertmind.Broker.Manifest.check_files
    alertmind.Broker.Manifest.sorted_items alertmind.Broker.Manifest.node_check
    alertmind.Broker.Manifest.header_check alertmind.Broker.Manifest.installed_checks
observes = refl

observe_running_process-IsPinned_example :
    (host.euid ≡ 0) × IsObserved ⦃p = runtime⦄ system host seen (check_tool system host []).1
observe_running_process-IsPinned_example =
    observe_running_process-IsPinned ⦃p = runtime⦄ system host seen [] observes

abbrev unit_values : Fields
unit_values = field (text "Id") (str (text "wazuh-dashboard.service")) (
    field (text "LoadState") (str (text "loaded")) (
      field (text "ActiveState") (str (text "active")) (
        field (text "FragmentPath") (str []) (
          field (text "DropInPaths") (arr nil)
            (field (text "NeedDaemonReload") (bool false) end)))))

parses_unit : parse_properties ⦃p = runtime⦄ (content 20) (text "Unit") ≡ ok unit_values
unfolding alertmind.Result.require alertmind.Text.text alertmind.Text.text_eq
    alertmind.Text.split_on alertmind.Json.Dict.lookup alertmind.Json.Dict.insert
    alertmind.Json.Dict.erase alertmind.Json.Parsed.unique alertmind.Json.Parsed.loads
    alertmind.Json.Parsed.loads_items alertmind.Json.Parsed.loads_pairs
    alertmind.Broker.Recovery.is_text alertmind.Broker.Service.Properties.unit_name
    alertmind.Broker.Service.Properties.unit_properties
    alertmind.Broker.Service.Properties.service_properties
    alertmind.Broker.Service.Properties.properties_of alertmind.Broker.Service.Properties.risk_names
    alertmind.Broker.Service.Properties.is_plain_string
    alertmind.Broker.Service.Properties.is_string_list
    alertmind.Broker.Service.Properties.is_unsigned alertmind.Broker.Service.Properties.is_signed
    alertmind.Broker.Service.Properties.is_file_row alertmind.Broker.Service.Properties.is_exec_row
    alertmind.Broker.Service.Properties.is_valid alertmind.Broker.Service.Properties.lines_of
    alertmind.Broker.Service.Properties.typed_data alertmind.Broker.Service.Properties.parse_lines
    alertmind.Broker.Service.Properties.parse_properties
parses_unit = refl

knows_unit : properties_of (text "Unit") ≡ ok unit_properties
unfolding properties_of text text_eq
knows_unit = refl

parse_properties-HasType_example : All (HasType unit_values) unit_properties
parse_properties-HasType_example =
    parse_properties-HasType ⦃p = runtime⦄ (content 20) (text "Unit") unit_values unit_properties
      knows_unit parses_unit
