-- ===== src/Broker/Service/Summary.antt =====
-- operator_service.py: `_summarize`, the observation of a service from its properties.
use alertmind.Prelude.{
  ℕ, Bool, false, not, ◌&&◌, ◌||◌, List, [], ◌∷◌, ◌++◌, Option, none, some, all, any, length,
  nat_eq, if◌then◌else◌,
}
use alertmind.Text.{Text, text, is_one_of, is_upper_ascii, is_lower_ascii, is_digit_ascii}
use alertmind.Text.Trim.{partition}
use alertmind.Json.{Json, bool, str, arr, cons, items, Fields, truthy}
use alertmind.Json.Dict.{get}
use alertmind.Result.{Result, ok, err, ◌>>=◌, ◌>>◌, require}
use alertmind.Broker.Core.{base, node}
use alertmind.Broker.Recovery.{is_text}
use alertmind.Broker.Service.Properties.{unit_name, risk_names}

-- `ServiceObservation`; its last fields have their defaults always.
pub record ServiceObservation : Type 0 where
  pub active_state : Json
  pub exec_start_count : ℕ
  pub configured_executable : Text
  pub exec_flags_present : Bool
  pub environment_entries : ℕ
  pub runtime_override_named : Bool
  pub environment_files : ℕ
  pub pass_environment_entries : ℕ
  pub unset_environment_entries : ℕ
  pub service_user_matches : Bool
  pub service_group_matches : Bool
  pub working_directory_matches : Bool
  pub alternate_root_present : Bool
  pub fragment_present : Bool
  pub dropin_count : ℕ
  pub passes : ℕ
  pub selected_runtime_proven : Bool
  pub effective_environment_proven : Bool
  pub startup_authorized : Bool

abbrev elements : Json → List Json
elements (arr vs) = items vs
elements _ = []

abbrev executable_kind : List Json → Text
executable_kind (arr (cons path _) ∷ []) =
    if is_text path node
    then text "packaged_node"
    else (if is_text path (base ++ text "bin/opensearch-dashboards")
        then text "dashboard_wrapper"
        else text "other")
executable_kind _ = text "other"

-- `bool(row[2])`
abbrev has_flags : Json → Bool
has_flags (arr (cons _ (cons _ (cons flags _)))) = truthy flags
has_flags _ = false

-- `re.fullmatch(r'[A-Za-z_][A-Za-z0-9_]*', name)`
abbrev is_letter : ℕ → Bool
is_letter c = is_upper_ascii c || is_lower_ascii c || nat_eq c b'_'

unfoldable pub is_variable_name : Text → Bool
is_variable_name [] = false
is_variable_name (c ∷ s) = is_letter c && all (λ d. is_letter d || is_digit_ascii d) s

abbrev entry_name : Json → Option Text
entry_name (str entry) = elim (partition b'=' entry) [ none ↦ none | some (name, _) ↦ some name ]
entry_name _ = none

-- The names of the entries of an environment, each of them once.
unfoldable pub entry_names : List Json → List Text → Result (List Text)
entry_names [] names = ok names
entry_names (entry ∷ entries) names = elim (entry_name entry) [
  | none ↦ err "SERVICE_ENVIRONMENT"
  | some name ↦
      require (is_variable_name name) "SERVICE_ENVIRONMENT"
      >> (require (not (is_one_of names name)) "SERVICE_ENVIRONMENT"
          >> entry_names entries (name ∷ names))
]

abbrev is_state : Json → Bool
is_state v = is_text v (text "active") || is_text v (text "inactive") || is_text v (text "failed")

abbrev is_false : Json → Bool
is_false (bool b) = not b
is_false _ = false

-- `_summarize`
unfoldable pub summarize : Fields → Result ServiceObservation
summarize values = do
  require
      (is_text (get (text "Id") values) unit_name
        && is_text (get (text "LoadState") values) (text "loaded"))
      "SERVICE_IDENTITY"
  require (is_false (get (text "NeedDaemonReload") values)) "SERVICE_RELOAD_PENDING"
  require (is_state (get (text "ActiveState") values)) "SERVICE_TRANSITION"
  let rows = elements (get (text "ExecStartEx") values)
  names ← entry_names (elements (get (text "Environment") values)) []
  ok (record {
    active_state = get (text "ActiveState") values;
    exec_start_count = length rows;
    configured_executable = executable_kind rows;
    exec_flags_present = any has_flags rows;
    environment_entries = length names;
    runtime_override_named = any (is_one_of risk_names) names;
    environment_files = length (elements (get (text "EnvironmentFiles") values));
    pass_environment_entries = length (elements (get (text "PassEnvironment") values));
    unset_environment_entries = length (elements (get (text "UnsetEnvironment") values));
    service_user_matches = is_text (get (text "User") values) (text "wazuh-dashboard");
    service_group_matches = is_text (get (text "Group") values) (text "wazuh-dashboard");
    working_directory_matches =
        is_text (get (text "WorkingDirectory") values) (text "/usr/share/wazuh-dashboard");
    alternate_root_present =
        truthy (get (text "RootDirectory") values) || truthy (get (text "RootImage") values);
    fragment_present = truthy (get (text "FragmentPath") values);
    dropin_count = length (elements (get (text "DropInPaths") values));
    passes = 2;
    selected_runtime_proven = false;
    effective_environment_proven = false;
    startup_authorized = false;
  })
