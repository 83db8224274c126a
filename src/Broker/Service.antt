-- ===== src/Broker/Service.antt =====
-- operator_service.py: two readings of the configuration of the service.
pub mod Properties
pub mod Summary
pub mod Query
pub mod Rounds
pub mod Balance
use alertmind.Prelude.{ℕ, ◌*◌, Bool, true, false, List, [], ◌∷◌}
use alertmind.Text.{Text, text}
use alertmind.Platform.{Platform, Bytes}
use alertmind.Json.{Json, Fields, end, field}
use alertmind.Json.Dict.{insert}
use alertmind.Json.Equal.{fields_eq}
use alertmind.Broker.Core.{mebibyte}
use alertmind.Broker.Os.{Os, Io, ◌>>=◌, ◌>>◌, pure, demand, lift}
use alertmind.Broker.Files.{read_root_owned, with_codes}
use alertmind.Broker.Files.Trust.{Host, check_platform}
use alertmind.Broker.Service.Properties.{parse_properties}
use alertmind.Broker.Service.Summary.{ServiceObservation, summarize}
use alertmind.Broker.Service.Query.{query}

-- `values.update(other)`
unfoldable pub update : Fields → Fields → Fields
update values end = values
update values (field k v other) = update (insert k v values) other

module _ (os : Os) (host : Host) where
  -- `_check_tool`
  unfoldable pub check_tool : Io (Unit {0})
  check_tool = do
    check_platform host
    _ ←
        with_codes
          (read_root_owned os (text "usr" ∷ text "bin" ∷ text "busctl" ∷ []) (16 * mebibyte))
    pure tt

module _ ⦃p : Platform⦄ (os : Os) where
  -- `_read_configuration`
  unfoldable pub read_configuration : Io Fields
  read_configuration = do
    unit ← query os (text "Unit")
    unit_values ← lift (parse_properties unit (text "Unit"))
    service ← query os (text "Service")
    service_values ← lift (parse_properties service (text "Service"))
    let values = update unit_values service_values
    _ ← lift (summarize values)
    pure values

  -- `observe_service_configuration`
  unfoldable pub observe_service_configuration : Host → Io ServiceObservation
  observe_service_configuration host = do
    check_tool os host
    first ← read_configuration
    second ← read_configuration
    demand (fields_eq first second) "SERVICE_CHANGED"
    lift (summarize second)
