-- ===== src/Notifier/Scripts.antt =====
-- `Notifier`'s constructor, its names and its compiled scripts (mssql_notifier.hpp). The `fmt`
-- library's `format` and the printed hash of a text are parameters.
use store_cpp.Base.{List, [], ◌∷◌, Str, codes, ◌==◌, ◌||◌, if◌then◌else◌}
use store_cpp.Base.Int.{pos}
use store_cpp.Extensions.Format.{Arg, str, int}
use store_cpp.Notifier.Queries.{
  monitor_format, receive_event_format, dependency_format, execute_procedure_format,
}
use store_cpp.Notifier.Cleaning.{cleaning_format}
use store_cpp.Notifier.Install.{
  install_broker_format, check_trigger_format, create_trigger_format, installation_format,
}
use store_cpp.Notifier.Uninstall.{
  uninstall_broker_format, delete_trigger_format, uninstallation_format,
}

pub record Notifier : Type 0 where
  pub database_name : Str
  pub schema_name : Str
  pub table_name : Str
  pub identity : Str

-- `regex_replace(databaseName, regex("[\\[\\]]"), "")`
unfoldable pub remove_brackets : Str → Str
remove_brackets [] = []
remove_brackets (c ∷ s) =
    let rest = remove_brackets s in if (c == b'[') || (c == b']') then rest else c ∷ rest

-- The field `notificationTypes["ALL"]`, and `detailsIncluded["YES"]`.
abbrev pub all_types : Str
all_types = codes "INSERT, UPDATE, DELETE"

abbrev pub details_yes : Str
details_yes = []

-- The key of `compiledScripts`.
pub data CompiledScript : Type 0 where
  install_listener_script uninstall_listener_script : CompiledScript
  get_dependency_identities forced_database_cleaning : CompiledScript
  monitor_conversations create_installation_procedure : CompiledScript
  create_uninstallation_procedure receive_event : CompiledScript

module _ (fmt_format : Str → List Arg → Str) where
  -- The constructor. It hashes the database's name without its brackets.
  unfoldable pub make_notifier : (Str → Str) → Str → Str → Str → Notifier
  unfolding remove_brackets
  make_notifier hash_hex database schema table_name =
      let name = remove_brackets database in
      record {
        database_name = name;
        schema_name = schema;
        table_name = table_name;
        identity =
            hash_hex (fmt_format (codes "{}${}${}") (str name ∷ str schema ∷ str table_name ∷ []));
      }

  module _ (n : Notifier) where
    open n use {database_name, schema_name, table_name, identity}

    unfoldable pub conversation_queue_name : Str
    conversation_queue_name = fmt_format (codes "ListenerQueue_{0}") (str identity ∷ [])

    unfoldable pub conversation_service_name : Str
    conversation_service_name = fmt_format (codes "ListenerService_{0}") (str identity ∷ [])

    unfoldable pub conversation_trigger_name : Str
    conversation_trigger_name = fmt_format (codes "tr_Listener_{0}") (str identity ∷ [])

    unfoldable pub install_listener_procedure_name : Str
    install_listener_procedure_name =
        fmt_format (codes "sp_InstallListenerNotification_{0}") (str identity ∷ [])

    unfoldable pub uninstall_listener_procedure_name : Str
    uninstall_listener_procedure_name =
        fmt_format (codes "sp_UninstallListenerNotification_{0}") (str identity ∷ [])

    -- `installListenerScript` and `unstallListenerScript` differ in the procedure.
    unfoldable pub execute_procedure : Str → Str
    execute_procedure procedure =
        fmt_format execute_procedure_format
          (str database_name ∷ str procedure ∷ str schema_name ∷ [])

    unfoldable pub sql_install_service_broker : Str
    sql_install_service_broker = fmt_format install_broker_format (
        str database_name
        ∷ str conversation_queue_name
        ∷ str conversation_service_name
        ∷ str schema_name
        ∷ [])

    unfoldable pub sql_check_notification_trigger : Str
    sql_check_notification_trigger =
        fmt_format check_trigger_format (str conversation_trigger_name ∷ str schema_name ∷ [])

    unfoldable pub sql_create_notification_trigger : Str
    sql_create_notification_trigger = fmt_format create_trigger_format (
        str table_name
        ∷ str conversation_trigger_name
        ∷ str all_types
        ∷ str conversation_service_name
        ∷ str details_yes
        ∷ str schema_name
        ∷ [])

    unfoldable pub sql_create_installation_procedure : Str
    sql_create_installation_procedure = fmt_format installation_format (
        str database_name
        ∷ str install_listener_procedure_name
        ∷ str sql_install_service_broker
        ∷ str sql_create_notification_trigger
        ∷ str sql_check_notification_trigger
        ∷ str table_name
        ∷ str schema_name
        ∷ [])

    unfoldable pub sql_uninstall_service_broker : Str
    sql_uninstall_service_broker =
        fmt_format uninstall_broker_format
          (str conversation_queue_name ∷ str conversation_service_name ∷ str schema_name ∷ [])

    unfoldable pub sql_delete_notification_trigger : Str
    sql_delete_notification_trigger =
        fmt_format delete_trigger_format (str conversation_trigger_name ∷ str schema_name ∷ [])

    unfoldable pub sql_create_uninstallation_procedure : Str
    sql_create_uninstallation_procedure = fmt_format uninstallation_format (
        str database_name
        ∷ str uninstall_listener_procedure_name
        ∷ str sql_uninstall_service_broker
        ∷ str sql_delete_notification_trigger
        ∷ str schema_name
        ∷ str install_listener_procedure_name
        ∷ [])

    unfoldable pub sql_receive_event : Str
    sql_receive_event =
        fmt_format receive_event_format
          (str database_name ∷ str conversation_queue_name ∷ int (pos 60000) ∷ str schema_name ∷ [])

    -- It looks for a service that has the identity as its name.
    unfoldable pub sql_get_dependency_identities : Str
    sql_get_dependency_identities =
        fmt_format dependency_format (str database_name ∷ str identity ∷ [])

    -- What the constructor puts under each key.
    unfoldable pub compiled_script : CompiledScript → Str
    unfolding execute_procedure sql_create_installation_procedure
        sql_create_uninstallation_procedure sql_receive_event sql_get_dependency_identities
    compiled_script install_listener_script = execute_procedure install_listener_procedure_name
    compiled_script uninstall_listener_script = execute_procedure uninstall_listener_procedure_name
    compiled_script get_dependency_identities = sql_get_dependency_identities
    compiled_script forced_database_cleaning = fmt_format cleaning_format (str database_name ∷ [])
    compiled_script monitor_conversations =
        fmt_format monitor_format (str conversation_service_name ∷ [])
    compiled_script create_installation_procedure = sql_create_installation_procedure
    compiled_script create_uninstallation_procedure = sql_create_uninstallation_procedure
    compiled_script receive_event = sql_receive_event
