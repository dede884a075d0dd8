-- ===== src/Notifier/Queries.antt =====
-- The texts of the SQL Server notifier's statements that watch, receive, clean and call
-- (store.storage.sqlserver/src/mssql_notifier.hpp), each as the raw literal in the source.
use store_cpp.Base.{Str, text_lines, [], ◌∷◌}

unfoldable pub monitor_format : Str
monitor_format = text_lines (
    "" ∷ "        SELECT conversation_handle, is_initiator, s.name as 'local service', "
    ∷ "        far_service, sc.name 'contract', state_desc, convert(varchar(30), security_timestamp, 126) ts"
    ∷ "        FROM sys.conversation_endpoints ce" ∷ "        JOIN sys.services s"
    ∷ "        ON ce.service_id = s.service_id" ∷ "        LEFT JOIN sys.service_contracts sc"
    ∷ "        ON ce.service_contract_id = sc.service_contract_id" ∷ "        WHERE s.name = '{}'"
    ∷ "        ORDER BY security_timestamp" ∷ "      " ∷ [])

unfoldable pub receive_event_format : Str
receive_event_format = text_lines (
    "" ∷ "        DECLARE @ConvHandle UNIQUEIDENTIFIER" ∷ "        DECLARE @message VARBINARY(MAX)"
    ∷ "        USE [{0}]" ∷ "        WAITFOR (RECEIVE TOP(1) @ConvHandle=Conversation_Handle"
    ∷ "            , @message=message_body FROM {3}.[{1}]), TIMEOUT {2};" ∷ "                    "
    ∷ "            BEGIN TRY END CONVERSATION @ConvHandle; END TRY BEGIN CATCH END CATCH"
    ∷ "        SELECT CAST(@message AS NVARCHAR(4000))" ∷ "      " ∷ [])

unfoldable pub dependency_format : Str
dependency_format = text_lines (
    "" ∷ "        USE [{}]" ∷ "                  "
    ∷ "        SELECT name FROM sys.services WHERE [name] = '{}';" ∷ "      " ∷ [])

unfoldable pub execute_procedure_format : Str
execute_procedure_format = text_lines (
    "" ∷ "      USE [{0}]" ∷ "      IF OBJECT_ID ('{2}.{1}', 'P') IS NOT NULL"
    ∷ "          EXEC {2}.{1}" ∷ "    " ∷ [])
