-- ===== src/Notifier/Uninstall.antt =====
-- The texts that remove a listener (store.storage.sqlserver/src/mssql_notifier.hpp).
use store_cpp.Base.{Str, text_lines, [], ◌∷◌}

unfoldable pub uninstall_broker_format : Str
uninstall_broker_format = text_lines (
    "" ∷ "        DECLARE @serviceId INT"
    ∷ "        SELECT @serviceId = service_id FROM sys.services "
    ∷ "        WHERE sys.services.name = ''{1}''" ∷ "        DECLARE @ConvHandle uniqueidentifier"
    ∷ "        DECLARE Conv CURSOR FOR"
    ∷ "        SELECT CEP.conversation_handle FROM sys.conversation_endpoints CEP"
    ∷ "        WHERE CEP.service_id = @serviceId AND ([state] != ''CD'' OR [lifetime] > GETDATE() + 1)"
    ∷ "        OPEN Conv;" ∷ "        FETCH NEXT FROM Conv INTO @ConvHandle;"
    ∷ "        WHILE (@@FETCH_STATUS = 0) BEGIN"
    ∷ "          END CONVERSATION @ConvHandle WITH CLEANUP;"
    ∷ "            FETCH NEXT FROM Conv INTO @ConvHandle;" ∷ "        END" ∷ "        CLOSE Conv;"
    ∷ "        DEALLOCATE Conv;" ∷ "        -- Droping service and queue."
    ∷ "        IF (@serviceId IS NOT NULL)" ∷ "            DROP SERVICE [{1}];"
    ∷ "        IF OBJECT_ID (''{2}.{0}'', ''SQ'') IS NOT NULL" ∷ "          DROP QUEUE {2}.[{0}];"
    ∷ "      " ∷ [])

unfoldable pub delete_trigger_format : Str
delete_trigger_format = text_lines (
    "" ∷ "        IF OBJECT_ID (''{1}.{0}'', ''TR'') IS NOT NULL"
    ∷ "            DROP TRIGGER {1}.[{0}];  " ∷ "      " ∷ [])

unfoldable pub uninstallation_format : Str
uninstallation_format = text_lines (
    "" ∷ "        USE [{0}]" ∷ "" ∷ "        IF OBJECT_ID ('{4}.{1}', 'P') IS NULL"
    ∷ "        BEGIN" ∷ "            EXEC ('" ∷ "                CREATE PROCEDURE {4}.{1}"
    ∷ "                AS" ∷ "                BEGIN"
    ∷ "                    -- Notification Trigger drop statement." ∷ "                    {3}"
    ∷ "                    -- Service Broker uninstall statement." ∷ "                    {2}"
    ∷ "                    IF OBJECT_ID (''{4}.{5}'', ''P'') IS NOT NULL"
    ∷ "                        DROP PROCEDURE {4}.{5}" ∷ "                    "
    ∷ "                    DROP PROCEDURE {4}.{1}" ∷ "                END" ∷ "                ')"
    ∷ "        END" ∷ "      " ∷ [])
