-- ===== src/Notifier/Install.antt =====
-- The texts that install a listener (store.storage.sqlserver/src/mssql_notifier.hpp).
use store_cpp.Base.{Str, text_lines, [], ◌∷◌}

unfoldable pub install_broker_format : Str
install_broker_format = text_lines (
    "" ∷ "        IF EXISTS (SELECT * FROM sys.databases "
    ∷ "            WHERE name = ''{0}'' AND (is_broker_enabled = 0 OR is_trustworthy_on = 0)) "
    ∷ "        BEGIN" ∷ "            ALTER DATABASE [{0}] SET SINGLE_USER WITH ROLLBACK IMMEDIATE"
    ∷ "            ALTER DATABASE [{0}] SET ENABLE_BROKER; "
    ∷ "            ALTER DATABASE [{0}] SET MULTI_USER WITH ROLLBACK IMMEDIATE"
    ∷ "            -- FOR SQL Express"
    ∷ "            ALTER AUTHORIZATION ON DATABASE::[{0}] TO [sa]"
    ∷ "            ALTER DATABASE [{0}] SET TRUSTWORTHY ON;" ∷ "        END"
    ∷ "        -- Create a queue which will hold the tracked information "
    ∷ "        IF NOT EXISTS (SELECT * FROM sys.service_queues WHERE name = ''{1}'')"
    ∷ "            CREATE QUEUE {3}.[{1}]"
    ∷ "        -- Create a service on which tracked information will be sent "
    ∷ "        IF NOT EXISTS(SELECT * FROM sys.services WHERE name = ''{2}'')"
    ∷ "            CREATE SERVICE [{2}] ON QUEUE {3}.[{1}] ([DEFAULT])"
    ∷ "        -- Create a local address route."
    ∷ "        IF NOT EXISTS (SELECT * FROM sys.routes WHERE [address] = ''LOCAL'')"
    ∷ "            CREATE ROUTE [AutoCreatedLocal] with address = N''LOCAL''    " ∷ "      " ∷ [])

unfoldable pub check_trigger_format : Str
check_trigger_format = text_lines (
    "" ∷ "        IF OBJECT_ID (''{1}.{0}'', ''TR'') IS NOT NULL" ∷ "            RETURN;" ∷ "      "
    ∷ [])

unfoldable pub create_trigger_format : Str
create_trigger_format = text_lines (
    "" ∷ "        CREATE TRIGGER [{1}]" ∷ "        ON {5}.[{0}]" ∷ "        AFTER {2} "
    ∷ "        AS" ∷ "        SET NOCOUNT ON;" ∷ "        --Trigger {0} is rising..."
    ∷ "        IF EXISTS (SELECT * FROM sys.services WHERE name = ''''{3}'''')" ∷ "        BEGIN"
    ∷ "            DECLARE @message NVARCHAR(MAX)" ∷ "            SET @message = N''''<root/>''''"
    ∷ "            " ∷ "            IF ({4} EXISTS(SELECT 1))" ∷ "            BEGIN"
    ∷ "                DECLARE @retvalOUT NVARCHAR(MAX)"
    ∷ "                %inserted_select_statement%" ∷ "                IF (@retvalOUT IS NOT NULL)"
    ∷ "                BEGIN SET @message = N''''<root>'''' + @retvalOUT END                        "
    ∷ "                %deleted_select_statement%" ∷ "                IF (@retvalOUT IS NOT NULL)"
    ∷ "                BEGIN"
    ∷ "                    IF (@message = N''''<root/>'''') BEGIN SET @message = N''''<root>'''' + @retvalOUT END"
    ∷ "                    ELSE BEGIN SET @message = @message + @retvalOUT END"
    ∷ "                END "
    ∷ "                IF (@message != N''''<root/>'''') BEGIN SET @message = @message + N''''</root>'''' END"
    ∷ "            END" ∷ "          --Beginning of dialog..."
    ∷ "          DECLARE @ConvHandle UNIQUEIDENTIFIER"
    ∷ "          --Determine the Initiator Service, Target Service and the Contract "
    ∷ "          BEGIN DIALOG @ConvHandle "
    ∷ "                FROM SERVICE [{3}] TO SERVICE ''''{3}'''' ON CONTRACT [DEFAULT] WITH ENCRYPTION=OFF, LIFETIME = 60; "
    ∷ "          --Send the Message"
    ∷ "          SEND ON CONVERSATION @ConvHandle MESSAGE TYPE [DEFAULT] (@message);"
    ∷ "          --End conversation" ∷ "          END CONVERSATION @ConvHandle;" ∷ "        END"
    ∷ "      " ∷ [])

unfoldable pub installation_format : Str
installation_format = text_lines (
    "" ∷ "        USE [{0}]" ∷ "" ∷ "        IF OBJECT_ID ('{6}.{1}', 'P') IS NULL"
    ∷ "        BEGIN" ∷ "            EXEC ('" ∷ "            CREATE PROCEDURE {6}.{1}"
    ∷ "            AS" ∷ "            BEGIN"
    ∷ "                -- Service Broker configuration statement." ∷ "                {2}"
    ∷ "                " ∷ "                -- Notification Trigger check statement."
    ∷ "                {4}" ∷ "                "
    ∷ "                -- Notification Trigger configuration statement."
    ∷ "                DECLARE @triggerStatement NVARCHAR(MAX)"
    ∷ "                DECLARE @select NVARCHAR(MAX)"
    ∷ "                DECLARE @sqlInserted NVARCHAR(MAX)"
    ∷ "                DECLARE @sqlDeleted NVARCHAR(MAX)" ∷ "                "
    ∷ "                SET @triggerStatement = N''{3}''" ∷ "                "
    ∷ "                SET @select = STUFF((SELECT '','' + ''['' + COLUMN_NAME + '']''"
    ∷ "                        FROM INFORMATION_SCHEMA.COLUMNS"
    ∷ "                        WHERE DATA_TYPE NOT IN  (''text'',''ntext'',''image'',''geometry'',''geography'') AND TABLE_SCHEMA = ''{6}'' AND TABLE_NAME = ''{5}'' AND TABLE_CATALOG = ''{0}''"
    ∷ "                        FOR XML PATH ('''')" ∷ "                        ), 1, 1, '''')" ∷ ""
    ∷ "                SET @sqlInserted = "
    ∷ "                    N''SET @retvalOUT = (SELECT '' + @select + N'' "
    ∷ "                                        FROM INSERTED "
    ∷ "                                        FOR XML PATH(''''row''''), ROOT (''''inserted''''))''"
    ∷ "" ∷ "                SET @sqlDeleted = "
    ∷ "                    N''SET @retvalOUT = (SELECT '' + @select + N'' "
    ∷ "                                        FROM DELETED "
    ∷ "                                        FOR XML PATH(''''row''''), ROOT (''''deleted''''))''                            "
    ∷ "" ∷ "                SET @triggerStatement = REPLACE(@triggerStatement"
    ∷ "                                        , ''%inserted_select_statement%'', @sqlInserted)"
    ∷ "" ∷ "                SET @triggerStatement = REPLACE(@triggerStatement"
    ∷ "                                        , ''%deleted_select_statement%'', @sqlDeleted)" ∷ ""
    ∷ "                EXEC sp_executesql @triggerStatement" ∷ "" ∷ "            END"
    ∷ "          ')" ∷ "        END" ∷ [])
