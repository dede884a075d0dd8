-- ===== src/Notifier.antt =====
-- The SQL Server notifier (store.storage.sqlserver/src/mssql_notifier.hpp) and the client that it
-- asks (mssql_dblib_base_client.hpp). `Scripts` writes the statements, `Client` runs them, `Thread`
-- is the thread that receives; `Stopping` is about its end.
mod Queries
mod Cleaning
mod Install
mod Uninstall
pub mod Scripts
pub mod Client
pub mod Thread
pub mod Stopping
