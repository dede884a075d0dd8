-- ===== src/Pgsql.antt =====
-- store.storage.pgsql/src: the PostgreSQL client, its event store and its large objects.
pub mod Errors
pub mod Session
pub mod Statements
pub mod Query
pub mod Listing
pub mod Documents
pub mod Append
pub mod AppendLaws
pub mod LastExecution
pub mod EventSearch
pub mod LargeObject
pub mod Listener
pub mod LargeObjectLaws
