-- ===== src/Cassandra.antt =====
-- The Cassandra client and its task runner (store.storage.cassandra/src): `Driver` is the DataStax
-- driver, a parameter; `Client` is `CassandraBaseClient`; `Statements` builds the insert statement;
-- `Resource` and `Manager` are `ca_resource_modified` and `CaResourceManager`.
pub mod Driver
pub mod Balance
pub mod Connect
pub mod Lifetime
pub mod Connected
pub mod Client
pub mod Statements
pub mod ClientLaws
pub mod Resource
pub mod Registry
pub mod Manager
pub mod Newest
pub mod ManagerLaws
pub mod RegistryLaws
pub mod Total
pub mod Rounds
pub mod StatementLaws
