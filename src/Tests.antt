-- ===== src/Tests.antt =====
-- Each theorem with hypotheses applied to concrete inputs, and the libraries those inputs take.
pub mod Plain
pub mod Groups
pub mod Counting
mod Common
mod Clients
mod Mssql
mod Pools
mod Servers
mod Sessions
pub mod Sorted
mod Notifier
mod Mongo
mod Time
mod Cassandra
mod Listening
mod Helpers
mod Hosting
pub mod Asio
mod Brokers
