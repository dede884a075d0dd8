-- ===== src/Mongo.antt =====
-- The Mongo client and its event store (store.storage.mongo/src): `Driver` is mongocxx, a parameter;
-- `Client` is `MongoBaseClient`; `Store` is `MongoEventStore`.
pub mod Driver
pub mod Client
pub mod Store
pub mod Escapes
pub mod Versions
