-- ===== src/Cassandra/Connected.antt =====
-- A client of Cassandra whose connections succeed (store.storage.cassandra/src/cassandra_base_client.hpp).
use store_cpp.Cassandra.Total.{Total}
