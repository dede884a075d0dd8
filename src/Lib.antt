-- ===== src/Lib.antt =====
-- Store-cpp: a C++ library of helpers, event sourcing, database clients and web servers.
--
-- The program's parts and the files that model them. Paths are from the root of the repository.
--   Extensions   store.models/src/extensions.hpp: letter case (Case), join and quoting (Join),
--                stripping (Trim), splitting (Split), hexadecimal (Hex), string_format over snprintf
--                (Format), resolve_type_to_string (TypeName), string_replace (Replace),
--                getPathValueFromJson (JsonPath)
--   Common       store.common/src: sha256.hpp (Sha256), process.hpp (Process), background_worker.hpp
--                (Worker), socket.hpp (Socket)
--   Time         store.common/src/time.hpp: time points, adding days, daysAgo, dateDiff
--   Events       store.events/src: IEvent with its JSON form and the pending list of EventStore
--                (Event), getMaxEvent (Latest), IEventStream (Stream)
--   Ioc          store.models/src/ioc/simple_container.hpp: the four maps of IOCContainer, with
--                GetInstance and its creators in Build
--   Insert       store.common/src/runtime_get_tuple.hpp and the loops of Client::insertOne
--   Pgsql        store.storage.pgsql/src: pg_client.hpp (Errors, Session, Statements, Query,
--                Documents), pg_eventstore.hpp (Append for Save, LastExecution, EventSearch for
--                Search), pg_largeobject.hpp (LargeObject),
--                pg_notifier.hpp (Listener)
--   Kafka        store.storage.kafka/src/kafka_base_client.hpp
--   Mysql        store.storage.mysql/src/my_client.hpp
--   Pools        store.storage.connection-pools/src: pgsql.hpp, mssql.hpp and mssql_dblib.hpp, with
--                DBContext of store.models/src/models.hpp: making a pool once under a key, from a
--                context or a configuration (Settings)
--   Mssql        store.storage.sqlserver/src/mssql_base_client.hpp: execute, insertOne, runQuery
--   Notifier     store.storage.sqlserver/src/mssql_notifier.hpp and mssql_dblib_base_client.hpp: the
--                texts (Queries, Cleaning, Install, Uninstall), the scripts (Scripts), the statements
--                (Client), and the thread that receives, with stop and join (Thread)
--   Cassandra    store.storage.cassandra/src: cassandra_base_client.hpp (Connect, Client, Statements),
--                ca_resource_modified.hpp and ca_resource_common.hpp (Resource), and
--                ca_resource_manager.hpp (Registry for its settings, Manager for its rounds)
--   Mongo        store.storage.mongo/src: mongo_base_client.hpp (Client), mongo_client.hpp (Store)
--   WebToken     store.common/src/web_token.hpp: decryptJwt, tokenExpired, isRS256Authenticated;
--                createJwt, with the session store of store.storage.redis/src/redis_client.hpp (Create)
--   Servers      store.servers/src: session.hpp (Session), replies.hpp and util.hpp (Http,
--                Assets), http-server.hpp (HttpServer),
--                rs256-secure-server.hpp (Secure), ws-server.hpp, ws-user.hpp and
--                rs256-secure-ws-server.hpp (WebSocket), the broadcast of
--                rs256-secure-redis-ws-server.hpp (WebSocket.Broadcast)
-- The other modules: Base has the shared types and lemmas, Library the interfaces of libraries that
-- the code calls and their laws, Tests concrete libraries and inputs.
--
-- How the parts interact. The event store shares the client's pool, which is the interface
-- Library.Database: a call takes the world to a new one and returns a value or the exception. The
-- large objects take libpq as the interface LoLib. The client's constructor makes its pool in Pools,
-- which keeps it in the container of Ioc. An `Attempt` is what a `try` block leaves that begins with
-- borrowing a connection. The servers authenticate by WebToken and read a Session from its result.
--
-- The Cassandra client is a state monad over the driver's world that may end the process, the Mongo
-- client one with exceptions. The manager of Cassandra's tasks reads its settings from the container of
-- Ioc and runs its two callbacks inside the queries of the client. The notifier's thread and the
-- thread that stops it share a flag: a run is a sequence of steps of the thread, requests to stop, and
-- changes that other clients of the pool make.
--
-- Names follow the source, in snake case: ProcessRequest is process_request. A method that may throw
-- returns a Result or an Option; undefined behaviour is `none` or an outcome of its own. Where a
-- method of a value type flows off its end, as the dblib client's do, the model stops there. Bytes are
-- numbers, texts are lists of them, and maps are association lists in the order of the map.
--
-- Kafka's dispatcher is a run over what its library calls back with, a list of events, and MySQL's
-- handlers are due in a service that is a parameter. The PostgreSQL listener runs for ever: a fuel bounds its
-- rounds, and another the notifications of a round, of which one more than there are is enough.
--
-- Bounds and fuel. Writing a large object takes as many rounds as there are bytes at most. Reading
-- one takes a fuel, and one round more than there are bytes is enough. GetInstance takes a fuel,
-- and one more than the rank of the type is enough. Hashing a text and reading the output of a command
-- take as many rounds as there are bytes at most. A time point has 64 bits; an overflow is undefined.
-- A cell of a Cassandra row may be null, and the container may hold no client. JSON numbers that are read as `int` are cut to 32
-- bits.
--
-- Not modelled: the JSON client of SQL Server, whose rows runQuery never returns; the rest of the Redis
-- client and of the Redis servers, which hand their arguments on; printing times by the C library; the
-- interfaces and data types that no code uses; the event loops, logging, and the copied libraries for
-- base64, groupBy and uuid, which are parameters where the code calls them. Of the threads the
-- notifier's steps are modelled, and of a worker's and of the web server's only that they are made and
-- joined; the round of the Cassandra tasks is, and its endless repetition is not.
mod Base
pub mod Library
pub mod Extensions
pub mod Events
pub mod Ioc
pub mod WebToken
pub mod Servers
pub mod Insert
pub mod Pgsql
pub mod Mssql
pub mod Pools
pub mod Notifier
pub mod Cassandra
pub mod Mongo
pub mod Kafka
pub mod Mysql
pub mod Time
pub mod Common
mod Tests
