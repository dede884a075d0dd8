-- ===== src/Pools.antt =====
-- Connection pools: `DBContext` (store.models/src/models.hpp), `createPoolImpl`, `createPool` and
-- `createPoolFromDBContext` (store.storage.connection-pools/src/pgsql.hpp) over the service container,
-- and the constructor of the PostgreSQL client (pg_client.hpp). A pool is made by the pool library,
-- which is a parameter; a pointer to it is a number.
pub mod Laws
pub mod Settings
pub mod Clients
use store_cpp.Base.{
  ℕ, ◌≡◌, Bool, true, false, not, ◌&&◌, Option, none, some, Str, codes, if◌then◌else◌, [], ◌∷◌,
}
use store_cpp.Base.Int.{ℤ, pos, ltb_ℤ}
use store_cpp.Extensions.Format.{string_format, int}
use store_cpp.Pgsql.Statements.{text}
use store_cpp.Ioc.{
  Container, Got, instance_with_key_exist, register_instance_with_key, get_instance_with_key,
}

pub record DbContext : Type 0 where
  pub application_name : Str
  pub server : Str
  pub port : ℤ
  pub database : Str
  pub user : Str
  pub password : Str
  pub connect_timeout : ℤ

-- The default member initialisers.
unfoldable pub default_context : DbContext
default_context = record {
  application_name = codes "store";
  server = codes "127.0.0.1";
  port = pos 5432;
  database = [];
  user = [];
  password = [];
  connect_timeout = pos 10;
}

unfoldable pub connection_info : DbContext → Option Str
connection_info d =
    string_format
      (codes "application_name=%s host=%s port=%d dbname=%s connect_timeout=%d user=%s password=%s")
      (text d.application_name
        ∷ text d.server
        ∷ int d.port
        ∷ text d.database
        ∷ int d.connect_timeout
        ∷ text d.user
        ∷ text d.password
        ∷ [])

-- The factory's arguments.
pub record Endpoint : Type 0 where
  pub server : Str
  pub port : ℤ
  pub database : Str
  pub user : Str
  pub password : Str

unfoldable pub endpoint_of : DbContext → Endpoint
endpoint_of d = record {
  server = d.server;
  port = d.port;
  database = d.database;
  user = d.user;
  password = d.password;
}

-- Making a pool opens its connections and may throw; `get_stats().pool_size` is what it holds.
pub record PoolLib : Type 1 where
  pub World : Type 0
  pub make_pool : Endpoint → ℤ → World → Option ℕ × World
  pub pool_size : ℕ → ℤ

-- What the three copies of `createPool` differ in: the type's name in the container, the text that is
-- thrown, and the name of the library's part of a configuration.
pub record PoolKind : Type 0 where
  pub pool_type : Str
  pub failure : Str
  pub settings : Str

abbrev pub postgres : PoolKind
postgres = record {
  pool_type = codes "ConnectionPool<PostgreSQLConnection>";
  failure = codes "Cannot create PostgreSQL pool";
  settings = codes "postgres";
}

abbrev pub mssql : PoolKind
mssql = record {
  pool_type = codes "ConnectionPool<MSSQLConnection>";
  failure = codes "Cannot create MSSQL pool";
  settings = codes "mssql";
}

abbrev pub mssql_dblib : PoolKind
mssql_dblib = record {
  pool_type = codes "ConnectionPool<MSSQLDbLibConnection>";
  failure = codes "Cannot create MSSQL dblib pool";
  settings = codes "mssql";
}

-- A call returns, throws a text, or fails its assertion.
pub data Created (World : Type 0) : Type 0 where
  done : Container → World → Created World
  threw : Str → World → Created World
  aborted : Created World

unfoldable pub same : ℤ → ℤ → Bool
same a b = not (ltb_ℤ a b) && not (ltb_ℤ b a)

module _ (kind : PoolKind) (L : PoolLib) where
  open kind use {pool_type, failure}
  open L use {World, make_pool, pool_size}

  unfoldable pub register_pool : Str → ℤ → Container → Option ℕ × World → Created World
  unfolding same
  register_pool key size c (none, w) = threw failure w
  register_pool key size c (some p, w) =
      if same (pool_size p) size
      then done (register_instance_with_key pool_type key (some p) c) w
      else aborted

  unfoldable pub create_pool_impl : Endpoint → Str → ℤ → Container → World → Created World
  unfolding register_pool
  create_pool_impl e key size c w =
      if instance_with_key_exist pool_type key c
      then done c w
      else register_pool key size c (make_pool e size w)

  unfoldable pub create_pool_from_db_context :
      DbContext → Str → ℤ → Container → World → Created World
  unfolding endpoint_of create_pool_impl
  create_pool_from_db_context d key size c w = create_pool_impl (endpoint_of d) key size c w

-- `poolSize > 0 && poolSize <= 20 ? poolSize : 10`
unfoldable pub client_pool_size : ℤ → ℤ
client_pool_size size = if ltb_ℤ (pos 0) size && not (ltb_ℤ (pos 20) size) then size else pos 10

module _ (L : PoolLib) where
  open L use {World}

  -- The constructor of the client: its connection text, the pool that it gets, the container and
  -- the world after it.
  pub data MadeClient : Type 0 where
    client : Option Str → Got → Container → World → MadeClient
    failed : Created World → MadeClient

  unfoldable pub with_pool : Option Str → Str → Created World → MadeClient
  with_pool info key (done c w) = client info (get_instance_with_key postgres.pool_type key c) c w
  with_pool info key r = failed r

  unfoldable pub make_client : DbContext → Str → ℤ → Container → World → MadeClient
  unfolding create_pool_from_db_context client_pool_size with_pool connection_info
  make_client d key size c w =
      with_pool (connection_info d) key
        (create_pool_from_db_context postgres L d key (client_pool_size size) c w)
