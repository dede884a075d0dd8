-- ===== src/Pools/Settings.antt =====
-- `createPoolFromJson` of the three pools (store.storage.connection-pools/src/pgsql.hpp, mssql.hpp,
-- mssql_dblib.hpp), and the functions of the two pools of SQL Server.
use store_cpp.Base.{◌≡◌, refl, Bool, true, Option, none, some, List, [], ◌∷◌, Str, codes}
use store_cpp.Base.Int.{ℤ}
use store_cpp.Ioc.{Container}
use store_cpp.Extensions.JsonPath.{path_of, assigned, get_path_value, get_path_value-assigned}
use store_cpp.Pools.{
  DbContext, Endpoint, PoolKind, mssql, mssql_dblib, PoolLib, Created, create_pool_impl,
  create_pool_from_db_context,
}

-- A configuration, as `getPathValueFromJson` reads it.
pub record Config : Type 0 where
  pub is_pointer : Str → Bool
  pub at_text : Str → Option Str
  pub at_int : Str → Option ℤ

-- What is read: an exception, a port that is not set, or an endpoint.
pub data ConfigRead : Type 0 where
  threw_path : ConfigRead
  port_unset : ConfigRead
  endpoint : Endpoint → ConfigRead

module _ (config : Config) where
  open config use {is_pointer, at_text, at_int}

  abbrev text_at : List Str → Option Str
  text_at params = get_path_value is_pointer at_text [] params

  -- An `int` is declared without a value: `none` inside is what no one has set.
  unfoldable pub int_value : Str → Option (Option ℤ)
  int_value p = elim (at_int p) [ none ↦ none | some z ↦ some (some z) ]

  int_value-found : (p : Str) (z : ℤ) → at_int p ≡ some z → int_value p ≡ some (some z)
  unfolding int_value
  int_value-found p z e = rw (e, int_value) refl

  abbrev int_at : List Str → Option (Option ℤ)
  int_at params = get_path_value is_pointer int_value none params

  unfoldable pub make_endpoint :
      Option (Option ℤ) → Option Str → Option Str → Option Str → Option Str → ConfigRead
  make_endpoint (some (some port)) (some server) (some database) (some user) (some password) =
      endpoint (record {
        server = server;
        port = port;
        database = database;
        user = user;
        password = password;
      })
  make_endpoint (some none) (some server) (some database) (some user) (some password) = port_unset
  make_endpoint _ _ _ _ _ = threw_path

  unfoldable pub endpoint_at : Str → Str → ConfigRead
  endpoint_at library environment =
      make_endpoint (int_at (library ∷ environment ∷ codes "port" ∷ []))
        (text_at (library ∷ environment ∷ codes "server" ∷ []))
        (text_at (library ∷ environment ∷ codes "database" ∷ []))
        (text_at (library ∷ environment ∷ codes "user" ∷ []))
        (text_at (library ∷ environment ∷ codes "password" ∷ []))

module _ (kind : PoolKind) (L : PoolLib) where
  open L use {World}

  -- How `createPoolFromJson` goes on with what it read.
  pub data FromJson : Type 0 where
    ran : Created World → FromJson
    threw_parse : FromJson
    undefined : FromJson

  unfoldable pub create_at : Str → ℤ → Container → World → ConfigRead → FromJson
  create_at key size c w (endpoint e) = ran (create_pool_impl kind L e key size c w)
  create_at key size c w threw_path = threw_parse
  create_at key size c w port_unset = undefined

  unfoldable pub create_pool_from_json : Config → Str → Str → ℤ → Container → World → FromJson
  create_pool_from_json config environment key size c w =
      create_at key size c w (endpoint_at config kind.settings environment)

  -- The path of one setting.
  abbrev pub setting_path : Str → Str → Str
  setting_path environment name = path_of (kind.settings ∷ environment ∷ name ∷ [])

  -- With a port in the configuration, the pool is made at the configuration's endpoint, whose missing
  -- texts are empty; the paths have to be pointers, as they are without `~` in the environment.
  create_pool_from_json-create_pool_impl :
      (config : Config) (environment key : Str) (size port : ℤ) (c : Container) (w : World)
      → ((p : Str) → config.is_pointer p ≡ true)
      → config.at_int (setting_path environment (codes "port")) ≡ some port
      → create_pool_from_json config environment key size c w
        ≡ ran (
            create_pool_impl kind L
              (record {
                server = assigned [] (config.at_text (setting_path environment (codes "server")));
                port = port;
                database =
                    assigned [] (config.at_text (setting_path environment (codes "database")));
                user = assigned [] (config.at_text (setting_path environment (codes "user")));
                password =
                    assigned [] (config.at_text (setting_path environment (codes "password")));
              })
              key
              size
              c
              w)
  create_pool_from_json-create_pool_impl config environment key size port c w h e =
      let texts = λ (name : Str).
        get_path_value-assigned config.is_pointer config.at_text []
          (kind.settings ∷ environment ∷ name ∷ []) (h (setting_path environment name)) in
      let number =
        get_path_value-assigned config.is_pointer (int_value config) none
          (kind.settings ∷ environment ∷ codes "port" ∷ [])
          (h (setting_path environment (codes "port"))) in
      unfold create_pool_from_json endpoint_at in
      rw
        (
          number,
          texts (codes "server"),
          texts (codes "database"),
          texts (codes "user"),
          texts (codes "password"),
          int_value-found config (setting_path environment (codes "port")) port e,
        )
        (unfold create_at make_endpoint assigned in refl)

-- The functions of mssql.hpp and of mssql_dblib.hpp.
module _ (L : PoolLib) where
  open L use {World}

  unfoldable pub create_mssql_pool_impl : Endpoint → Str → ℤ → Container → World → Created World
  create_mssql_pool_impl = create_pool_impl mssql L

  unfoldable pub create_mssql_pool_from_json :
      Config → Str → Str → ℤ → Container → World → FromJson mssql L
  create_mssql_pool_from_json = create_pool_from_json mssql L

  unfoldable pub create_mssql_pool_from_db_context :
      DbContext → Str → ℤ → Container → World → Created World
  create_mssql_pool_from_db_context = create_pool_from_db_context mssql L

  unfoldable pub create_dblib_pool_impl : Endpoint → Str → ℤ → Container → World → Created World
  create_dblib_pool_impl = create_pool_impl mssql_dblib L

  unfoldable pub create_dblib_pool_from_json :
      Config → Str → Str → ℤ → Container → World → FromJson mssql_dblib L
  create_dblib_pool_from_json = create_pool_from_json mssql_dblib L

  unfoldable pub create_dblib_pool_from_db_context :
      DbContext → Str → ℤ → Container → World → Created World
  create_dblib_pool_from_db_context = create_pool_from_db_context mssql_dblib L
