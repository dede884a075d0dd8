-- ===== src/Pools/Clients.antt =====
-- The constructors that get a client its pool: `MsSqlBaseClient` (mssql_base_client.hpp) and
-- `MsSqlDbLibBaseClient` (mssql_dblib_base_client.hpp), and the one of the PostgreSQL client that reads a
-- configuration (pg_client.hpp).
use store_cpp.Base.{◌⊎◌, inl, inr, ◌≡◌, refl, ap, subst, Str}
use store_cpp.Base.Int.{ℤ}
use store_cpp.Ioc.{Container, Got, get_instance_with_key}
use store_cpp.Pools.{
  DbContext, Endpoint, endpoint_of, PoolKind, postgres, mssql_dblib, PoolLib, Created, done, threw,
  aborted, create_pool_impl, create_pool_from_db_context,
}
use store_cpp.Pools.Settings.{
  Config, ConfigRead, endpoint, threw_path, port_unset, FromJson, ran, threw_parse, undefined,
  create_pool_from_json, create_at, endpoint_at,
}
use store_cpp.Pools.Laws.{create_pool_impl-again}

module _ (kind : PoolKind) (L : PoolLib) where
  open L use {World}

  -- A client has the pool that it gets from the container; or its constructor was left.
  pub data Pooled : Type 0 where
    pooled : Got → Container → World → Pooled
    not_pooled : Created World → Pooled
    bad_path : Pooled
    no_port : Pooled

  unfoldable pub get_pool : Str → Created World → Pooled
  get_pool key (done c w) = pooled (get_instance_with_key kind.pool_type key c) c w
  get_pool key (threw m w) = not_pooled (threw m w)
  get_pool key aborted = not_pooled aborted

  unfoldable pub client_at : Endpoint → Str → ℤ → Container → World → Pooled
  unfolding get_pool
  client_at e key size c w = get_pool key (create_pool_impl kind L e key size c w)

  unfoldable pub client_from_db_context : DbContext → Str → ℤ → Container → World → Pooled
  unfolding get_pool
  client_from_db_context d key size c w =
      get_pool key (create_pool_from_db_context kind L d key size c w)

  unfoldable pub get_read_pool : Str → FromJson kind L → Pooled
  unfolding get_pool
  get_read_pool key (ran r) = get_pool key r
  get_read_pool key threw_parse = bad_path
  get_read_pool key undefined = no_port

  unfoldable pub client_from_json : Config → Str → Str → ℤ → Container → World → Pooled
  unfolding get_read_pool
  client_from_json config environment key size c w =
      get_read_pool key (create_pool_from_json kind L config environment key size c w)

  abbrev result_of : Pooled → Container → Got → Got × Container
  result_of (pooled g c w) d h = (g, c)
  result_of _ d h = (h, d)

  shared_at :
      (e e' : Endpoint) (key : Str) (size size' : ℤ) (c c' : Container) (w v w' : World) (g : Got)
      (r : Created World)
      → create_pool_impl kind L e key size c w ≡ r
      → get_pool key r ≡ pooled g c' w'
      → client_at e' key size' c' v ≡ pooled g c' v
  unfolding get_pool client_at
  shared_at e e' key size size' c c' w v w' g (done d u) x h =
      subst (λ (q : Got × Container). client_at e' key size' q.1 v ≡ pooled q.0 q.1 v)
        (ap (λ p. result_of p d g) h)
        (ap (get_pool key) (create_pool_impl-again kind L e e' key size size' c d w u v x))
  shared_at e e' key size size' c c' w v w' g (threw m u) x h = cc
  shared_at e e' key size size' c c' w v w' g aborted x h = cc

  shared_read :
      (read : ConfigRead) (e' : Endpoint) (key : Str) (size size' : ℤ) (c c' : Container)
      (w v w' : World) (g : Got)
      → get_read_pool key (create_at kind L key size c w read) ≡ pooled g c' w'
      → client_at e' key size' c' v ≡ pooled g c' v
  unfolding get_read_pool create_at
  shared_read (endpoint e) e' key size size' c c' w v w' g h =
      shared_at e e' key size size' c c' w v w' g (create_pool_impl kind L e key size c w) refl h
  shared_read threw_path e' key size size' c c' w v w' g h = cc
  shared_read port_unset e' key size size' c c' w v w' g h = cc

  -- Once a client was made, from an endpoint, a context or a configuration: a client that is made
  -- later under the same key, whatever its endpoint and its size, gets the same pool, and no
  -- connection is opened.
  pub client_at-shared :
      (e' : Endpoint) (key : Str) (size size' : ℤ) (c c' : Container) (w v w' : World) (g : Got)
      → (((e : Endpoint) × (client_at e key size c w ≡ pooled g c' w'))
          ⊎ (((d : DbContext) × (client_from_db_context d key size c w ≡ pooled g c' w'))
              ⊎ ((config : Config) × (environment : Str) × (client_from_json config environment key
                      size c w
                    ≡ pooled g c' w'))))
      → client_at e' key size' c' v ≡ pooled g c' v
  unfolding client_from_db_context create_pool_from_db_context client_from_json
      create_pool_from_json
  client_at-shared e' key size size' c c' w v w' g (inl (e, h)) =
      shared_at e e' key size size' c c' w v w' g (create_pool_impl kind L e key size c w) refl
        (unfold client_at in h)
  client_at-shared e' key size size' c c' w v w' g (inr (inl (d, h))) =
      shared_at (endpoint_of d) e' key size size' c c' w v w' g _ refl h
  client_at-shared e' key size size' c c' w v w' g (inr (inr (config, environment, h))) =
      shared_read (endpoint_at config kind.settings environment) e' key size size' c c' w v w' g h

-- The constructors of `MsSqlDbLibBaseClient`, and the second one of the PostgreSQL client.
module _ (L : PoolLib) where
  open L use {World}

  unfoldable pub dblib_client_at : Endpoint → Str → ℤ → Container → World → Pooled mssql_dblib L
  dblib_client_at = client_at mssql_dblib L

  unfoldable pub dblib_client_from_db_context :
      DbContext → Str → ℤ → Container → World → Pooled mssql_dblib L
  dblib_client_from_db_context = client_from_db_context mssql_dblib L

  unfoldable pub dblib_client_from_json :
      Config → Str → Str → ℤ → Container → World → Pooled mssql_dblib L
  dblib_client_from_json = client_from_json mssql_dblib L

  -- The size is handed on as it is.
  unfoldable pub pg_client_from_json :
      Config → Str → Str → ℤ → Container → World → Pooled postgres L
  pg_client_from_json = client_from_json postgres L
