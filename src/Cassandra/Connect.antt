-- ===== src/Cassandra/Connect.antt =====
-- The life of a `CassandraBaseClient` (store.storage.cassandra/src/cassandra_base_client.hpp): what it
-- makes, `tryConnect`, and its destructor. The driver's calls on clusters and sessions are a parameter.
use store_cpp.Base.{ℕ, zero, suc, ◌≡◌, Option, none, some, [], ◌∷◌, ◌++◌, Str, codes}
use store_cpp.Extensions.Format.{c_str}
use store_cpp.Cassandra.Driver.{M, pure, ◌>>=◌, ◌>>◌, call, step, stuck}

-- `set_authenticator_callbacks` keeps a pointer to the credentials: they are what it points to when it
-- is called.
pub record Clusters : Type 1 where
  pub World : Type 0
  pub Cluster : Type 0
  pub Session : Type 0
  pub UuidGen : Type 0
  pub Future : Type 0
  pub session_new : World → Session × World
  pub uuid_gen_new : World → UuidGen × World
  pub cluster_new : World → Cluster × World
  pub set_contact_points : Cluster → Str → World → World
  pub set_authenticator_callbacks : Cluster → Str × Str → World → World
  pub session_connect : Session → Cluster → World → Future × World
  pub future_error_code : Future → World → ℕ × World
  pub future_error_message : Future → World → Str × World
  pub future_free : Future → World → World
  pub set_request_timeout : Cluster → ℕ → World → World
  pub set_core_connections_per_host : Cluster → ℕ → World → World
  pub set_coalesce_delay : Cluster → ℕ → World → World
  pub set_new_request_ratio : Cluster → ℕ → World → World
  pub cluster_free : Cluster → World → World
  pub session_free : Session → World → World
  pub uuid_gen_free : UuidGen → World → World
  pub print : Str → World → World

module _ (D : Clusters) where
  open D use {World, Cluster, Session, UuidGen, Future}

  pub record Connection : Type 0 where
    pub hosts : Str
    pub username : Str
    pub password : Str
    pub request_timeout : ℕ
    pub cluster : Option Cluster
    pub session : Session
    pub uuid_gen : UuidGen

  -- The constructor, with the members that are made with it.
  unfoldable pub make_connection : Str → Str → Str → ℕ → M World Connection
  make_connection hosts username password request_timeout = do
    session ← call D.session_new
    uuid_gen ← call D.uuid_gen_new
    pure (record {
      hosts = hosts;
      username = username;
      password = password;
      request_timeout = request_timeout;
      cluster = none;
      session = session;
      uuid_gen = uuid_gen;
    })

  unfoldable pub create_cluster : Str → M World Cluster
  create_cluster hosts = do
    cluster ← call D.cluster_new
    step (D.set_contact_points cluster (c_str hosts))
    pure cluster

  -- `if (username.size() > 0)`
  unfoldable pub set_credentials : Cluster → Str → Str → M World (Unit {0})
  set_credentials cluster [] password = pure tt
  set_credentials cluster (u ∷ username) password =
      step (D.set_authenticator_callbacks cluster (c_str (u ∷ username), c_str password))

  -- A failure ends in `throw;` with no exception to throw again.
  unfoldable pub tune : Connection → Cluster → Future → ℕ → M World (Unit {0})
  tune c cluster connect_future zero = do
    step (D.print (codes "Successfully connected to " ++ (c_str c.hosts ++ (10 ∷ []))))
    step (D.set_request_timeout cluster c.request_timeout)
    step (D.set_core_connections_per_host cluster 1)
    step (D.set_coalesce_delay cluster 100)
    step (D.set_new_request_ratio cluster 35)
  tune c cluster connect_future (suc code) = do
    message ← call (D.future_error_message connect_future)
    step (D.print (codes "Unable to connect: '" ++ (message ++ codes "'\n")))
    stuck

  unfoldable pub try_connect : Connection → M World Connection
  unfolding create_cluster set_credentials tune
  try_connect c = do
    cluster ← create_cluster c.hosts
    set_credentials cluster c.username c.password
    connect_future ← call (D.session_connect c.session cluster)
    code ← call (D.future_error_code connect_future)
    tune c cluster connect_future code
    step (D.future_free connect_future)
    pure (record c { cluster = some cluster })

  unfoldable pub free_cluster : Option Cluster → M World (Unit {0})
  free_cluster none = pure tt
  free_cluster (some cluster) = step (D.cluster_free cluster)

  -- The destructor; nothing is ever put into `futures`.
  unfoldable pub destroy : Connection → M World (Unit {0})
  unfolding free_cluster
  destroy c = do
    free_cluster c.cluster
    step (D.session_free c.session)
    step (D.uuid_gen_free c.uuid_gen)

  -- So many calls of `tryConnect`, one after the other.
  unfoldable pub try_times : ℕ → Connection → M World Connection
  try_times zero c = pure c
  try_times (suc n) c = do c' ← try_connect c; try_times n c'

-- How many objects of the driver are not freed.
pub record ClusterLaws (D : Clusters) : Type 0 where
  pub live : D.World → ℕ
  pub made_session : (w : D.World) → live (D.session_new w).1 ≡ suc (live w)
  pub made_uuid_gen : (w : D.World) → live (D.uuid_gen_new w).1 ≡ suc (live w)
  pub made_cluster : (w : D.World) → live (D.cluster_new w).1 ≡ suc (live w)
  pub made_future :
      (s : D.Session) (c : D.Cluster) (w : D.World)
      → live (D.session_connect s c w).1 ≡ suc (live w)
  pub freed_future :
      (f : D.Future) (w : D.World) (n : ℕ) → live w ≡ suc n → live (D.future_free f w) ≡ n
  pub freed_cluster :
      (c : D.Cluster) (w : D.World) (n : ℕ) → live w ≡ suc n → live (D.cluster_free c w) ≡ n
  pub freed_session :
      (s : D.Session) (w : D.World) (n : ℕ) → live w ≡ suc n → live (D.session_free s w) ≡ n
  pub freed_uuid_gen :
      (g : D.UuidGen) (w : D.World) (n : ℕ) → live w ≡ suc n → live (D.uuid_gen_free g w) ≡ n
  pub kept_contact :
      (c : D.Cluster) (h : Str) (w : D.World) → live (D.set_contact_points c h w) ≡ live w
  pub kept_callbacks :
      (c : D.Cluster) (p : Str × Str) (w : D.World)
      → live (D.set_authenticator_callbacks c p w) ≡ live w
  pub kept_code : (f : D.Future) (w : D.World) → live (D.future_error_code f w).1 ≡ live w
  pub kept_message : (f : D.Future) (w : D.World) → live (D.future_error_message f w).1 ≡ live w
  pub kept_timeout :
      (c : D.Cluster) (n : ℕ) (w : D.World) → live (D.set_request_timeout c n w) ≡ live w
  pub kept_core :
      (c : D.Cluster) (n : ℕ) (w : D.World) → live (D.set_core_connections_per_host c n w) ≡ live w
  pub kept_delay :
      (c : D.Cluster) (n : ℕ) (w : D.World) → live (D.set_coalesce_delay c n w) ≡ live w
  pub kept_ratio :
      (c : D.Cluster) (n : ℕ) (w : D.World) → live (D.set_new_request_ratio c n w) ≡ live w
  pub kept_print : (s : Str) (w : D.World) → live (D.print s w) ≡ live w
