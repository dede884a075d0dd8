-- ===== src/Cassandra/Lifetime.antt =====
-- What a `CassandraBaseClient` leaves in the driver (store.storage.cassandra/src/cassandra_base_client.hpp).
use store_cpp.Base.{ℕ, zero, suc, ◌+◌, ◌-◌, ◌≡◌, refl, arith, Option, none, some, [], ◌∷◌, Str}
use store_cpp.Cassandra.Driver.{◌>>=◌, ◌>>◌, step}
use store_cpp.Cassandra.Balance.{
  Grows, Grows-bind, Grows-then, Grows-pure, Grows-stuck, Grows-kept, Grows-made, Grows-step,
  Grows-freed, Grows-bind-Yields, Yields, Yields-bind, Yields-then, Yields-pure, Yields-bind-Yields,
  Grows-to,
}
use store_cpp.Cassandra.Connect.{
  Clusters, ClusterLaws, Connection, make_connection, create_cluster, set_credentials, tune,
  try_connect, free_cluster, destroy, try_times,
}

module _ (D : Clusters) (L : ClusterLaws D) where
  open D use {World, Cluster, Future}
  open L use {live}

  set_credentials-Grows :
      {a : ℕ} (c : Cluster) (u p : Str) → Grows live a (set_credentials D c u p) a
  unfolding set_credentials
  set_credentials-Grows c [] p = Grows-pure _
  set_credentials-Grows c (x ∷ u) p = Grows-step _ (L.kept_callbacks c _)

  tune-Grows :
      {a : ℕ} (c : Connection D) (cluster : Cluster) (f : Future) (code : ℕ)
      → Grows live a (tune D c cluster f code) a
  unfolding tune
  tune-Grows c cluster f zero = Grows-then (Grows-step _ (L.kept_print _)) (
      Grows-then (Grows-step _ (L.kept_timeout cluster _)) (
        Grows-then (Grows-step _ (L.kept_core cluster 1)) (
          Grows-then (Grows-step _ (L.kept_delay cluster 100))
            (Grows-step _ (L.kept_ratio cluster 35)))))
  tune-Grows c cluster f (suc code) =
      Grows-bind (Grows-kept _ (L.kept_message f))
        λ m. Grows-then (Grows-step _ (L.kept_print _)) Grows-stuck

  create_cluster-Grows : {a : ℕ} (hosts : Str) → Grows live a (create_cluster D hosts) (suc a)
  unfolding create_cluster
  create_cluster-Grows hosts =
      Grows-bind (Grows-made _ L.made_cluster)
        λ c. Grows-then (Grows-step _ (L.kept_contact c _)) (Grows-pure c)

  -- The cluster is made; the future is freed.
  try_connect-Grows : {a : ℕ} (c : Connection D) → Grows live a (try_connect D c) (suc a)
  unfolding try_connect
  try_connect-Grows c = Grows-bind (create_cluster-Grows c.hosts) λ cluster.
      Grows-then (set_credentials-Grows cluster c.username c.password) (
        Grows-bind (Grows-made _ (L.made_future c.session cluster)) λ f.
          Grows-bind (Grows-kept _ (L.kept_code f)) λ code.
            Grows-then (tune-Grows c cluster f code)
              (Grows-then (Grows-freed _ (L.freed_future f)) (Grows-pure _)))

  make_connection-Grows :
      {a : ℕ} (hosts username password : Str) (timeout : ℕ)
      → Grows live a (make_connection D hosts username password timeout) (suc (suc a))
  unfolding make_connection
  make_connection-Grows hosts username password timeout =
      Grows-bind (Grows-made _ L.made_session)
        λ s. Grows-bind (Grows-made _ L.made_uuid_gen) λ g. Grows-pure _

  free_cluster-none : {a : ℕ} (o : Option Cluster) → o ≡ none → Grows live a (free_cluster D o) a
  unfolding free_cluster
  free_cluster-none none e = Grows-pure _
  free_cluster-none (some c) e = cc

  free_cluster-some :
      {a : ℕ} (o : Option Cluster) (c : Cluster)
      → o ≡ some c
      → Grows live (suc a) (free_cluster D o) a
  unfolding free_cluster
  free_cluster-some none c e = cc
  free_cluster-some (some k) c e = Grows-freed _ (L.freed_cluster k)

  free_rest :
      {a : ℕ} (c : Connection D)
      → Grows live
          (suc (suc a))
          (step (D.session_free c.session) >> step (D.uuid_gen_free c.uuid_gen))
          a
  free_rest c =
      Grows-then (Grows-freed _ (L.freed_session c.session))
        (Grows-freed _ (L.freed_uuid_gen c.uuid_gen))

  destroy-none :
      {a : ℕ} (c : Connection D) → c.cluster ≡ none → Grows live (suc (suc a)) (destroy D c) a
  unfolding destroy
  destroy-none c e = Grows-then (free_cluster-none c.cluster e) (free_rest c)

  Connected : Connection D → Type 0
  Connected c = (k : Cluster) × (c.cluster ≡ some k)

  destroy-Connected :
      {a : ℕ} (c : Connection D) → Connected c → Grows live (suc (suc (suc a))) (destroy D c) a
  unfolding destroy Connected
  destroy-Connected c (k, e) = Grows-then (free_cluster-some c.cluster k e) (free_rest c)

  make_connection-none :
      (hosts username password : Str) (timeout : ℕ)
      → Yields (λ c. c.cluster ≡ none) (make_connection D hosts username password timeout)
  unfolding make_connection
  make_connection-none hosts username password timeout =
      Yields-bind _ λ s. Yields-bind _ λ g. Yields-pure _ refl

  try_connect-Connected : (c : Connection D) → Yields Connected (try_connect D c)
  unfolding try_connect Connected
  try_connect-Connected c = Yields-bind _ λ k. Yields-then _ (
      Yields-bind _
        λ f. Yields-bind _ λ code. Yields-then _ (Yields-then _ (Yields-pure _ (k, refl))))

  -- So many more clusters, of which the destructor knows the last one.
  try_times-Grows : (n : ℕ) {a : ℕ} (c : Connection D) → Grows live a (try_times D n c) (n + a)
  unfolding try_times
  try_times-Grows zero c = Grows-to (omega arith) (Grows-pure c)
  try_times-Grows (suc n) {a} c =
      Grows-to (omega arith) (Grows-bind (try_connect-Grows c) (try_times-Grows n {a = suc a}))

  try_times-Connected :
      (n : ℕ) (c : Connection D) → Connected c → Yields Connected (try_times D n c)
  unfolding try_times
  try_times-Connected zero c h = Yields-pure c h
  try_times-Connected (suc n) c h =
      Yields-bind-Yields _ (try_connect-Connected c) (try_times-Connected n)

  try_some-Connected : (n : ℕ) (c : Connection D) → Yields Connected (try_times D (suc n) c)
  unfolding try_times
  try_some-Connected n c = Yields-bind-Yields _ (try_connect-Connected c) (try_times-Connected n)

  tries-destroy :
      (n : ℕ) (c : Connection D)
      → c.cluster ≡ none
      → Grows live 2 (try_times D n c >>= destroy D) (n - 1)
  unfolding try_times
  tries-destroy zero c e = Grows-to {b = 0} (omega arith) (
      Grows-bind-Yields (λ c'. c'.cluster ≡ none) (Grows-pure c) (Yields-pure c e)
        λ c' h. destroy-none c' h)
  tries-destroy (suc n) c e =
      Grows-bind-Yields Connected (Grows-to (omega arith) (try_times-Grows (suc n) c))
        (try_some-Connected n c) λ c' h. Grows-to (omega arith) (destroy-Connected {a = n} c' h)

  -- A client that is made, connected so many times and destroyed leaves in
  -- the driver one cluster less than it was connected, so nothing if that was once or never.
  pub lifetime-Grows :
      (hosts username password : Str) (timeout n : ℕ)
      → Grows live 0
          (make_connection D hosts username password timeout >>= λ c. try_times D n c >>= destroy D)
          (n - 1)
  lifetime-Grows hosts username password timeout n =
      Grows-bind-Yields (λ c. c.cluster ≡ none)
        (make_connection-Grows hosts username password timeout)
        (make_connection-none hosts username password timeout) (tries-destroy n)
