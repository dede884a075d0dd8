-- ===== src/Pools/Laws.antt =====
-- Pools under keys (pgsql.hpp) and the client's pool (pg_client.hpp).
use store_cpp.Base.{
  ℕ, ◌≡◌, refl, ap, ◌∙◌, subst, true, false, Option, none, some, Str, seq_refl, Bool-cases, inl,
  inr,
}
use store_cpp.Base.Int.{ℤ}
use store_cpp.Ioc.{Container, pointer, instance_with_key_exist, register_instance_with_key}
use store_cpp.Ioc.Laws.{instance_with_key_exist-register, get_instance_with_key-register}
use store_cpp.Pools.{
  PoolLib, Endpoint, DbContext, endpoint_of, connection_info, Created, done, threw, aborted,
  PoolKind, postgres, same, register_pool, create_pool_impl, create_pool_from_db_context,
  client_pool_size, client, with_pool, make_client,
}

module _ (kind : PoolKind) (L : PoolLib) where
  open kind use {pool_type}
  open L use {World, make_pool, pool_size}

  abbrev container_of : Created World → Container → Container
  container_of (done c w) d = c
  container_of (threw m w) d = d
  container_of aborted d = d

  exist-registered :
      (key : Str) (p : Option ℕ) (c : Container)
      → instance_with_key_exist pool_type key (register_instance_with_key pool_type key p c) ≡ true
  exist-registered key p c =
      instance_with_key_exist-register pool_type key pool_type key p c
      ∙ rw (seq_refl pool_type, seq_refl key) refl

  register_pool-exist :
      (key : Str) (size : ℤ) (c c' : Container) (r : Option ℕ × World) (w' : World)
      → register_pool kind L key size c r ≡ done c' w'
      → instance_with_key_exist pool_type key c' ≡ true
  unfolding register_pool
  register_pool-exist key size c c' (none, v) w' = λ h. cc
  register_pool-exist key size c c' (some p, v) w' = elim (Bool-cases (same (pool_size p) size)) [
    | inl e ↦ rw e (λ h.
        subst (λ d. instance_with_key_exist pool_type key d ≡ true) (ap (λ r. container_of r c) h)
          (exist-registered key (some p) c))
    | inr e ↦ rw e (λ h. cc)
  ]

  -- After a call that returned, a pool stands under the key.
  create_pool_impl-exist :
      (e : Endpoint) (key : Str) (size : ℤ) (c c' : Container) (w w' : World)
      → create_pool_impl kind L e key size c w ≡ done c' w'
      → instance_with_key_exist pool_type key c' ≡ true
  unfolding create_pool_impl
  create_pool_impl-exist e key size c c' w w' =
      elim (Bool-cases (instance_with_key_exist pool_type key c)) [
        | inl x ↦ rw x (λ h.
            subst (λ d. instance_with_key_exist pool_type key d ≡ true)
              (ap (λ r. container_of r c) h) x)
        | inr x ↦ rw x (register_pool-exist key size c c' (make_pool e size w) w')
      ]

  returns_at_once :
      (e : Endpoint) (key : Str) (size : ℤ) (c : Container) (w : World)
      → instance_with_key_exist pool_type key c ≡ true
      → create_pool_impl kind L e key size c w ≡ done c w
  unfolding create_pool_impl
  returns_at_once e key size c w x = rw x refl

  -- After a call that returned, any later call under the same key returns at once and changes neither
  -- the container nor the world, whatever its endpoint and its size.
  pub create_pool_impl-again :
      (e later_e : Endpoint) (key : Str) (size later_size : ℤ) (c c' : Container)
      (w w' later_w : World)
      → create_pool_impl kind L e key size c w ≡ done c' w'
      → create_pool_impl kind L later_e key later_size c' later_w ≡ done c' later_w
  create_pool_impl-again e later_e key size later_size c c' w w' later_w h =
      returns_at_once later_e key later_size c' later_w
        (create_pool_impl-exist e key size c c' w w' h)

  created :
      (e : Endpoint) (key : Str) (size : ℤ) (p : ℕ) (c : Container) (w w' : World)
      → instance_with_key_exist pool_type key c ≡ false
      → make_pool e size w ≡ (some p, w')
      → same (pool_size p) size ≡ true
      → create_pool_impl kind L e key size c w
        ≡ done (register_instance_with_key pool_type key (some p) c) w'
  unfolding create_pool_impl register_pool
  created e key size p c w w' absent made size_ok =
      rw absent (ap (register_pool kind L key size c) made ∙ rw size_ok refl)

module _ (L : PoolLib) where
  open L use {World, make_pool, pool_size}

  -- With no pool under the key, a client whose pool is made with the size asked for gets that pool,
  -- and it is the one registered.
  make_client_lem :
      (d : DbContext) (key : Str) (size : ℤ) (p : ℕ) (c : Container) (w w' : World)
      → instance_with_key_exist postgres.pool_type key c ≡ false
      → make_pool (endpoint_of d) (client_pool_size size) w ≡ (some p, w')
      → same (pool_size p) (client_pool_size size) ≡ true
      → make_client L d key size c w
        ≡ client
            (connection_info d)
            (pointer (some p))
            (register_instance_with_key postgres.pool_type key (some p) c)
            w'
  unfolding make_client create_pool_from_db_context with_pool
  make_client_lem d key size p c w w' absent made size_ok =
      ap (with_pool L (connection_info d) key) (
        created postgres L (endpoint_of d) key (client_pool_size size) p c w w' absent made size_ok)
      ∙ ap
          (λ g.
            client (connection_info d) g
              (register_instance_with_key postgres.pool_type key (some p) c) w')
          (get_instance_with_key-register postgres.pool_type key postgres.pool_type key (some p) c
            ∙ rw (seq_refl postgres.pool_type, seq_refl key) refl)
