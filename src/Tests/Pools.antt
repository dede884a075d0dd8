-- ===== src/Tests/Pools.antt =====
-- The theorems on the pools at a library that numbers the pools it makes.
use store_cpp.Base.{inl, ap, [], ℕ, suc, ◌≡◌, refl, false, some, Str, codes}
use store_cpp.Base.Int.{pos}
use store_cpp.Base.Assoc.{lookup}
use store_cpp.Pools.Clients.{client_at, get_pool, pooled, client_at-shared}
use store_cpp.Ioc.{
  Container, Got, get_instance_with_key, empty, register_instance_with_key, instance_with_key_exist,
}
use store_cpp.Pools.{
  PoolLib, default_context, endpoint_of, done, create_pool_impl, postgres, same, register_pool,
}

abbrev numbering : PoolLib
numbering = record { World = ℕ; make_pool = λ e size w. (some w, suc w); pool_size = λ p. pos 10 }

abbrev key : Str
key = codes "k"

nothing_there : instance_with_key_exist postgres.pool_type key empty ≡ false
unfolding instance_with_key_exist lookup
nothing_there = refl

first_made :
    create_pool_impl postgres numbering (endpoint_of default_context) key (pos 10) empty 4
    ≡ done (register_instance_with_key postgres.pool_type key (some 4) empty) 5
unfolding create_pool_impl register_pool same instance_with_key_exist lookup
first_made = refl

abbrev registered : Container
registered = register_instance_with_key postgres.pool_type key (some 4) empty

abbrev the_pool : Got
the_pool = get_instance_with_key postgres.pool_type key registered

first_client :
    client_at postgres numbering (endpoint_of default_context) key (pos 10) empty 4
    ≡ pooled the_pool registered 5
unfolding client_at get_pool
first_client = ap (get_pool postgres numbering key) first_made

client_at-shared_example :
    client_at postgres numbering
      (record { server = codes "other"; port = pos 1; database = []; user = []; password = [] })
      key
      (pos 3)
      registered
      9
    ≡ pooled the_pool registered 9
client_at-shared_example =
    client_at-shared postgres numbering
      (record { server = codes "other"; port = pos 1; database = []; user = []; password = [] }) key
      (pos 10) (pos 3) empty registered 4 9 5 the_pool
      (inl (endpoint_of default_context, first_client))
