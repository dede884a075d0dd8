-- ===== src/Cassandra/Registry.antt =====
-- The settings that `CaResourceManager` keeps in the service container under keys with its own address
-- (store.storage.cassandra/src/ca_resource_manager.hpp).
use store_cpp.Base.{
  ℕ, Option, none, some, List, [], ◌∷◌, ◌++◌, Str, codes, length, get_elem?, text_lines,
}
use store_cpp.Ioc.{
  Container, Got, pointer, fault, register_instance_with_key, get_instance_with_key,
}

-- What a shared pointer holds.
pub data Shared : Type 0 where
  shared_text : Str → Shared
  shared_millis : ℕ → Shared

-- The container, and the objects that its pointers point to, by number.
pub record Registry : Type 0 where
  pub container : Container
  pub objects : List Shared

abbrev pub string_type : Str
string_type = codes "string"

abbrev pub millis_type : Str
millis_type = codes "duration<long,ratio<1,1000>>"

-- `RegisterInstanceWithKey<T>(key, make_shared<T>(v))`
unfoldable pub register_shared : Str → Str → Shared → Registry → Registry
register_shared type key v r = record {
  container = register_instance_with_key type key (some (length r.objects)) r.container;
  objects = r.objects ++ (v ∷ []);
}

unfoldable pub text_of : Option Shared → Option Str
text_of (some (shared_text s)) = some s
text_of (some (shared_millis n)) = none
text_of none = none

-- `*p`, which is undefined for a null pointer.
unfoldable pub dereference : List Shared → Got → Option Str
unfolding text_of
dereference objects (pointer (some p)) = text_of (get_elem? objects p)
dereference objects (pointer none) = none
dereference objects fault = none

-- `*(ServiceProvider->GetInstanceWithKey<string>(key))`
unfoldable pub setting : Registry → Str → Option Str
unfolding dereference
setting r key = dereference r.objects (get_instance_with_key string_type key r.container)

unfoldable pub processed_select : Str
processed_select = text_lines (
    "" ∷ "      select uid from {}.ca_resource_processed" ∷ "      where environment = '{}'"
    ∷ "      and store = '{}'" ∷ "      and type = '{}'" ∷ "      and purpose = '{}' limit 1"
    ∷ "    " ∷ [])

unfoldable pub modified_select : Str
modified_select = text_lines (
    "" ∷ "      select * from {}.ca_resource_modified" ∷ "      where environment = '{}'"
    ∷ "      and store = '{}'" ∷ "      and type = '{}'" ∷ "      and uid > {} limit 1" ∷ "    "
    ∷ [])

-- The manager; `address` is what `ss << this` prints.
pub record Manager : Type 0 where
  pub address : Str
  pub keyspace : Str
  pub environment : Str
  pub store : Str
  pub data_type : Str
  pub purpose : Str
  pub wait_time : ℕ

abbrev text_setting : Str → Str → Registry → Registry
text_setting key s = register_shared string_type key (shared_text s)

-- The constructor's registrations.
unfoldable pub register_manager : Manager → Registry → Registry
register_manager m r =
    let r1 = text_setting (codes "ca_resource_processed_select") processed_select r in
    let r2 = text_setting (codes "ca_resource_modified_select") modified_select r1 in
    let r3 = text_setting (codes "ca_resource_processed") (codes "ca_resource_processed") r2 in
    let r4 = text_setting (m.address ++ codes ":environment") m.environment r3 in
    let r5 = text_setting (m.address ++ codes ":keyspace") m.keyspace r4 in
    let r6 = text_setting (m.address ++ codes ":purpose") m.purpose r5 in
    let r7 = text_setting (m.address ++ codes ":data_type") m.data_type r6 in
    let r8 = text_setting (m.address ++ codes ":store") m.store r7 in
    register_shared millis_type (m.address ++ codes ":wait_time") (shared_millis m.wait_time) r8
