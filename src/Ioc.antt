-- ===== src/Ioc.antt =====
-- store.models/src/ioc/simple_container.hpp: the container behind `ServiceProvider`. A type is named
-- by `typeid(T).name()`; a pointer is a number, and the null pointer is `none`.
pub mod Laws
pub mod Build
use store_cpp.Base.{
  ℕ, zero, suc, ◌≡◌, Bool, true, false, List, [], ◌∷◌, ◌++◌, Option, none, some, Str, seq, length,
  if◌then◌else◌,
}
use store_cpp.Base.Assoc.{Assoc, lookup, insert}

-- `Holder<T>` with its `instance_`; a `dynamic_cast` to `Holder<T>*` sees the type.
pub record Holder : Type 0 where
  pub type_name : Str
  pub instance_ : Option ℕ

-- An object that a creator has made, with the constructor's arguments.
pub record Object : Type 0 where
  pub made_type : Str
  pub arguments : List (Option ℕ)

-- A creator is known by the types that the constructor's arguments are got by. A creator with a key
-- is known by the pointer that it returns. The heap grows at its end; a pointer is an index.
pub record Container : Type 0 where
  pub creator_map : Assoc (List Str)
  pub instance_map : Assoc Holder
  pub creator_map_with_key : Assoc (Assoc ℕ)
  pub instance_map_with_key : Assoc (Assoc Holder)
  pub heap : List Object

-- A call returns a pointer or faults: it reads through the null pointer of a failed `dynamic_cast`,
-- or calls an empty `std::function`.
pub data Got : Type 0 where
  pointer : Option ℕ → Got
  fault : Got

abbrev pub empty : Container
empty = record {
  creator_map = [];
  instance_map = [];
  creator_map_with_key = [];
  instance_map_with_key = [];
  heap = [];
}

-- `dynamic_cast<Holder<T>*>(iholder.get())->instance_`
unfoldable pub open_holder : Str → Holder → Got
open_holder t h = if seq h.type_name t then pointer h.instance_ else fault

unfoldable pub register_instance : Str → Option ℕ → Container → Container
register_instance t p c = record c {
  instance_map = insert t (record { type_name = t; instance_ = p }) c.instance_map;
}

-- `m[t]` of a map of maps: the inner map, made empty if it is missing.
unfoldable pub inner {ℓ} : {V : Type ℓ} → Str → Assoc (Assoc V) → Assoc V
inner t m = elim (lookup t m) [ none ↦ [] | some i ↦ i ]

unfoldable pub register_instance_with_key : Str → Str → Option ℕ → Container → Container
unfolding inner
register_instance_with_key t key p c = record c {
  instance_map_with_key =
      insert t
        (insert key (record { type_name = t; instance_ = p }) (inner t c.instance_map_with_key))
        c.instance_map_with_key;
}

unfoldable pub register_class : Str → List Str → Container → Container
register_class t deps c = record c { creator_map = insert t deps c.creator_map }

unfoldable pub instance_exist : Str → Container → Bool
instance_exist t c = elim (lookup t c.instance_map) [ none ↦ false | some h ↦ true ]

unfoldable pub instance_with_key_exist : Str → Str → Container → Bool
instance_with_key_exist t key c = elim (lookup t c.instance_map_with_key) [
  | none ↦ false
  | some m ↦ (elim (lookup key m) [ none ↦ false | some h ↦ true ])
]

-- The creator with a key; a key that is missing gets an empty function.
made_with_key : Str → Str → Container → Got
made_with_key t key c = elim (lookup t c.creator_map_with_key) [
  | none ↦ pointer none
  | some m ↦ (elim (lookup key m) [ none ↦ fault | some p ↦ pointer (some p) ])
]

unfoldable pub get_instance_with_key : Str → Str → Container → Got
unfolding open_holder made_with_key
get_instance_with_key t key c = elim (lookup t c.instance_map_with_key) [
  | none ↦ made_with_key t key c
  | some m ↦ (elim (lookup key m) [ none ↦ made_with_key t key c | some h ↦ open_holder t h ])
]
