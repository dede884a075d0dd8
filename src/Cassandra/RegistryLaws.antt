-- ===== src/Cassandra/RegistryLaws.antt =====
-- What the settings of `CaResourceManager`'s constructor are found as (ca_resource_manager.hpp).
use store_cpp.Base.{
  ℕ, zero, suc, ◌≡◌, refl, ap, ◌∙◌, arith, Bool, true, false, ◌&&◌, ◌||◌, ◌==◌, inl, inr, Option,
  none, some, List, [], ◌∷◌, ◌++◌, Str, codes, length, get_elem?, seq, seq→eq, seq_refl, Bool-cases,
}
use store_cpp.Ioc.{Got, pointer, fault, get_instance_with_key}
use store_cpp.Ioc.Laws.{get_instance_with_key-register}
use store_cpp.Cassandra.Registry.{
  Shared, shared_text, shared_millis, Registry, string_type, millis_type, register_shared, text_of,
  dereference, setting, processed_select, modified_select, Manager, register_manager,
}

seq-append : (a s t : Str) → seq (a ++ s) (a ++ t) ≡ seq s t
unfolding seq
seq-append [] s t = refl
seq-append (c ∷ a) s t = ground (arith, seq-append a s t)

has_colon : Str → Bool
has_colon [] = false
has_colon (c ∷ s) = (c == 58) || has_colon s

has_colon-append : (a s : Str) → has_colon (a ++ (58 ∷ s)) ≡ true
unfolding has_colon
has_colon-append [] s = refl
has_colon-append (c ∷ a) s = ground (arith, has_colon-append a s)

-- A key with a colon is not one without.
own_key-ne : (a s k : Str) → has_colon k ≡ false → seq (a ++ (58 ∷ s)) k ≡ false
own_key-ne a s k h = elim (Bool-cases (seq (a ++ (58 ∷ s)) k)) [
  | inr e ↦ e
  | inl e ↦ cc (seq→eq (a ++ (58 ∷ s)) k e, has_colon-append a s)
]

get_elem?-append :
    {A : Type 0} (xs ys : List A) (i : ℕ) (x : A)
    → get_elem? xs i ≡ some x
    → get_elem? (xs ++ ys) i ≡ some x
get_elem?-append [] ys i x h = cc
get_elem?-append (y ∷ xs) ys zero x h = h
get_elem?-append (y ∷ xs) ys (suc i) x h = get_elem?-append xs ys i x h

get_elem?-last :
    {A : Type 0} (xs : List A) (x : A) → get_elem? (xs ++ (x ∷ [])) (length xs) ≡ some x
get_elem?-last [] x = refl
get_elem?-last (y ∷ xs) x = get_elem?-last xs x

dereference-append :
    (objects : List Shared) (v : Shared) (g : Got) (s : Str)
    → dereference objects g ≡ some s
    → dereference (objects ++ (v ∷ [])) g ≡ some s
unfolding dereference
dereference-append objects v fault s h = cc
dereference-append objects v (pointer none) s h = cc
dereference-append objects v (pointer (some p)) s h = found (get_elem? objects p) refl h
  where
    found :
        (o : Option Shared)
        → get_elem? objects p ≡ o
        → text_of o ≡ some s
        → text_of (get_elem? (objects ++ (v ∷ [])) p) ≡ some s
    found none e h = unfold text_of in cc
    found (some x) e h = ap text_of (get_elem?-append objects (v ∷ []) p x e) ∙ h

-- A setting is found under its key, and registering another one leaves it.
setting-same :
    (key s : Str) (r : Registry)
    → setting (register_shared string_type key (shared_text s) r) key ≡ some s
unfolding setting register_shared
setting-same key s r =
    ap (dereference (r.objects ++ (shared_text s ∷ []))) {y = pointer (some (length r.objects))} (
      get_instance_with_key-register string_type key string_type key (some (length r.objects))
        r.container
      ∙ rw (seq_refl string_type, seq_refl key) refl)
    ∙ unfold dereference text_of in ap text_of (get_elem?-last r.objects (shared_text s))

setting-other :
    (type key : Str) (v : Shared) (key' s : Str) (r : Registry)
    → (seq type string_type && seq key key') ≡ false
    → setting r key' ≡ some s
    → setting (register_shared type key v r) key' ≡ some s
unfolding setting register_shared
setting-other type key v key' s r ne h =
    ap (dereference (r.objects ++ (v ∷ []))) (
      get_instance_with_key-register type key string_type key' (some (length r.objects)) r.container
      ∙ rw ne refl)
    ∙ dereference-append r.objects v (get_instance_with_key string_type key' r.container) s h

-- The same for two texts.
text-other :
    (key : Str) (v : Shared) (key' s : Str) (r : Registry)
    → seq key key' ≡ false
    → setting r key' ≡ some s
    → setting (register_shared string_type key v r) key' ≡ some s
text-other key v key' s r ne = setting-other string_type key v key' s r (rw (ne) (ground arith))

own-other :
    (a key : Str) (v : Shared) (key' s : Str) (r : Registry)
    → seq key key' ≡ false
    → setting r (a ++ key') ≡ some s
    → setting (register_shared string_type (a ++ key) v r) (a ++ key') ≡ some s
own-other a key v key' s r ne = text-other (a ++ key) v (a ++ key') s r (seq-append a key key' ∙ ne)

-- What the constructor registers last, `wait_time`, is no text.
last-other :
    (m : Manager) (key' s : Str) (r : Registry)
    → setting r key' ≡ some s
    → setting
        (register_shared millis_type
          (m.address ++ codes ":wait_time")
          (shared_millis m.wait_time)
          r)
        key'
      ≡ some s
last-other m key' s r = setting-other millis_type _ _ key' s r (unfold seq codes in refl)

-- A shared key has no colon, so the registrations under the address leave it.
shared-other :
    (a key : Str) (v : Shared) (key' s : Str) (r : Registry)
    → has_colon key' ≡ false
    → setting r key' ≡ some s
    → setting (register_shared string_type (a ++ (58 ∷ key)) v r) key' ≡ some s
shared-other a key v key' s r ne =
    text-other (a ++ (58 ∷ key)) v key' s r (own_key-ne a key key' ne)

-- After the constructor each setting that the rounds read is found, under the manager's own address,
-- as the constructor's argument.
pub register_manager-setting :
    (m : Manager) (r : Registry)
    → (setting (register_manager m r) (m.address ++ codes ":keyspace") ≡ some m.keyspace)
      × (setting (register_manager m r) (m.address ++ codes ":environment") ≡ some m.environment)
      × (setting (register_manager m r) (m.address ++ codes ":store") ≡ some m.store)
      × (setting (register_manager m r) (m.address ++ codes ":data_type") ≡ some m.data_type)
      × (setting (register_manager m r) (m.address ++ codes ":purpose") ≡ some m.purpose)
      × (setting (register_manager m r) (codes "ca_resource_processed_select")
          ≡ some processed_select)
      × (setting (register_manager m r) (codes "ca_resource_modified_select")
          ≡ some modified_select)
      × (setting (register_manager m r) (codes "ca_resource_processed")
          ≡ some (codes "ca_resource_processed"))
unfolding register_manager seq codes has_colon
register_manager-setting m r = (
  last-other m _ _ _ (
      own-other m.address _ _ _ _ _ refl (
        own-other m.address _ _ _ _ _ refl
          (own-other m.address _ _ _ _ _ refl (setting-same _ _ _)))),
  last-other m _ _ _ (
      own-other m.address _ _ _ _ _ refl (
        own-other m.address _ _ _ _ _ refl (
          own-other m.address _ _ _ _ _ refl
            (own-other m.address _ _ _ _ _ refl (setting-same _ _ _))))),
  last-other m _ _ _ (setting-same _ _ _),
  last-other m _ _ _ (own-other m.address _ _ _ _ _ refl (setting-same _ _ _)),
  last-other m _ _ _ (
      own-other m.address _ _ _ _ _ refl (own-other m.address _ _ _ _ _ refl (setting-same _ _ _))),
  last-other m _ _ _ (
      shared-other m.address _ _ _ _ _ refl (
        shared-other m.address _ _ _ _ _ refl (
          shared-other m.address _ _ _ _ _ refl (
            shared-other m.address _ _ _ _ _ refl (
              shared-other m.address _ _ _ _ _ refl
                (text-other _ _ _ _ _ refl (text-other _ _ _ _ _ refl (setting-same _ _ _)))))))),
  last-other m _ _ _ (
      shared-other m.address _ _ _ _ _ refl (
        shared-other m.address _ _ _ _ _ refl (
          shared-other m.address _ _ _ _ _ refl (
            shared-other m.address _ _ _ _ _ refl (
              shared-other m.address _ _ _ _ _ refl
                (text-other _ _ _ _ _ refl (setting-same _ _ _))))))),
  last-other m _ _ _ (
      shared-other m.address _ _ _ _ _ refl (
        shared-other m.address _ _ _ _ _ refl (
          shared-other m.address _ _ _ _ _ refl (
            shared-other m.address _ _ _ _ _ refl
              (shared-other m.address _ _ _ _ _ refl (setting-same _ _ _)))))),
)
