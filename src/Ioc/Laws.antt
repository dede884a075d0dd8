-- ===== src/Ioc/Laws.antt =====
-- Registration and retrieval by type and key.
use store_cpp.Base.{
  ℕ, ◌≡◌, Bool, true, false, ◌&&◌, ◌||◌, Option, none, some, Str, seq, seq→eq, arith, if◌then◌else◌,
  inl, inr, Bool-cases, ap, ◌∙◌,
}
use store_cpp.Base.Assoc.{Assoc, lookup, insert, lookup-insert, lookup-nil}
use store_cpp.Ioc.{
  Holder, Container, Got, pointer, open_holder, inner, register_instance_with_key,
  instance_with_key_exist, made_with_key, get_instance_with_key,
}

-- The entry under a type and a key.
module _ {ℓ} {V : Type ℓ} where
  under : Str → Option (Assoc V) → Option V
  under key none = none
  under key (some i) = lookup key i

  find_keyed : Str → Str → Assoc (Assoc V) → Option V
  unfolding under
  find_keyed t key m = under key (lookup t m)

  lookup-inner : (t key : Str) (m : Assoc (Assoc V)) → lookup key (inner t m) ≡ find_keyed t key m
  unfolding find_keyed inner
  lookup-inner t key m = ground (arith, lookup-nil {V = V} key)

  find_keyed-insert :
      (t key t' key' : Str) (v : V) (m : Assoc (Assoc V))
      → find_keyed t' key' (insert t (insert key v (inner t m)) m)
        ≡ (if seq t t' && seq key key' then some v else find_keyed t' key' m)
  unfolding find_keyed
  find_keyed-insert t key t' key' v m =
      ap (under key') (lookup-insert t t' (insert key v (inner t m)) m)
      ∙ (elim (Bool-cases (seq t t')) [
        | inr ne ↦ rw ne
        | inl eq ↦
            rw (eq, ← seq→eq t t' eq)
              (lookup-insert key key' v (inner t m)
                ∙ ap (λ r. if seq key key' then some v else r) (lookup-inner t key' m))
      ])

is_some {ℓ} : {A : Type ℓ} → Option A → Bool
is_some none = false
is_some (some a) = true

exist-find_keyed :
    (t key : Str) (c : Container)
    → instance_with_key_exist t key c ≡ is_some (find_keyed t key c.instance_map_with_key)
unfolding instance_with_key_exist is_some find_keyed
exist-find_keyed t key c = ground arith

got : Str → Str → Container → Option Holder → Got
got t key c none = made_with_key t key c
got t key c (some h) = open_holder t h

get-find_keyed :
    (t key : Str) (c : Container)
    → get_instance_with_key t key c ≡ got t key c (find_keyed t key c.instance_map_with_key)
unfolding get_instance_with_key got find_keyed
get-find_keyed t key c = ground arith

-- Registering under a type and a key makes exactly this pair exist, besides those that did.
pub instance_with_key_exist-register :
    (t key t' key' : Str) (p : Option ℕ) (c : Container)
    → instance_with_key_exist t' key' (register_instance_with_key t key p c)
      ≡ (seq t t' && seq key key' || instance_with_key_exist t' key' c)
unfolding register_instance_with_key is_some
instance_with_key_exist-register t key t' key' p c =
    exist-find_keyed t' key' (register_instance_with_key t key p c)
    ∙ ap is_some (
        find_keyed-insert t key t' key' (record { type_name = t; instance_ = p })
          c.instance_map_with_key)
    ∙ ground (arith, exist-find_keyed t' key' c)

-- What was registered last under a type and a key is got; another pair gives what it gave before.
pub get_instance_with_key-register :
    (t key t' key' : Str) (p : Option ℕ) (c : Container)
    → get_instance_with_key t' key' (register_instance_with_key t key p c)
      ≡ (if seq t t' && seq key key' then pointer p else get_instance_with_key t' key' c)
unfolding register_instance_with_key got made_with_key open_holder
get_instance_with_key-register t key t' key' p c =
    get-find_keyed t' key' (register_instance_with_key t key p c)
    ∙ ap (got t' key' (register_instance_with_key t key p c)) (
        find_keyed-insert t key t' key' (record { type_name = t; instance_ = p })
          c.instance_map_with_key)
    ∙ ground (arith, get-find_keyed t' key' c, seq→eq t t')
