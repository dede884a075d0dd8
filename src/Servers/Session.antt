-- ===== src/Servers/Session.antt =====
-- `session_t` and its conversions (store.servers/src/session.hpp). An exception is `none`.
use store_cpp.Base.{
  ◌≡◌, refl, ◌∙◌, Bool, true, false, ◌&&◌, Option, none, some, some_injective, sym, ap, Str, codes,
  seq, if◌then◌else◌, [], ◌∷◌, Bool-cases, inl, inr,
}
use store_cpp.Base.Assoc.{Assoc, lookup}
use store_cpp.Library.Json.{JsonLib, JsonLaws}

pub record SessionT : Type 0 where
  pub sid : Str
  pub exp_ts : Str
  pub user : Str
  pub is_valid : Bool

-- A `session_t` that was not assigned to.
abbrev pub fresh : SessionT
fresh = record { sid = []; exp_ts = []; user = []; is_valid = false }

module _ (J : JsonLib) where
  open J use {Json, str, bool, object, value_str, has, at, is_object}

  abbrev pub fields : SessionT → Assoc Json
  fields p =
      (codes "sid", str p.sid)
      ∷ (codes "exp_ts", str p.exp_ts)
      ∷ (codes "user", str p.user)
      ∷ (codes "is_valid", bool p.is_valid)
      ∷ []

  unfoldable pub to_json : SessionT → Json
  to_json p = object (fields p)

  unfoldable pub set_from : Bool → Option Str → Option Str → Option Str → Option SessionT
  set_from valid (some sid) (some user) (some exp_ts) =
      some (record { sid = sid; exp_ts = exp_ts; user = user; is_valid = valid })
  set_from valid _ _ _ = none

  -- The flat form is read first; a token's parts, where both are there, then replace it.
  unfoldable pub read_flat : Json → SessionT → Option SessionT
  unfolding set_from
  read_flat j p =
      if has j (codes "sid") && has j (codes "exp_ts") && has j (codes "user")
      then set_from p.is_valid (value_str j (codes "sid") []) (value_str j (codes "user") [])
          (value_str j (codes "exp_ts") [])
      else some p

  unfoldable pub has_parts : Json → Bool
  has_parts j =
      has j (codes "header")
      && is_object (at j (codes "header"))
      && has j (codes "payload")
      && is_object (at j (codes "payload"))

  unfoldable pub read_parts : Json → Option SessionT → Option SessionT
  unfolding set_from has_parts
  read_parts j none = none
  read_parts j (some p) =
      if has_parts j
      then set_from true (value_str (at j (codes "header")) (codes "sid") [])
          (value_str (at j (codes "payload")) (codes "user") [])
          (value_str (at j (codes "payload")) (codes "exp_ts") [])
      else some p

  unfoldable pub from_json : Json → SessionT → Option SessionT
  unfolding read_flat read_parts
  from_json j p = read_parts j (read_flat j p)

  set_from-is_valid :
      (v : Bool) (a b c : Option Str) (s : SessionT) → set_from v a b c ≡ some s → s.is_valid ≡ v
  unfolding set_from
  set_from-is_valid v (some a) (some b) (some c) s h = sym (ap (λ q. q.is_valid) (some_injective h))
  set_from-is_valid v none b c s h = cc
  set_from-is_valid v (some a) none c s h = cc
  set_from-is_valid v (some a) (some b) none s h = cc

  read_flat-is_valid :
      (j : Json) (p s : SessionT) → read_flat j p ≡ some s → s.is_valid ≡ p.is_valid
  unfolding read_flat
  read_flat-is_valid j p s =
      elim (Bool-cases (has j (codes "sid") && has j (codes "exp_ts") && has j (codes "user"))) [
        | inl e ↦ rw e (λ h. set_from-is_valid p.is_valid _ _ _ s h)
        | inr e ↦ rw e (λ h. sym (ap (λ q. q.is_valid) (some_injective h)))
      ]

  read_parts-is_valid :
      (j : Json) (p : Option SessionT) (s : SessionT)
      → ((q : SessionT) → p ≡ some q → q.is_valid ≡ false)
      → read_parts j p ≡ some s
      → s.is_valid ≡ has_parts j
  unfolding read_parts
  read_parts-is_valid j none s f = λ h. cc
  read_parts-is_valid j (some p) s f = elim (Bool-cases (has_parts j)) [
    | inl e ↦ rw e (λ h. set_from-is_valid true _ _ _ s h)
    | inr e ↦ rw e (λ h. sym (ap (λ q. q.is_valid) (some_injective h)) ∙ f p refl)
  ]

  -- A session read from a document into a fresh one is valid exactly if the document has a header
  -- and a payload that are objects; the flat fields, `is_valid` among them, do not make it valid.
  from_json-is_valid :
      (j : Json) (s : SessionT) → from_json j fresh ≡ some s → s.is_valid ≡ has_parts j
  unfolding from_json
  from_json-is_valid j s h =
      read_parts-is_valid j (read_flat j fresh) s (λ q e. read_flat-is_valid j fresh q e) h

module _ (J : JsonLib) (laws : JsonLaws J) where
  -- A session that was written and is read back keeps its three texts and is no longer valid.
  pub from_json-to_json :
      (p : SessionT) → from_json J (to_json J p) fresh ≡ some (record p { is_valid = false })
  unfolding from_json to_json read_flat read_parts has_parts set_from codes lookup seq
  from_json-to_json p =
      let m = fields J p in
      simp (
        laws.has_found m (codes "sid") (J.str p.sid) refl,
        laws.has_found m (codes "exp_ts") (J.str p.exp_ts) refl,
        laws.has_found m (codes "user") (J.str p.user) refl,
        laws.has_missing m (codes "header") refl,
        laws.value_str_found m (codes "sid") p.sid [] refl,
        laws.value_str_found m (codes "user") p.user [] refl,
        laws.value_str_found m (codes "exp_ts") p.exp_ts [] refl,
      )
