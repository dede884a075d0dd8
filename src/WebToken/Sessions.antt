-- ===== src/WebToken/Sessions.antt =====
-- What `RedisSessionStore::set` stores and `get` finds again (store.storage.redis/src/redis_client.hpp),
-- with `createJwt` (store.common/src/web_token.hpp) between them.
use store_cpp.Base.{
  ℕ, ◌<◌, arith, ◌≡◌, refl, ap, ◌∙◌, false, Option, none, some, Str, codes, [], seq, seq_refl, ◌++◌,
}
use store_cpp.Base.Int.{ℤ, ◌≤ℤ◌}
use store_cpp.Base.Assoc.{Assoc, lookup, insert, lookup-insert}
use store_cpp.Library.Json.{JsonLib, JsonLaws}
use store_cpp.Library.Database.{ok}
use store_cpp.WebToken.{JwtLib, accepted, decrypt_jwt, finish_decrypt}
use store_cpp.WebToken.Create.{
  Claims, Surroundings, thousand, fill, choose_key, sign_for, with_signature, create_for,
  create_jwt, with_user, user_of, secret_of, sid_of, store_secret, set_created, session_set,
  session_get, reply_text,
}

-- What the code relies on of the libraries: Redis finds what it was given with a positive time to live,
-- which is not over; and a token that was signed with a random phrase is decoded with that phrase into
-- its claims until their `exp`, which the library compares with its clock.
pub record SessionLaws (T : JwtLib) (S : Surroundings) : Type 0 where
  pub token : Claims → T.Token
  pub get_psetex :
      (k : Str) (ttl : ℕ) (v : Str) (w : S.World) → 0 < ttl → S.get k (S.psetex k ttl v w) ≡ some v
  pub clock : ℤ
  pub decode_signed :
      (key g : Str) (claims : Claims)
      → S.sign (codes "hs256") key claims ≡ some g
      → clock ≤ℤ claims.exp
      → T.decode accepted key g ≡ ok (token claims)

-- The object and the world that `set` leaves, with the session's identifier and the token of the
-- user, which `get` decodes.
pub record Stored (J : JsonLib) (S : Surroundings) (T : JwtLib) (token : Claims → T.Token)
    (user : Str) (r : Option (Assoc J.Json × S.World)) : Type 0 where
  pub object : Assoc J.Json
  pub world : S.World
  pub sid : Str
  pub signature : Str
  pub claims : Claims
  pub returned : r ≡ some (object, world)
  pub sid_field : lookup (codes "sid") object ≡ some (J.str sid)
  pub signature_field : lookup (codes "signature") object ≡ some (J.str signature)
  pub same_user : claims.user ≡ user
  pub same_sid : claims.sid ≡ sid
  pub found :
      session_get J S T sid signature world ≡ record { error = []; dec = some (token claims) }

module _ {V : Type 0} where
  pub lookup-same : (k : Str) (v : V) (m : Assoc V) → lookup k (insert k v m) ≡ some v
  lookup-same k v m = ground (arith, lookup-insert k k v m, seq_refl k)

  lookup-other :
      (k j : Str) (v : V) (m : Assoc V) (o : Option V)
      → seq k j ≡ false
      → lookup j m ≡ o
      → lookup j (insert k v m) ≡ o
  lookup-other k j v m o s e = ground (arith, lookup-insert k j v m)

module _ (J : JsonLib) (JL : JsonLaws J) (S : Surroundings) (T : JwtLib) (L : SessionLaws T S) where
  -- What `createJwt` leaves in the object.
  signed : Assoc J.Json → Str → Str → ℤ → Str → Str → Str → Assoc J.Json
  signed m sid secret expire ts user_uuid signature =
      insert (codes "signature") (J.str signature) (fill J S m sid secret expire ts user_uuid)

  module _ (m : Assoc J.Json) (sid secret : Str) (z : ℤ) (ts uu g : Str) where
    signed-sid : lookup (codes "sid") (signed m sid secret z ts uu g) ≡ some (J.str sid)
    unfolding fill signed seq codes
    signed-sid = lookup-other _ _ _ _ _ refl (
        lookup-other _ _ _ _ _ refl (
          lookup-other _ _ _ _ _ refl (
            lookup-other _ _ _ _ _ refl
              (lookup-other _ _ _ _ _ refl (lookup-same (codes "sid") _ _)))))

    signed-secret : lookup (codes "secret") (signed m sid secret z ts uu g) ≡ some (J.str secret)
    unfolding fill signed seq codes
    signed-secret = lookup-other _ _ _ _ _ refl (
        lookup-other _ _ _ _ _ refl (
          lookup-other _ _ _ _ _ refl
            (lookup-other _ _ _ _ _ refl (lookup-same (codes "secret") _ _))))

    signed-public :
        lookup (codes "public_key") m ≡ none
        → lookup (codes "public_key") (signed m sid secret z ts uu g) ≡ none
    unfolding fill signed seq codes
    signed-public h = lookup-other _ _ _ _ _ refl (
        lookup-other _ _ _ _ _ refl (
          lookup-other _ _ _ _ _ refl (
            lookup-other _ _ _ _ _ refl
              (lookup-other _ _ _ _ _ refl (lookup-other _ _ _ _ _ refl h)))))

    set_created-signed :
        (ttl : ℕ) (w : S.World)
        → lookup (codes "public_key") m ≡ none
        → set_created J S ttl (some ((g, signed m sid secret z ts uu g), w))
          ≡ some (signed m sid secret z ts uu g, S.psetex sid ttl secret w)
    unfolding set_created sid_of secret_of store_secret
    set_created-signed ttl w h =
        rw
          (
            signed-sid,
            JL.value_str_missing _ (codes "public_key") [] (signed-public h),
            JL.value_str_found _ (codes "sid") sid [] signed-sid,
            JL.value_str_found _ (codes "secret") secret [] signed-secret,
          )
          refl

  session_get-psetex :
      (sid key g : Str) (claims : Claims) (ttl : ℕ) (w : S.World)
      → 0 < ttl
      → S.sign (codes "hs256") key claims ≡ some g
      → L.clock ≤ℤ claims.exp
      → session_get J S T sid g (S.psetex sid ttl key w)
        ≡ record { error = []; dec = some (L.token claims) }
  unfolding session_get reply_text decrypt_jwt finish_decrypt
  session_get-psetex sid key g claims ttl w lt s h =
      rw (L.get_psetex sid ttl key w lt, L.decode_signed key g claims s h) refl

  create_jwt-user :
      (m : Assoc J.Json) (user : Str) (w : S.World)
      → lookup (codes "user") m ≡ some (J.str user)
      → J.is_null (J.str user) ≡ false
      → lookup (codes "private_key") m ≡ none
      → create_jwt J S m w ≡ sign_for J S user m (choose_key J S [] w)
  unfolding create_jwt with_user user_of create_for
  create_jwt-user m user w e n p =
      rw
        (
          e,
          n,
          JL.value_str_missing m (codes "private_key") [] p,
          JL.value_str_found m (codes "user") user [] e,
        )
        refl

  -- By the laws of the libraries, with a positive time to live, where signing the claims of the user
  -- does not fail and the expiration time is ahead of the clock: for an object with the name of the
  -- user, a text that is not null, and no keys of its own, `set` leaves an object with the identifier of a session and a signature, and
  -- `get` of the two decodes the signature, without an error, to the claims that name the user and the
  -- session.
  pub session_set-Stored :
      (m : Assoc J.Json) (user : Str) (ttl : ℕ) (w : S.World)
      → lookup (codes "user") m ≡ some (J.str user)
      → J.is_null (J.str user) ≡ false
      → lookup (codes "private_key") m ≡ none
      → lookup (codes "public_key") m ≡ none
      → 0 < ttl
      → ((key : Str) (claims : Claims)
          → claims.user ≡ user
          → (g : Str) × (S.sign (codes "hs256") key claims ≡ some g))
      → ((v : S.World) → L.clock ≤ℤ thousand (S.get_expiration_time 24 v).0.0)
      → Stored J S T L.token user (session_set J S m ttl w)
  unfolding session_set sign_for choose_key signed with_signature
  session_set-Stored m user ttl w e n p q lt signs ahead =
      let (key, w0) = S.generate_uuid w in
      let (id, w1) = S.generate_uuid w0 in
      let ((seconds, ts), w2) = S.get_expiration_time 24 w1 in
      let sid = codes "sess:" ++ id in
      let claims : Claims = record {
        user = user;
        exp = thousand seconds;
        exp_ts = ts;
        sid = sid;
      } in
      let (g, is_signed) = signs key claims refl in
      let uu = S.generate_uuid_v3 user in
      record {
        object = signed m sid key (thousand seconds) ts uu g;
        world = S.psetex sid ttl key w2;
        sid = sid;
        signature = g;
        claims = claims;
        returned =
            ap (set_created J S ttl) (
              create_jwt-user m user w e n p
              ∙ ap (with_signature J S (fill J S m sid key (thousand seconds) ts uu) w2) is_signed)
            ∙ set_created-signed m sid key (thousand seconds) ts uu g ttl w2 q;
        sid_field = signed-sid m sid key (thousand seconds) ts uu g;
        signature_field = lookup-same (codes "signature") _ _;
        same_user = refl;
        same_sid = refl;
        found = session_get-psetex sid key g claims ttl w2 lt is_signed (ahead w1);
      }
