-- ===== src/WebToken/Create.antt =====
-- `createJwt` and `tryGetRS256Key` (store.common/src/web_token.hpp), and the session store of the Redis
-- client (store.storage.redis/src/redis_client.hpp). The JSON argument is an object, which the call
-- changes. Signing, random identifiers, the clock, files and the Redis library are parameters; the
-- callback gets what `session_get` returns. A time to live is not negative.
use store_cpp.Base.{
  ℕ, ◌+◌, ◌*◌, ◌-◌, ◌&&◌, Option, none, some, Str, codes, [], ◌∷◌, ◌++◌, if◌then◌else◌, ltb, length,
}
use store_cpp.Base.Assoc.{Assoc, lookup, insert}
use store_cpp.Base.Int.{ℤ, pos, negsuc}
use store_cpp.Library.Json.{JsonLib}
use store_cpp.WebToken.{JwtLib, Decrypted, decrypt_jwt}

-- The claims that the token gets, beside the fixed issuer, and its header field `sid`.
pub record Claims : Type 0 where
  pub user : Str
  pub exp : ℤ
  pub exp_ts : Str
  pub sid : Str

-- The clock gives the seconds of the time so many hours ahead, and its print.
pub record Surroundings : Type 1 where
  pub World : Type 0
  pub generate_uuid : World → Str × World
  pub generate_uuid_v3 : Str → Str
  pub get_expiration_time : ℕ → World → (ℤ × Str) × World
  -- The algorithm and the key; a key that is not one of the algorithm throws.
  pub sign : Str → Str → Claims → Option Str
  pub get_file : Str → Str
  pub psetex : Str → ℕ → Str → World → World
  pub get : Str → World → Option Str

-- `1000 *` a number of seconds.
unfoldable pub thousand : ℤ → ℤ
thousand (pos n) = pos (n * 1000)
thousand (negsuc n) = negsuc ((n + 1) * 1000 - 1)

-- The algorithm and the key.
pub record Key : Type 0 where
  pub alg : Str
  pub secret : Str

pub record KeyPair : Type 0 where
  pub private_key : Str
  pub public_key : Str

module _ (J : JsonLib) (S : Surroundings) where
  open J use {Json, str, int, object, null, is_null, value_str}
  open S use {
    World, generate_uuid, generate_uuid_v3, get_expiration_time, sign, get_file, psetex, get,
  }

  -- `j["user"]` of an object makes the field, with null, if it is missing.
  unfoldable pub with_user : Option Json → Assoc Json → Assoc Json
  with_user none m = insert (codes "user") null m
  with_user (some u) m = m

  unfoldable pub user_of : Option Json → Json
  user_of none = null
  user_of (some u) = u

  unfoldable pub choose_key : Str → World → Key × World
  choose_key [] w =
      let (k, w') = generate_uuid w in (record { alg = codes "hs256"; secret = k }, w')
  choose_key (c ∷ private_key) w = (record { alg = codes "rs256"; secret = c ∷ private_key }, w)

  -- The fields that are set before the token is signed.
  unfoldable pub fill : Assoc Json → Str → Str → ℤ → Str → Str → Assoc Json
  fill m sid secret expire expire_ts user_uuid = insert (codes "user_uuid") (str user_uuid) (
      insert (codes "expire_ts") (str expire_ts) (
        insert (codes "expire") (int expire)
          (insert (codes "secret") (str secret) (insert (codes "sid") (str sid) m))))

  unfoldable pub with_signature :
      Assoc Json → World → Option Str → Option ((Str × Assoc Json) × World)
  with_signature m w none = none
  with_signature m w (some signature) =
      some ((signature, insert (codes "signature") (str signature) m), w)

  -- The part behind the reads of the argument: the signature, the object, and the world.
  unfoldable pub sign_for : Str → Assoc Json → Key × World → Option ((Str × Assoc Json) × World)
  unfolding fill thousand with_signature
  sign_for user m (key, w) =
      let (id, w1) = generate_uuid w in
      let ((seconds, printed), w2) = get_expiration_time 24 w1 in
      let sid = codes "sess:" ++ id in
      with_signature (fill m sid key.secret (thousand seconds) printed (generate_uuid_v3 user)) w2 (
        sign key.alg key.secret
          (record { user = user; exp = thousand seconds; exp_ts = printed; sid = sid }))

  -- A private key or a user that is no text throws.
  unfoldable pub create_for :
      Assoc Json → Option Str → Option Str → World → Option ((Str × Assoc Json) × World)
  unfolding sign_for choose_key
  create_for m (some private_key) (some user) w = sign_for user m (choose_key private_key w)
  create_for m none user w = none
  create_for m (some private_key) none w = none

  unfoldable pub create_jwt : Assoc Json → World → Option ((Str × Assoc Json) × World)
  unfolding create_for with_user user_of
  create_jwt m w =
      let user = lookup (codes "user") m in
      let m1 = with_user user m in
      if is_null (user_of user)
      then some (([], m1), w)
      else create_for m1 (value_str (object m1) (codes "private_key") [])
          (value_str (object m1) (codes "user") []) w

  -- Both files are read if both names are there.
  unfoldable pub read_pair : Option Str → Option Str → Option KeyPair
  read_pair (some private_file) (some public_file) = some (
      if ltb 0 (length private_file) && ltb 0 (length public_file)
      then record { private_key = get_file private_file; public_key = get_file public_file }
      else record { private_key = []; public_key = [] })
  read_pair none public_file = none
  read_pair (some private_file) none = none

  unfoldable pub try_get_rs256_key : Json → Str → Str → Option KeyPair
  unfolding read_pair
  try_get_rs256_key config private_name public_name =
      read_pair (value_str config private_name []) (value_str config public_name [])

  -- `publicKey.size() > 0 ? publicKey : j.value("secret", "")`
  unfoldable pub secret_of : Assoc Json → Option Str → Option Str
  secret_of m none = none
  secret_of m (some []) = value_str (object m) (codes "secret") []
  secret_of m (some (c ∷ public_key)) = some (c ∷ public_key)

  -- `string sid = j["sid"]`; a field that is missing is null, which throws.
  unfoldable pub sid_of : Assoc Json → Option Json → Option Str
  sid_of m none = none
  sid_of m (some sid) = value_str (object m) (codes "sid") []

  unfoldable pub store_secret :
      Assoc Json → ℕ → Option Str → Option Str → World → Option (Assoc Json × World)
  store_secret m ttl (some sid) (some secret) w = some (m, psetex sid ttl secret w)
  store_secret m ttl none secret w = none
  store_secret m ttl (some sid) none w = none

  unfoldable pub set_created : ℕ → Option ((Str × Assoc Json) × World) → Option (Assoc Json × World)
  unfolding store_secret sid_of secret_of
  set_created ttl none = none
  set_created ttl (some ((signature, m), w)) =
      store_secret m ttl (sid_of m (lookup (codes "sid") m))
        (secret_of m (value_str (object m) (codes "public_key") [])) w

  -- `RedisSessionStore::set`
  unfoldable pub session_set : Assoc Json → ℕ → World → Option (Assoc Json × World)
  unfolding set_created create_jwt
  session_set m ttl w = set_created ttl (create_jwt m w)

  -- `Client::get` hands an empty text to the callback where there is no text.
  unfoldable pub reply_text : Option Str → Str
  reply_text none = []
  reply_text (some s) = s

  -- `RedisSessionStore::get`
  unfoldable pub session_get : (T : JwtLib) → Str → Str → World → Decrypted T
  unfolding reply_text
  session_get T sid enc_str w = decrypt_jwt T J (reply_text (get sid w)) enc_str
