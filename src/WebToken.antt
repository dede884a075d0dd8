-- ===== src/WebToken.antt =====
-- Tokens: `decryptJwt`, `jwtObjectToJson`, `tokenExpired` and `isRS256Authenticated`
-- (store.common/src/web_token.hpp). The jwt library and the clock are parameters. An exception that
-- leaves a function is `none`.
pub mod Laws
pub mod Create
pub mod Sessions
use store_cpp.Base.{
  ◌≡◌, Bool, true, false, not, Option, none, some, Str, codes, if◌then◌else◌, List, [], ◌∷◌,
}
use store_cpp.Base.Int.{ℤ, pos, ltb_ℤ}
use store_cpp.Library.Json.{JsonLib}
use store_cpp.Library.Database.{Result, ok, err}

-- What `jwt::decode` throws: the four classes that the source names, with their `what()`, and all
-- else.
pub data JwtError : Type 0 where
  token_expired_error : Str → JwtError
  signature_format_error : Str → JwtError
  decode_error : Str → JwtError
  verification_error : Str → JwtError
  unknown : JwtError

-- The jwt library: `decode` checks the signature with one of the given algorithms; `header` and
-- `payload` are what `<<` prints.
pub record JwtLib : Type 1 where
  pub Token : Type 0
  pub decode : List Str → Str → Str → Result JwtError Token
  pub header : Token → Str
  pub payload : Token → Str

pub record Decrypted (T : JwtLib) : Type 0 where
  pub error : Str
  pub dec : Option T.Token

abbrev pub accepted : List Str
accepted = codes "hs256" ∷ codes "rs256" ∷ []

abbrev pub unknown_error : Str
unknown_error = codes "Caught unknown exception"

unfoldable pub what : JwtError → Str
what (token_expired_error m) = m
what (signature_format_error m) = m
what (decode_error m) = m
what (verification_error m) = m
what unknown = unknown_error

-- `rs256KeyPair->publicKey` in the secured servers: a null pointer is undefined.
unfoldable pub with_public_key : {A : Type 0} → Option Str → (Str → Option A) → Option A
with_public_key none judge = none
with_public_key (some key) judge = judge key

module _ (T : JwtLib) (J : JsonLib) where
  open J use {Json}

  unfoldable pub finish_decrypt : Result JwtError T.Token → Decrypted T
  unfolding what
  finish_decrypt (ok t) = record { error = []; dec = some t }
  finish_decrypt (err e) = record { error = what e; dec = none }

  unfoldable pub decrypt_jwt : Str → Str → Decrypted T
  unfolding finish_decrypt
  decrypt_jwt key enc_str = finish_decrypt (T.decode accepted key enc_str)

  -- Both parts are parsed; the two fields are all there is in the result.
  unfoldable pub joined_parts : Option Json → Option Json → Option Json
  joined_parts none p = none
  joined_parts (some h) none = none
  joined_parts (some h) (some p) = some (J.object ((codes "header", h) ∷ (codes "payload", p) ∷ []))

  unfoldable pub jwt_object_to_json : T.Token → Option Json
  unfolding joined_parts
  jwt_object_to_json t = joined_parts (J.parse (T.header t)) (J.parse (T.payload t))

  -- `payload["exp"]` is null where the field is missing; a payload that is no object throws.
  unfoldable pub exp_of : Option Json → Option ℤ
  exp_of none = none
  exp_of (some e) = if J.is_null e then some (pos 0) else J.get_int64 e

  unfoldable pub payload_exp : Option Json → Option ℤ
  unfolding exp_of
  payload_exp none = none
  payload_exp (some payload) =
      if J.is_null payload then some (pos 0) else exp_of (J.index payload (codes "exp"))

  unfoldable pub is_after : ℤ → Option ℤ → Option Bool
  is_after now none = none
  is_after now (some exp) = some (ltb_ℤ exp now)

  -- `now` is the clock in milliseconds.
  unfoldable pub token_expired : ℤ → Json → Option Bool
  unfolding is_after payload_exp
  token_expired now j = is_after now (payload_exp (J.value_json j (codes "payload") J.null))

  unfoldable pub judge : Json → Option Bool → Option (Bool × Json)
  judge j none = none
  judge j (some expired) = some (not expired, j)

  unfoldable pub judge_json : ℤ → Option Json → Option (Bool × Json)
  unfolding token_expired judge
  judge_json now none = none
  judge_json now (some j) = judge j (token_expired now j)

  -- Without an error text the pointer is dereferenced: a null pointer stops the program.
  unfoldable pub checked : ℤ → Json → Str → Option T.Token → Option (Bool × Json)
  unfolding judge_json
  checked now j (x ∷ error) dec = some (false, j)
  checked now j [] none = none
  checked now j [] (some t) = judge_json now (jwt_object_to_json t)

  -- The answer, and the value of the reference `j` afterwards.
  unfoldable pub is_rs256_authenticated : ℤ → Str → Str → Json → Option (Bool × Json)
  unfolding checked
  is_rs256_authenticated now public_key token j =
      let pa = decrypt_jwt public_key token in checked now j pa.error pa.dec
