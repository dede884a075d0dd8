-- ===== src/Tests/Sessions.antt =====
-- The theorem on stored sessions with a map for Redis and a token that is the key with the user's name.
use store_cpp.Base.{
  subst, some_injective, ℕ, suc, arith, ◌==◌, ◌≡◌, refl, some, Str, codes, seq, [], ◌∷◌, ◌++◌,
  if◌then◌else◌,
}
use store_cpp.Base.Int.{pos}
use store_cpp.Base.Assoc.{Assoc, lookup, insert}
use store_cpp.Library.Database.{Result, ok, err}
use store_cpp.WebToken.{JwtLib, JwtError, decode_error}
use store_cpp.WebToken.Create.{thousand, Surroundings, session_set}
use store_cpp.WebToken.Sessions.{SessionLaws, Stored, lookup-same, session_set-Stored}
use store_cpp.Tests.Plain.{plain_json, plain_json_laws, text_value}

-- What follows the key.
abbrev behind : Str → Str → Result JwtError Str
behind [] s = ok s
behind (k ∷ key) [] = err (decode_error [])
behind (k ∷ key) (c ∷ s) = if k == c then behind key s else err (decode_error [])

behind-append : (key s : Str) → behind key (key ++ s) ≡ ok s
behind-append [] s = refl
behind-append (k ∷ key) s = ground (arith, behind-append key s)

abbrev keyed_jwt : JwtLib
keyed_jwt = record {
  Token = Str;
  decode = λ algorithms key token. behind key token;
  header = λ t. t;
  payload = λ t. t;
}

-- How many identifiers there are, and what Redis holds.
abbrev keyed : Surroundings
keyed = record {
  World = ℕ × Assoc Str;
  generate_uuid = λ w. (w.0 ∷ [], (suc (w.0), w.1));
  generate_uuid_v3 = λ s. s;
  get_expiration_time = λ hours w. ((pos hours, codes "then"), w);
  sign = λ alg key claims. some (key ++ claims.user);
  get_file = λ name. name;
  psetex = λ k ttl v w. (w.0, insert k v (w.1));
  get = λ k w. lookup k (w.1);
}

abbrev keyed_laws : SessionLaws keyed_jwt keyed
keyed_laws = record {
  token = λ claims. claims.user;
  get_psetex = λ k ttl v w lt. lookup-same k v (w.1);
  clock = pos 0;
  decode_signed = λ key g claims s h.
      subst (λ t. behind key t ≡ ok claims.user) (some_injective s)
        (behind-append key (claims.user));
}

session_set-Stored_example :
    Stored plain_json keyed keyed_jwt
      (λ claims. claims.user)
      (codes "ann")
      (session_set plain_json keyed ((codes "user", text_value (codes "ann")) ∷ []) 5 (0, []))
unfolding lookup codes seq thousand
session_set-Stored_example =
    session_set-Stored plain_json plain_json_laws keyed keyed_jwt keyed_laws
      ((codes "user", text_value (codes "ann")) ∷ []) (codes "ann") 5 (0, []) refl refl refl refl
      (omega arith) (λ key claims e. (key ++ claims.user, refl)) (λ v. omega arith)
