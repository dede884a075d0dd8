-- ===== src/Servers/Secure.antt =====
-- `RS256SecureServer` (rs256-secure-server.hpp): routes that need no token, then a token, then the
-- routes behind it. An exception that leaves the handler is `none`. The patterns of the routes are
-- valid, so that `regex_search` throws nothing.
pub mod Laws
use store_cpp.Base.{
  ℕ, ◌≡◌, Bool, true, false, Option, none, some, Str, codes, List, [], ◌∷◌, if◌then◌else◌, ltb,
  length,
}
use store_cpp.Base.Assoc.{Assoc, lookup}
use store_cpp.Base.Int.{ℤ}
use store_cpp.Library.Json.{JsonLib}
use store_cpp.WebToken.{with_public_key, JwtLib, is_rs256_authenticated}
use store_cpp.Servers.Session.{SessionT, fresh, from_json, to_json}
use store_cpp.Servers.Http.{
  EvHttp, Command, get, options, try_get_query_string, value_or_empty, origin_or_null, reply_ok,
}

module _ (H : EvHttp) (T : JwtLib) (J : JsonLib) where
  open H use {World, Request, find_header, add_header, send_reply, send_error}
  open J use {Json}

  -- The key of `rs256KeyPair`, which is null if the service container has no pair; `routes` and
  -- `unsecureRoutes`, in the order of the map; `regex_search` gives the matched texts.
  pub record Server : Type 0 where
    pub public_key : Option Str
    pub now : ℤ
    pub regex_search : Str → Str → Option (List Str)
    pub routes : Assoc (Request → List Str → SessionT → World → Option World)
    pub unsecure_routes : Assoc (Request → List Str → World → Option World)

  -- The route `getSession`: `dump` prints the session.
  unfoldable pub if_get : Command → World → World → World
  if_get get then_w else_w = then_w
  if_get _ then_w else_w = else_w

  unfoldable pub get_session : (Json → Str) → Request → List Str → SessionT → World → Option World
  unfolding if_get
  get_session dump req segments sess w = some (
      if_get (H.command req) (reply_ok H req (dump (to_json J sess)) (codes "application/json") w)
        (send_error req 400 (some (codes "Bad Request")) w))

  -- `isAuthenticated`: the header decides if it is there, the query string otherwise.
  unfoldable pub ask_query : Server → Request → Json → Str → Option (Bool × Json)
  unfolding with_public_key
  ask_query s req j xtoken =
      if ltb 0 (length xtoken)
      then with_public_key s.public_key (λ key. is_rs256_authenticated T J s.now key xtoken j)
      else some (false, j)

  unfoldable pub ask : Server → Request → Json → Option Str → Option (Bool × Json)
  unfolding ask_query with_public_key
  ask s req j (some val) =
      with_public_key s.public_key (λ key. is_rs256_authenticated T J s.now key val j)
  ask s req j none =
      ask_query s req j
        (value_or_empty (lookup (codes "x-access-token") (try_get_query_string H req)))

  unfoldable pub is_authenticated : Server → Request → Json → Option (Bool × Json)
  unfolding ask
  is_authenticated s req j = ask s req j (find_header req (codes "x-access-token"))

  -- `tryMatchUri`: the first route whose pattern is found runs; `none` inside is no match.
  unfoldable pub found_or : {R : Type 0} → Option (List Str) → (List Str → R) → R → R
  found_or none run rest = rest
  found_or (some segments) run rest = run segments

  unfoldable pub try_match :
      {F : Type 0} → (Str → Str → Option (List Str)) → Assoc F → Str → Option (F × List Str)
  unfolding found_or
  try_match search [] uri = none
  try_match search ((pattern, handler) ∷ rest) uri =
      found_or (search pattern uri) (λ segments. some (handler, segments))
        (try_match search rest uri)

  unfoldable pub preflight : Request → World → World
  unfolding origin_or_null
  preflight req w =
      let w1 =
        add_header req (codes "Access-Control-Allow-Origin")
          (origin_or_null (find_header req (codes "Origin"))) w in
      let w2 = add_header req (codes "Vary") (codes "origin") w1 in
      let w3 = add_header req (codes "Access-Control-Allow-Credentials") (codes "true") w2 in
      let w4 =
        add_header req (codes "Access-Control-Allow-Methods") (codes "POST, GET, OPTIONS") w3 in
      let w5 =
        add_header req (codes "Access-Control-Allow-Headers")
          (codes "Origin, Accept, Content-Type, x-access-token") w4 in
      let w6 = add_header req (codes "Access-Control-Max-Age") (codes "86400") w5 in
      send_reply req 200 (codes "OK") none w6

  -- The session that a secured route gets is read from the token; a field of another type throws.
  unfoldable pub run_secured :
      Request
      → Option ((Request → List Str → SessionT → World → Option World) × List Str)
      → Option SessionT
      → World
      → Option World
  run_secured req none none w = none
  run_secured req none (some sess) w = some (send_error req 404 (some (codes "Not Found")) w)
  run_secured req (some m) none w = none
  run_secured req (some (handler, segments)) (some sess) w = handler req segments sess w

  unfoldable pub answer : Server → Request → Option (Bool × Json) → World → Option World
  unfolding run_secured
  answer s req none w = none
  answer s req (some (false, j)) w = some (send_error req 401 none w)
  answer s req (some (true, j)) w =
      run_secured req (try_match s.regex_search s.routes (H.uri req)) (from_json J j fresh) w

  unfoldable pub unsecured_or :
      Request
      → Option ((Request → List Str → World → Option World) × List Str)
      → Option World
      → World
      → Option World
  unsecured_or req none rest w = rest
  unsecured_or req (some (handler, segments)) rest w = handler req segments w

  unfoldable pub serve : Server → Request → World → Option World
  unfolding unsecured_or answer is_authenticated try_match
  serve s req w =
      unsecured_or req (try_match s.regex_search s.unsecure_routes (H.uri req))
        (answer s req (is_authenticated s req J.null) w) w

  unfoldable pub preflight_or : Command → World → Option World → Option World
  preflight_or options answered rest = some answered
  preflight_or _ answered rest = rest

  unfoldable pub process_request : Server → Request → World → Option World
  unfolding preflight_or preflight serve
  process_request s req w = preflight_or (H.command req) (preflight req w) (serve s req w)
