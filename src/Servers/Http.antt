-- ===== src/Servers/Http.antt =====
-- Requests and replies of an HTTP server: replies.hpp, and of util.hpp the query string. libevent is a parameter.
pub mod Types
use store_cpp.Base.{
  ℕ, suc, ◌≡◌, refl, Bool, true, false, Option, none, some, Str, codes, List, [], ◌∷◌, ◌++◌,
  if◌then◌else◌, ◌∙◌, ap, arith, ltb, length,
}
use store_cpp.Base.Assoc.{Assoc, lookup}

pub data Command : Type 0 where
  get : Command
  post : Command
  head : Command
  put : Command
  delete : Command
  options : Command

-- What the program calls of libevent: reading a request, and sending what ends it.
pub record EvHttp : Type 1 where
  pub World : Type 0
  pub Request : Type 0
  pub command : Request → Command
  pub uri : Request → Str
  pub find_header : Request → Str → Option Str
  -- `evhttp_parse_query(uri, headers)`: the list of keys and values
  pub parse_query : Str → Assoc Str
  pub add_header : Request → Str → Str → World → World
  pub send_reply : Request → ℕ → Str → Option Str → World → World
  pub send_error : Request → ℕ → Option Str → World → World

-- How many replies were sent: each way of ending a request sends one.
pub record EvHttpLaws (H : EvHttp) : Type 0 where
  pub sent : H.World → ℕ
  pub sent-add_header :
      (q : H.Request) (k v : Str) (w : H.World) → sent (H.add_header q k v w) ≡ sent w
  pub sent-send_reply :
      (q : H.Request) (n : ℕ) (reason : Str) (body : Option Str) (w : H.World)
      → sent (H.send_reply q n reason body w) ≡ suc (sent w)
  pub sent-send_error :
      (q : H.Request) (n : ℕ) (reason : Option Str) (w : H.World)
      → sent (H.send_error q n reason w) ≡ suc (sent w)

-- `std::map::insert` keeps the entry that is there.
unfoldable pub insert_all : Assoc Str → Assoc Str → Assoc Str
insert_all m [] = m
insert_all m ((k, v) ∷ rest) = insert_all (keep_or_add (lookup k m)) rest
  where
    keep_or_add : Option Str → Assoc Str
    keep_or_add none = m ++ ((k, v) ∷ [])
    keep_or_add (some x) = m

-- `querystrings[key]`: a missing key reads as the empty text.
unfoldable pub value_or_empty : Option Str → Str
value_or_empty none = []
value_or_empty (some v) = v

-- `origin != NULL ? origin : "null"`
unfoldable pub origin_or_null : Option Str → Str
origin_or_null none = codes "null"
origin_or_null (some o) = o

module _ (H : EvHttp) where
  open H use {World, Request, find_header, add_header, send_reply}

  unfoldable pub try_get_query_string : Request → Assoc Str
  unfolding insert_all
  try_get_query_string req = insert_all [] (H.parse_query (H.uri req))

  unfoldable pub reply_ok : Request → Str → Str → World → World
  unfolding origin_or_null
  reply_ok req content content_type w =
      let w1 =
        add_header req (codes "Access-Control-Allow-Origin")
          (origin_or_null (find_header req (codes "Origin"))) w in
      let w2 = add_header req (codes "Content-Type") content_type w1 in
      send_reply req 200 (codes "OK") (some content) w2

  unfoldable pub respond_after_processed : Request → Str → World → World
  unfolding try_get_query_string reply_ok
  respond_after_processed req body w =
      let jsonp = value_or_empty (lookup (codes "jsonp") (try_get_query_string req)) in
      if ltb 0 (length jsonp)
      then reply_ok req (jsonp ++ codes "(" ++ body ++ codes ")") (codes "application/javascript") w
      else reply_ok req body (codes "application/json") w

module _ (H : EvHttp) (laws : EvHttpLaws H) where
  open laws use {sent, sent-add_header, sent-send_reply, sent-send_error}

  pub reply_ok-sent :
      (req : H.Request) (content content_type : Str) (w : H.World)
      → sent (reply_ok H req content content_type w) ≡ suc (sent w)
  unfolding reply_ok
  reply_ok-sent req content content_type w =
      sent-send_reply _ _ _ _ _ ∙ ap suc (sent-add_header _ _ _ _ ∙ sent-add_header _ _ _ _)
