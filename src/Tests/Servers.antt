-- ===== src/Tests/Servers.antt =====
-- The theorems on the servers and on tokens at concrete requests and frames.
use store_cpp.Base.{◌++◌, suc, ◌≡◌, refl, true, none, some, Str, codes, seq, [], ◌∷◌, if◌then◌else◌}
use store_cpp.Base.Int.{pos}
use store_cpp.Base.Assoc.{Assoc, lookup}
use store_cpp.WebToken.{
  with_public_key, is_rs256_authenticated, decrypt_jwt, jwt_object_to_json, token_expired, checked,
  finish_decrypt, judge_json, judge, is_after, payload_exp, exp_of,
}
use store_cpp.WebToken.Laws.{Verified, is_rs256_authenticated-Verified}
use store_cpp.Servers.Session.{SessionT, from_json, has_parts, read_flat, read_parts, set_from}
use store_cpp.Servers.Http.{get, reply_ok, try_get_query_string, value_or_empty, insert_all}
use store_cpp.Servers.Secure.{
  Server, process_request, get_session, is_authenticated, ask, ask_query, serve, preflight_or,
  unsecured_or, answer, try_match, found_or, run_secured, if_get,
}
use store_cpp.Servers.Secure.Laws.{
  Refused, process_request-Refused, process_request-Answered, get_session-Answers,
}
use store_cpp.Servers.WebSocket.{
  frame_sent, Hub, User, Frame, user_create, listen, frame_recv, store_at, ask_token,
}
use store_cpp.Servers.WebSocket.Users.{
  WellFormed, Reachable, start, then_step, connected, received, Reachable-WellFormed,
}
use store_cpp.Servers.WebSocket.Silence.{deliveries, NoToken, Reachable-deliveries}
use store_cpp.Servers.WebSocket.Messages.{Received, receive_all, receive_all_lem, payloads}
use store_cpp.Tests.Plain.{
  plain_json, plain_json_laws, plain_jwt, Value, number_value, object_value, no_fields, field_then,
}
use store_cpp.Tests.Counting.{counting_http, counting_http_laws}

abbrev dump : Value → Str
dump j = codes "{}"

-- The only path has the session route.
abbrev server : Server counting_http plain_jwt plain_json
server = record {
  public_key = some (codes "k");
  now = pos 0;
  regex_search = λ pattern uri. if seq pattern uri then some (uri ∷ []) else none;
  routes = (codes "/a", get_session counting_http plain_jwt plain_json dump) ∷ [];
  unsecure_routes = [];
}

bare-Refused : Refused counting_http plain_jwt plain_json server (get, none)
unfolding is_authenticated ask ask_query try_get_query_string value_or_empty insert_all lookup codes
    seq
bare-Refused j e = cc

process_request-Refused_example :
    process_request counting_http plain_jwt plain_json server (get, none) 4
    ≡ process_request counting_http plain_jwt plain_json
        (record server { routes = [] })
        (get, none)
        4
process_request-Refused_example =
    process_request-Refused counting_http plain_jwt plain_json server [] (get, none) 4 bare-Refused

session_request :
    process_request counting_http plain_jwt plain_json server (get, some (codes "k")) 4 ≡ some 5
unfolding process_request preflight_or serve unsecured_or answer is_authenticated ask
    with_public_key try_match found_or run_secured get_session if_get is_rs256_authenticated checked
    decrypt_jwt finish_decrypt judge_json judge jwt_object_to_json token_expired is_after
    payload_exp exp_of from_json read_flat read_parts set_from has_parts codes seq reply_ok
session_request = refl

process_request-Answered_example : 5 ≡ suc 4
process_request-Answered_example =
    process_request-Answered counting_http plain_jwt plain_json counting_http_laws server
      (get, some (codes "k")) 4 5 tt
      (get_session-Answers counting_http plain_jwt plain_json counting_http_laws dump, tt)
      session_request

abbrev token_part : Value
token_part = object_value (field_then (codes "exp") (number_value (pos 1)) no_fields)

abbrev token_json : Value
token_json =
    object_value
      (field_then (codes "header") token_part (field_then (codes "payload") token_part no_fields))

accepted_token :
    is_rs256_authenticated plain_jwt plain_json (pos 0) (codes "k") (codes "k") (plain_json.null)
    ≡ some (true, token_json)
unfolding is_rs256_authenticated checked decrypt_jwt finish_decrypt judge_json judge
    jwt_object_to_json token_expired is_after payload_exp exp_of codes seq
accepted_token = refl

is_rs256_authenticated-Verified_example :
    Verified plain_jwt plain_json (pos 0) (codes "k") (codes "k") token_json
is_rs256_authenticated-Verified_example =
    is_rs256_authenticated-Verified plain_jwt plain_json plain_json_laws (pos 0) (codes "k")
      (codes "k") (plain_json.null) token_json accepted_token

abbrev ann : SessionT
ann = record { sid = codes "s"; exp_ts = codes "t"; user = codes "ann"; is_valid = true }

-- One user connects, without a token, and sends a frame.
abbrev no_query : Str → Assoc Str
no_query path = []

abbrev empty_hub : Hub
empty_hub = record { user_vec = []; heap = λ p. none; out = [] }

abbrev hello : Frame
hello = record { fin = 1; payload = codes "hello" }

abbrev visited : Hub
visited = frame_recv 7 user_create hello (listen 7 empty_hub)

user_at_7 : (listen 7 empty_hub).heap 7 ≡ some user_create
unfolding listen store_at
user_at_7 = refl

visited-Reachable : Reachable plain_jwt plain_json no_query (pos 0) (some (codes "k")) visited
visited-Reachable =
    then_step (listen 7 empty_hub) visited
      (then_step empty_hub (listen 7 empty_hub) start (connected empty_hub 7 refl))
      (received (listen 7 empty_hub) 7 user_create hello user_at_7)

Reachable-WellFormed_example : WellFormed visited
Reachable-WellFormed_example =
    Reachable-WellFormed plain_jwt plain_json no_query (pos 0) (some (codes "k")) visited
      visited-Reachable

no_query-NoToken : NoToken plain_jwt plain_json no_query (pos 0) (some (codes "k"))
unfolding ask_token
no_query-NoToken path j e = cc

Reachable-deliveries_example : deliveries visited.out ≡ []
Reachable-deliveries_example =
    Reachable-deliveries plain_jwt plain_json no_query (pos 0) (some (codes "k")) no_query-NoToken
      visited visited-Reachable

abbrev told : Hub
told = record visited { out = visited.out ++ (frame_sent 7 (codes "n") ∷ []) }

abbrev member : User
member = record user_create { sess = ann }

abbrev member_hub : Hub
member_hub = record { user_vec = 7 ∷ []; heap = λ p. some member; out = [] }

abbrev opening : Frame
opening = record { fin = 0; payload = codes "well, " }

receive_all_lem_example :
    Received 7 member
      (payloads (opening ∷ hello ∷ []))
      member_hub
      (receive_all 7 (opening ∷ hello ∷ []) member_hub)
receive_all_lem_example =
    receive_all_lem 7 (opening ∷ []) hello member member_hub refl refl (refl, tt) refl
