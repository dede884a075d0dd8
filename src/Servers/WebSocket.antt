-- ===== src/Servers/WebSocket.antt =====
-- The web socket server: users (ws-user.hpp), the user list and its callbacks (ws-server.hpp), and
-- the callbacks behind a token (rs256-secure-ws-server.hpp). A user is known by its address; a
-- callback on a freed address does not run. What the callbacks send, deliver and free is recorded.
pub mod Users
pub mod Silence
pub mod Messages
pub mod Broadcast
use store_cpp.Base.{
  ℕ, zero, suc, ◌≡◌, Bool, true, false, not, ◌&&◌, Option, none, some, Str, codes, List, [], ◌∷◌,
  ◌++◌, if◌then◌else◌, ◌==◌, seq, ltb, length,
}
use store_cpp.Base.Assoc.{Assoc}
use store_cpp.Base.Int.{ℤ}
use store_cpp.Library.Json.{JsonLib}
use store_cpp.WebToken.{with_public_key, JwtLib, is_rs256_authenticated}
use store_cpp.Servers.Session.{SessionT, fresh, from_json}

pub record Request : Type 0 where
  pub method : Str
  pub path : Str
  pub http_version : Str

pub record User : Type 0 where
  pub id : ℕ
  pub msg : Str
  pub req : Request
  pub sess : SessionT

-- A frame of the connection: `fin` is one on the last frame of a message.
pub record Frame : Type 0 where
  pub fin : ℕ
  pub payload : Str

pub data Output : Type 0 where
  frame_sent : ℕ → Str → Output
  message_received : ℕ → Str → Output
  freed : ℕ → Output

pub record Hub : Type 0 where
  pub user_vec : List ℕ
  pub heap : ℕ → Option User
  pub out : List Output

-- `user_create`
unfoldable pub user_create : User
user_create = record {
  id = 0;
  msg = [];
  sess = fresh;
  req = record { method = []; path = []; http_version = [] };
}

-- The loop of `user_disconnect` erases the first entry that is the user.
unfoldable pub erase : ℕ → List ℕ → List ℕ
erase p [] = []
erase p (q ∷ qs) = if q == p then qs else q ∷ erase p qs

unfoldable pub store_at : ℕ → Option User → (ℕ → Option User) → ℕ → Option User
store_at p u heap q = if q == p then u else heap q

-- `user_disconnect`; `none` is the null pointer.
unfoldable pub user_disconnect : Option ℕ → Hub → Hub
unfolding erase store_at
user_disconnect none h = h
user_disconnect (some p) h = record {
  user_vec = erase p h.user_vec;
  heap = store_at p none h.heap;
  out = h.out ++ freed p ∷ [];
}

-- `listencb`, where `user_create` returned the address `p`.
unfoldable pub listen : ℕ → Hub → Hub
unfolding store_at user_create
listen p h = record h {
  user_vec = h.user_vec ++ p ∷ [];
  heap = store_at p (some user_create) h.heap;
}

-- The words of a request line, each up to a space; what follows the last space is dropped.
unfoldable pub words : Str → Str → List Str
words buf [] = []
words buf (c ∷ s) = if c == 32 then buf ∷ words [] s else words (buf ++ c ∷ []) s

unfoldable pub set_request : List Str → Request → Request
set_request [] r = r
set_request (a ∷ []) r = record r { method = a }
set_request (a ∷ b ∷ []) r = record r { method = a; path = b }
set_request (a ∷ b ∷ c ∷ v) r = record { method = a; path = b; http_version = c }

unfoldable pub parse_web_request_line : Str → User → User
unfolding words set_request
parse_web_request_line [] u = u
parse_web_request_line (c ∷ s) u = record u { req = set_request (words [] (c ∷ s)) u.req }

module _ (T : JwtLib) (J : JsonLib) (parse_query : Str → Assoc Str) (now : ℤ)
    (public_key : Option Str) where
  open J use {Json}

  -- The first query field `x-access-token` is the token; the answer and `j` stay as they are
  -- without one.
  unfoldable pub ask_token : Assoc Str → Json → Option (Bool × Json)
  unfolding with_public_key
  ask_token [] j = some (false, j)
  ask_token ((key, val) ∷ rest) j =
      if seq key (codes "x-access-token")
      then with_public_key public_key (λ pk. is_rs256_authenticated T J now pk val j)
      else ask_token rest j

  unfoldable pub both_objects : Option Json → Option Json → Option Bool
  both_objects (some h) (some p) = some (J.is_object h && J.is_object p)
  both_objects (some h) none = if J.is_object h then none else some false
  both_objects none p = none

  unfoldable pub with_session : User → Option SessionT → Option User
  with_session u none = none
  with_session u (some s) = some (record u { sess = s })

  unfoldable pub admit_if : User → Json → Option Bool → Option User
  unfolding with_session
  admit_if u j none = none
  admit_if u j (some false) = some u
  admit_if u j (some true) = with_session u (from_json J j fresh)

  unfoldable pub admit : User → Option (Bool × Json) → Option User
  unfolding admit_if both_objects
  admit u none = none
  admit u (some (false, j)) = some u
  admit u (some (true, j)) =
      admit_if u j (both_objects (J.index j (codes "header")) (J.index j (codes "payload")))

  -- `handshake_cb_handler` on the request text of the connection; `none` is an exception.
  unfoldable pub handshake : Str → User → Option User
  unfolding parse_web_request_line ask_token admit
  handshake ws_req_str u =
      let v = parse_web_request_line ws_req_str u in
      admit v (ask_token (parse_query v.req.path) J.null)

-- `frame_write_cb_handler`
unfoldable pub frame_write : ℕ → User → Hub → Hub
unfolding user_disconnect
frame_write p u h = if u.sess.is_valid then h else user_disconnect (some p) h

-- The end of `frame_recv_cb_handler`: a last frame delivers the message and clears it.
unfoldable pub deliver : ℕ → User → Frame → Str → Hub → Hub
unfolding store_at
deliver p u frame msg h =
    if frame.fin == 1
    then record h {
      heap = store_at p (some (record u { msg = [] })) h.heap;
      out = h.out ++ message_received p msg ∷ [];
    }
    else record h { heap = store_at p (some (record u { msg = msg })) h.heap }

unfoldable pub frame_recv : ℕ → User → Frame → Hub → Hub
unfolding deliver
frame_recv p u frame h =
    if u.sess.is_valid
    then deliver p u frame (u.msg ++ frame.payload) h
    else record h { out = h.out ++ frame_sent p (codes "Unauthorized") ∷ [] }
