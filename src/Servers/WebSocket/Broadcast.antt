-- ===== src/Servers/WebSocket/Broadcast.antt =====
-- `RS256SecureRedisWsServer` (store.servers/src/rs256-secure-redis-ws-server.hpp): a message of a Redis
-- channel goes to the users whose session has the channel's name. The subscriber is a library that
-- calls back with a channel and a message.
use store_cpp.Base.{
  ℕ, ◌≡◌, Bool, false, Option, none, some, Str, List, [], ◌∷◌, ◌++◌, if◌then◌else◌, seq,
}
use store_cpp.Base.Assoc.{Assoc}
use store_cpp.Base.Int.{ℤ}
use store_cpp.Library.Json.{JsonLib}
use store_cpp.WebToken.{JwtLib}
use store_cpp.Servers.WebSocket.Users.{Step}
use store_cpp.Servers.WebSocket.{User, Hub, Output, frame_sent}

-- `if (user_vec[i]->sess.sid == chan) send_a_frame(…)`; an address that is freed is undefined, which
-- is `none`.
unfoldable pub send_if : Str → Str → ℕ → Option User → List Output → Option (List Output)
send_if chan msg p none out = none
send_if chan msg p (some u) out =
    some (if seq u.sess.sid chan then out ++ (frame_sent p msg ∷ []) else out)

abbrev then_send :
    Option (List Output) → (List Output → Option (List Output)) → Option (List Output)
then_send none f = none
then_send (some out) f = f out

-- The loop over `user_vec`.
unfoldable pub broadcast_loop :
    Str → Str → (ℕ → Option User) → List ℕ → List Output → Option (List Output)
broadcast_loop chan msg heap [] out = some out
broadcast_loop chan msg heap (p ∷ ps) out =
    then_send (send_if chan msg p (heap p) out) (broadcast_loop chan msg heap ps)

unfoldable pub sent_to : Hub → Option (List Output) → Option Hub
sent_to h none = none
sent_to h (some out) = some (record h { out = out })

unfoldable pub broadcast : Str → Str → Hub → Option Hub
broadcast chan msg h = sent_to h (broadcast_loop chan msg h.heap h.user_vec h.out)

-- Whether the user has the session, and the one at the address.
abbrev pub with_sid : Str → Option User → Bool
with_sid chan none = false
with_sid chan (some u) = seq u.sess.sid chan

abbrev pub has_session : Str → (ℕ → Option User) → ℕ → Bool
has_session chan heap p = with_sid chan (heap p)

-- Every user of the list is there.
abbrev AllThere : (ℕ → Option User) → List ℕ → Type 0
AllThere heap [] = Unit
AllThere heap (p ∷ ps) = ((u : User) × (heap p ≡ some u)) × AllThere heap ps

module _ (T : JwtLib) (J : JsonLib) (parse_query : Str → Assoc Str) (public_key : Option Str) where
  -- The runs of the Redis server: the steps of the web socket server, each at its own time, and the
  -- messages of the channels, in any order.
  pub data ServedHub : Hub → Type 0 where
    at_start : ServedHub (record { user_vec = []; heap = λ p. none; out = [] })
    then_served :
        (now : ℤ) (h k : Hub) → ServedHub h → Step T J parse_query now public_key h k → ServedHub k
    then_message :
        (chan msg : Str) (h k : Hub) → ServedHub h → broadcast chan msg h ≡ some k → ServedHub k
