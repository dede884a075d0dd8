-- ===== src/Servers/WebSocket/Silence.antt =====
-- Deliveries of the web socket server (rs256-secure-ws-server.hpp) over its runs.
use store_cpp.Base.{
  ℕ, ◌≡◌, ◌≢◌, refl, sym, ap, ◌∙◌, Bool, true, false, Option, none, some, some_injective, Str, List,
  [], ◌∷◌, ◌++◌, ◌==◌, Bool-cases, inl, inr,
}
use store_cpp.Base.Assoc.{Assoc}
use store_cpp.Base.Int.{ℤ}
use store_cpp.Library.Json.{JsonLib}
use store_cpp.WebToken.{JwtLib}
use store_cpp.Servers.WebSocket.{
  Hub, User, Frame, Output, frame_sent, message_received, freed, user_create, store_at,
  user_disconnect, listen, handshake, ask_token, admit, parse_web_request_line, frame_write,
  frame_recv,
}
use store_cpp.Servers.WebSocket.Users.{
  Step, connected, shaken, received, written, closed, Reachable, start, then_step,
}

-- The calls of `onMessageReceived`.
abbrev pub deliveries : List Output → List (ℕ × Str)
deliveries [] = []
deliveries (message_received p m ∷ os) = (p, m) ∷ deliveries os
deliveries (frame_sent p m ∷ os) = deliveries os
deliveries (freed p ∷ os) = deliveries os

deliveries-append : (a b : List Output) → deliveries (a ++ b) ≡ deliveries a ++ deliveries b
deliveries-append [] b = refl
deliveries-append (message_received p m ∷ os) b = ap (◌∷◌ (p, m)) (deliveries-append os b)
deliveries-append (frame_sent p m ∷ os) b = deliveries-append os b
deliveries-append (freed p ∷ os) b = deliveries-append os b

-- No live user has a valid session.
abbrev NoneValid : (ℕ → Option User) → Type 0
NoneValid heap = (p : ℕ) (u : User) → heap p ≡ some u → u.sess.is_valid ≡ false

abbrev Silent : Hub → Type 0
Silent h = NoneValid h.heap × (deliveries h.out ≡ [])

store-NoneValid :
    (p : ℕ) (o : Option User) (heap : ℕ → Option User)
    → ((u : User) → o ≡ some u → u.sess.is_valid ≡ false)
    → NoneValid heap
    → NoneValid (store_at p o heap)
unfolding store_at
store-NoneValid p o heap ho hn q u = elim (Bool-cases (q == p)) [
  | inl b ↦ rw b (ho u)
  | inr b ↦ rw b (hn q u)
]

disconnect-Silent : (h : Hub) (p : ℕ) → Silent h → Silent (user_disconnect (some p) h)
unfolding user_disconnect
disconnect-Silent h p (hn, d) = (
  store-NoneValid p none h.heap (λ u e. cc) hn,
  deliveries-append h.out (freed p ∷ []) ∙ rw d refl,
)

listen-Silent : (h : Hub) (p : ℕ) → Silent h → Silent (listen p h)
unfolding listen user_create
listen-Silent h p (hn, d) = (
  store-NoneValid p (some user_create) h.heap
      (λ u e. sym (ap (λ x. x.sess.is_valid) (some_injective e))) hn,
  d,
)

recv-Silent :
    (h : Hub) (p : ℕ) (u : User) (f : Frame)
    → h.heap p ≡ some u
    → Silent h
    → Silent (frame_recv p u f h)
unfolding frame_recv
recv-Silent h p u f e (hn, d) = rw (hn p u e) (hn, deliveries-append h.out _ ∙ rw d refl)

write-Silent :
    (h : Hub) (p : ℕ) (u : User) → h.heap p ≡ some u → Silent h → Silent (frame_write p u h)
unfolding frame_write
write-Silent h p u e s = rw (s.0 p u e) (disconnect-Silent h p s)

parse-sess : (text : Str) (u : User) → (parse_web_request_line text u).sess ≡ u.sess
unfolding parse_web_request_line
parse-sess [] u = refl
parse-sess (c ∷ s) u = refl

module _ (T : JwtLib) (J : JsonLib) (parse_query : Str → Assoc Str) (now : ℤ)
    (public_key : Option Str) where
  -- No query string has a token that is accepted.
  abbrev pub NoToken : Type 0
  NoToken =
      (path : Str) (j : J.Json)
      → ask_token T J parse_query now public_key (parse_query path) J.null ≢ some (true, j)

  admit-sess :
      (u v : User) (r : Option (Bool × J.Json))
      → ((j : J.Json) → r ≢ some (true, j))
      → admit T J parse_query now public_key u r ≡ some v
      → v.sess ≡ u.sess
  unfolding admit
  admit-sess u v none n = λ e. cc
  admit-sess u v (some (false, j)) n = λ e. sym (ap (λ x. x.sess) (some_injective e))
  admit-sess u v (some (true, j)) n = absurd (n j refl)

  handshake-sess :
      (text : Str) (u v : User)
      → NoToken
      → handshake T J parse_query now public_key text u ≡ some v
      → v.sess ≡ u.sess
  unfolding handshake
  handshake-sess text u v n e =
      admit-sess _ v _ (n (parse_web_request_line text u).req.path) e ∙ parse-sess text u

  step-Silent :
      NoToken → (h k : Hub) → Step T J parse_query now public_key h k → Silent h → Silent k
  step-Silent n h _ (connected _ p e) s = listen-Silent h p s
  step-Silent n h _ (shaken _ p u v text e f) s = (
    store-NoneValid p (some v) h.heap
        (λ x y.
          ap (λ t. t.sess.is_valid) (sym (some_injective y))
          ∙ ap (λ t. t.is_valid) (handshake-sess text u v n f)
          ∙ s.0 p u e)
        (s.0),
    s.1,
  )
  step-Silent n h _ (received _ p u f e) s = recv-Silent h p u f e s
  step-Silent n h _ (written _ p u e) s = write-Silent h p u e s
  step-Silent n h _ (closed _ p u e) s = disconnect-Silent h p s

  Reachable-Silent : NoToken → (h : Hub) → Reachable T J parse_query now public_key h → Silent h
  Reachable-Silent n _ start = (λ p u e. cc, refl)
  Reachable-Silent n k (then_step h _ r s) = step-Silent n h k s (Reachable-Silent n h r)

  -- If no query string holds a token that is accepted, no reachable state has delivered a message.
  pub Reachable-deliveries :
      NoToken → (h : Hub) → Reachable T J parse_query now public_key h → deliveries h.out ≡ []
  Reachable-deliveries n h r = (Reachable-Silent n h r).1
