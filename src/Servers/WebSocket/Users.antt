-- ===== src/Servers/WebSocket/Users.antt =====
-- The runs of the web socket server (ws-server.hpp, rs256-secure-ws-server.hpp) as a step relation,
-- and its user list.
use store_cpp.Base.{
  ℕ, suc, pred, ◌≡◌, refl, sym, ap, ◌∙◌, true, Option, none, some, Str, List, [], ◌∷◌, ◌++◌,
  if◌then◌else◌, ◌==◌, ◌≤◌, Bool-cases, inl, inr, arith,
}
use store_cpp.Base.Assoc.{Assoc}
use store_cpp.Base.Int.{ℤ}
use store_cpp.Library.Json.{JsonLib}
use store_cpp.WebToken.{JwtLib}
use store_cpp.Servers.WebSocket.{
  Hub, User, Frame, user_create, erase, store_at, user_disconnect, listen, handshake, frame_write,
  frame_recv, deliver,
}

-- How often an address is in the list, and whether a user lives there.
abbrev pub occurrences : ℕ → List ℕ → ℕ
occurrences p [] = 0
occurrences p (q ∷ qs) = let n = occurrences p qs in if q == p then suc n else n

abbrev pub alive : Option User → ℕ
alive none = 0
alive (some u) = 1

-- The list holds each live user once, and no other address.
abbrev pub WellFormed : Hub → Type 0
WellFormed h = (p : ℕ) → occurrences p h.user_vec ≡ alive (h.heap p)

module _ (T : JwtLib) (J : JsonLib) (parse_query : Str → Assoc Str) (now : ℤ)
    (public_key : Option Str) where
  -- The callbacks of the library: a new connection gets an address that is free, and the others run
  -- for a user that lives. A handshake that throws leaves no later state.
  pub data Step : Hub → Hub → Type 0 where
    connected : (h : Hub) (p : ℕ) → h.heap p ≡ none → Step h (listen p h)
    shaken :
        (h : Hub) (p : ℕ) (u v : User) (text : Str)
        → h.heap p ≡ some u
        → handshake T J parse_query now public_key text u ≡ some v
        → Step h (record h { heap = store_at p (some v) h.heap })
    received :
        (h : Hub) (p : ℕ) (u : User) (f : Frame) → h.heap p ≡ some u → Step h (frame_recv p u f h)
    written : (h : Hub) (p : ℕ) (u : User) → h.heap p ≡ some u → Step h (frame_write p u h)
    closed : (h : Hub) (p : ℕ) (u : User) → h.heap p ≡ some u → Step h (user_disconnect (some p) h)

  pub data Reachable : Hub → Type 0 where
    start : Reachable (record { user_vec = []; heap = λ p. none; out = [] })
    then_step : (h k : Hub) → Reachable h → Step h k → Reachable k

occurrences-erase :
    (p q : ℕ) (v : List ℕ)
    → occurrences p (erase q v) ≡ (if p == q then pred (occurrences p v) else occurrences p v)
unfolding erase
occurrences-erase p q [] = ground arith
occurrences-erase p q (x ∷ v) = ground (arith, occurrences-erase p q v)

occurrences-append :
    (p q : ℕ) (v : List ℕ)
    → occurrences p (v ++ q ∷ []) ≡ (if p == q then suc (occurrences p v) else occurrences p v)
occurrences-append p q [] = ground arith
occurrences-append p q (x ∷ v) = ground (arith, occurrences-append p q v)

alive-store_at :
    (p q : ℕ) (o : Option User) (heap : ℕ → Option User)
    → alive (store_at p o heap q) ≡ (if q == p then alive o else alive (heap q))
unfolding store_at
alive-store_at p q o heap = elim (Bool-cases (q == p)) [ inl e ↦ rw e refl | inr e ↦ rw e refl ]

alive_le : (o : Option User) → alive o ≤ 1
alive_le none = omega arith
alive_le (some u) = omega arith

same_at : (p q : ℕ) (heap : ℕ → Option User) → (q == p) ≡ true → alive (heap q) ≡ alive (heap p)
same_at p q heap e = ap (λ r. alive (heap r)) (ground arith)

store-WellFormed :
    (h : Hub) (p : ℕ) (u v : User)
    → h.heap p ≡ some u
    → WellFormed h
    → (q : ℕ) → occurrences q h.user_vec ≡ alive (store_at p (some v) h.heap q)
store-WellFormed h p u v e wf q =
    let here : alive (h.heap p) ≡ 1 = ap alive e in
    wf q ∙ elim (Bool-cases (q == p)) [
      | inl b ↦ (same_at p q h.heap b ∙ here) ∙ sym (alive-store_at p q (some v) h.heap ∙ rw b refl)
      | inr b ↦ sym (alive-store_at p q (some v) h.heap ∙ rw b refl)
    ]

disconnect-WellFormed : (h : Hub) (p : ℕ) → WellFormed h → WellFormed (user_disconnect (some p) h)
unfolding user_disconnect
disconnect-WellFormed h p wf q =
    let a = occurrences-erase q p h.user_vec in
    let b = alive-store_at p q none h.heap in ground (arith, a, b, wf q, alive_le (h.heap q))

listen-WellFormed : (h : Hub) (p : ℕ) → h.heap p ≡ none → WellFormed h → WellFormed (listen p h)
unfolding listen
listen-WellFormed h p e wf q =
    let a = occurrences-append q p h.user_vec in
    let b = alive-store_at p q (some user_create) h.heap in
    let here : alive (h.heap p) ≡ 0 = ap alive e in
    let same = same_at p q h.heap in ground (arith, a, b, wf q, here, same)

recv-WellFormed :
    (h : Hub) (p : ℕ) (u : User) (f : Frame)
    → h.heap p ≡ some u
    → WellFormed h
    → WellFormed (frame_recv p u f h)
unfolding frame_recv deliver
recv-WellFormed h p u f e wf = elim (Bool-cases (u.sess.is_valid)) [
  | inl b ↦ rw b (elim (Bool-cases (f.fin == 1)) [
    | inl c ↦ rw c (store-WellFormed h p u _ e wf)
    | inr c ↦ rw c (store-WellFormed h p u _ e wf)
  ])
  | inr b ↦ rw b wf
]

write-WellFormed : (h : Hub) (p : ℕ) (u : User) → WellFormed h → WellFormed (frame_write p u h)
unfolding frame_write
write-WellFormed h p u wf = elim (Bool-cases (u.sess.is_valid)) [
  | inl b ↦ rw b wf
  | inr b ↦ rw b (disconnect-WellFormed h p wf)
]

module _ (T : JwtLib) (J : JsonLib) (parse_query : Str → Assoc Str) (now : ℤ)
    (public_key : Option Str) where
  pub step-WellFormed :
      (h k : Hub) → Step T J parse_query now public_key h k → WellFormed h → WellFormed k
  step-WellFormed h _ (connected _ p e) wf = listen-WellFormed h p e wf
  step-WellFormed h _ (shaken _ p u v text e f) wf = store-WellFormed h p u v e wf
  step-WellFormed h _ (received _ p u f e) wf = recv-WellFormed h p u f e wf
  step-WellFormed h _ (written _ p u e) wf = write-WellFormed h p u wf
  step-WellFormed h _ (closed _ p u e) wf = disconnect-WellFormed h p wf

  -- In every reachable state the user list holds each live user exactly once and no freed one.
  pub Reachable-WellFormed : (h : Hub) → Reachable T J parse_query now public_key h → WellFormed h
  Reachable-WellFormed _ start p = refl
  Reachable-WellFormed k (then_step h _ r s) p = step-WellFormed h k s (Reachable-WellFormed h r) p
