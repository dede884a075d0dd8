-- ===== src/Servers/WebSocket/Messages.antt =====
-- The frames of a message and the words of a request line (rs256-secure-ws-server.hpp).
use store_cpp.Base.{
  ℕ, ◌≡◌, refl, sym, ap, ◌∙◌, subst, true, false, Option, none, some, Str, List, [], ◌∷◌, ◌++◌,
  ◌==◌, Bool-cases, inl, inr, arith, All, append_assoc, append-nil,
}
use store_cpp.Servers.WebSocket.{
  Hub, User, Frame, message_received, store_at, frame_recv, deliver, words, set_request,
  parse_web_request_line,
}

-- One frame for the user as the last one left it.
abbrev at_user : ℕ → Frame → Option User → Hub → Hub
at_user p f none h = h
at_user p f (some u) h = frame_recv p u f h

-- The frames of one user, one after the other.
abbrev pub receive_all : ℕ → List Frame → Hub → Hub
receive_all p [] h = h
receive_all p (f ∷ fs) h = receive_all p fs (at_user p f (h.heap p) h)

abbrev pub payloads : List Frame → Str
payloads [] = []
payloads (f ∷ fs) = f.payload ++ payloads fs

-- A byte that is no space.
abbrev pub NoSpace : ℕ → Type 0
NoSpace c = (c == 32) ≡ false

words-append :
    (buf s rest : Str) → All NoSpace s → words buf (s ++ (32 ∷ rest)) ≡ (buf ++ s) ∷ words [] rest
unfolding words
words-append buf [] rest h = ap (λ b. b ∷ words [] rest) (sym (append-nil buf))
words-append buf (c ∷ s) rest (hc, h) =
    rw (hc, words-append (buf ++ c ∷ []) s rest h)
      (ap (λ b. b ∷ words [] rest) (append_assoc buf (c ∷ []) s))

words_last : (buf s : Str) → All NoSpace s → words buf s ≡ []
unfolding words
words_last buf [] h = refl
words_last buf (c ∷ s) (hc, h) = rw hc (words_last (buf ++ c ∷ []) s h)

-- A request line `method path version`, with one space between words that hold none and a method
-- that is not empty, gives its method and its path, and never its version: the version of the user
-- stays what it was.
parse_web_request_line_lem :
    (m : ℕ) (method path version : Str) (u : User)
    → All NoSpace (m ∷ method)
    → All NoSpace path
    → All NoSpace version
    → parse_web_request_line ((m ∷ method) ++ (32 ∷ path ++ (32 ∷ version))) u ≡ record u {
      req = record { method = m ∷ method; path = path; http_version = u.req.http_version };
    }
unfolding parse_web_request_line set_request
parse_web_request_line_lem m method path version u hm hp hv =
    ap (λ v. record u { req = set_request v u.req })
      (words-append [] (m ∷ method) (path ++ (32 ∷ version)) hm
        ∙ ap (◌∷◌ (m ∷ method))
            (words-append [] path version hp ∙ ap (◌∷◌ path) (words_last [] version hv)))

-- The frames of a message but the last one.
abbrev pub Unfinished : Frame → Type 0
Unfinished f = (f.fin == 1) ≡ false

store_at_same : (p : ℕ) (o : Option User) (heap : ℕ → Option User) → store_at p o heap p ≡ o
unfolding store_at
store_at_same p o heap = elim (Bool-cases (p == p)) [
  | inl e ↦ rw e refl
  | inr e ↦ ground (arith, e)
]

recv_more :
    (p : ℕ) (u : User) (f : Frame) (h : Hub)
    → u.sess.is_valid ≡ true
    → Unfinished f
    → frame_recv p u f h
      ≡ record h { heap = store_at p (some (record u { msg = u.msg ++ f.payload })) h.heap }
unfolding frame_recv deliver
recv_more p u f h v n = rw (v, n) refl

recv_last :
    (p : ℕ) (u : User) (f : Frame) (h : Hub)
    → u.sess.is_valid ≡ true
    → (f.fin == 1) ≡ true
    → frame_recv p u f h ≡ record h {
      heap = store_at p (some (record u { msg = [] })) h.heap;
      out = h.out ++ message_received p (u.msg ++ f.payload) ∷ [];
    }
unfolding frame_recv deliver
recv_last p u f h v n = rw (v, n) refl

-- From `h` to `k` one message was delivered, `text` behind what the user had, and nothing else.
abbrev pub Received : ℕ → User → Str → Hub → Hub → Type 0
Received p u text h k =
    (k.out ≡ h.out ++ message_received p (u.msg ++ text) ∷ [])
    × (k.heap p ≡ some (record u { msg = [] }))

-- The frames of one message of a user with a valid session deliver once, the payloads put together
-- in their order behind what the user had, and leave the user with an empty message.
pub receive_all_lem :
    (p : ℕ) (fs : List Frame) (last : Frame) (u : User) (h : Hub)
    → h.heap p ≡ some u
    → u.sess.is_valid ≡ true
    → All Unfinished fs
    → (last.fin == 1) ≡ true
    → Received p u (payloads (fs ++ last ∷ [])) h (receive_all p (fs ++ last ∷ []) h)
receive_all_lem p [] last u h e v us l =
    subst (λ k. Received p u (last.payload ++ []) h k)
      (sym (ap (λ o. at_user p last o h) e ∙ recv_last p u last h v l))
      (
        ap (λ m. h.out ++ message_received p (u.msg ++ m) ∷ []) (sym (append-nil last.payload)),
        store_at_same p _ h.heap,
      )
receive_all_lem p (f ∷ fs) last u h e v (n, us) l =
    let r =
      receive_all_lem p fs last (record u { msg = u.msg ++ f.payload })
        (record h { heap = store_at p (some (record u { msg = u.msg ++ f.payload })) h.heap })
        (store_at_same p _ h.heap) v us l in
    subst
      (λ k.
        Received p u (f.payload ++ payloads (fs ++ last ∷ [])) h
          (receive_all p (fs ++ last ∷ []) k))
      (sym (ap (λ o. at_user p f o h) e ∙ recv_more p u f h v n))
      (r.0 ∙ ap (λ m. h.out ++ message_received p m ∷ []) (append_assoc u.msg f.payload _), r.1)
