-- ===== src/Servers/HttpServer/Threads.antt =====
-- The threads that `HTTPServer::serv` makes and joins (store.servers/src/http-server.hpp).
use store_cpp.Base.{
  ℕ, zero, suc, ◌+◌, ◌≤◌, ◌≡◌, refl, ◌∙◌, arith, Bool, true, false, Option, none, some, List, [],
  ◌∷◌, ◌++◌, length, length-append,
}
use store_cpp.Servers.HttpServer.{
  Hosting, Served, minus_one, ran_out, after_flags, with_flags, after_listen, after_bind,
  with_socket, bind_socket, join_all, after_create, after_accept, after_new, with_base, start_all,
  with_listener, serv,
}

-- How many threads run that are not joined: joining one waits until it has ended.
pub record ThreadLaws (S : Hosting) : Type 0 where
  pub running : S.World → ℕ
  pub created :
      (b : S.EventBase) (w w' : S.World) (t : S.Thread)
      → S.thread_create b w ≡ (some t, w')
      → running w' ≡ suc (running w)
  pub not_created :
      (b : S.EventBase) (w w' : S.World) → S.thread_create b w ≡ (none, w') → running w' ≡ running w
  pub joined :
      (t : S.Thread) (w : S.World) (n : ℕ) → running w ≡ suc n → running (S.thread_join t w) ≡ n
  pub kept_socket : (w : S.World) → running (S.socket w).1 ≡ running w
  pub kept_reuse : (f : S.Fd) (w : S.World) → running (S.set_reuse f w) ≡ running w
  pub kept_bind : (f : S.Fd) (p : ℕ) (w : S.World) → running (S.bind_port f p w).1 ≡ running w
  pub kept_listen : (f : S.Fd) (n : ℕ) (w : S.World) → running (S.listen f n w).1 ≡ running w
  pub kept_get : (f : S.Fd) (w : S.World) → running (S.get_flags f w).1 ≡ running w
  pub kept_set : (f : S.Fd) (n : ℕ) (w : S.World) → running (S.set_nonblock f n w).1 ≡ running w
  pub kept_init : (w : S.World) → running (S.event_init w).1 ≡ running w
  pub kept_new : (b : S.EventBase) (w : S.World) → running (S.evhttp_new b w).1 ≡ running w
  pub kept_accept :
      (h : S.Httpd) (f : S.Fd) (w : S.World) → running (S.accept_socket h f w).1 ≡ running w
  pub kept_gencb : (h : S.Httpd) (w : S.World) → running (S.set_gencb h w) ≡ running w
  pub kept_methods : (h : S.Httpd) (w : S.World) → running (S.set_allowed_methods h w) ≡ running w

module _ (S : Hosting) (L : ThreadLaws S) where
  open S use {World, Fd, EventBase, Httpd, Thread}
  open L use {running}

  after_flags-running : (f : Fd) (r : Bool × World) → running (after_flags S f r).1 ≡ running r.1
  unfolding after_flags
  after_flags-running f (false, w) = refl
  after_flags-running f (true, w) = refl

  with_flags-running : (f : Fd) (r : Option ℕ × World) → running (with_flags S f r).1 ≡ running r.1
  unfolding with_flags
  with_flags-running f (none, w) = refl
  with_flags-running f (some n, w) = after_flags-running f _ ∙ L.kept_set f n w

  after_listen-running : (f : Fd) (r : Bool × World) → running (after_listen S f r).1 ≡ running r.1
  unfolding after_listen
  after_listen-running f (false, w) = refl
  after_listen-running f (true, w) = with_flags-running f _ ∙ L.kept_get f w

  after_bind-running : (f : Fd) (r : Bool × World) → running (after_bind S f r).1 ≡ running r.1
  unfolding after_bind
  after_bind-running f (false, w) = refl
  after_bind-running f (true, w) = after_listen-running f _ ∙ L.kept_listen f 10240 w

  with_socket-running :
      (port : ℕ) (r : Option Fd × World) → running (with_socket S port r).1 ≡ running r.1
  unfolding with_socket
  with_socket-running port (none, w) = refl
  with_socket-running port (some f, w) =
      after_bind-running f _ ∙ L.kept_bind f _ (S.set_reuse f w) ∙ L.kept_reuse f w

  bind_socket-running : (port : ℕ) (w : World) → running (bind_socket S port w).1 ≡ running w
  unfolding bind_socket
  bind_socket-running port w = with_socket-running port (S.socket w) ∙ L.kept_socket w

  join_all-running :
      (ts : List Thread) (w : World) (n : ℕ)
      → running w ≡ n + length ts
      → running (join_all S ts w) ≡ n
  unfolding join_all
  join_all-running [] w n h = omega (arith, h)
  join_all-running (t ∷ ts) w n h =
      join_all-running ts (S.thread_join t w) n (L.joined t w (n + length ts) (omega (arith, h)))

  -- At the end of the body all threads were made and none is left; at -1 those made are left.
  abbrev pub Accounted : ℕ → ℕ → Served S → Type 0
  Accounted k n (ran_out ts w) = (length ts ≡ k) × (running w ≡ n)
  Accounted k n (minus_one ts w) = (length ts ≤ k) × (running w ≡ n + length ts)

  module _ (k n : ℕ) (ts : List Thread) (next : List Thread → World → Served S)
      (bound : length ts ≤ k)
      (rest : (t : Thread) (w : World)
        → running w ≡ n + length (ts ++ (t ∷ []))
        → Accounted k n (next (ts ++ (t ∷ [])) w)) where
    after_create-Accounted :
        (b : EventBase) (w : World) (r : Option Thread × World)
        → S.thread_create b w ≡ r
        → running w ≡ n + length ts
        → Accounted k n (after_create S ts next r)
    unfolding after_create
    after_create-Accounted b w (none, w') e h = (bound, L.not_created b w w' e ∙ h)
    after_create-Accounted b w (some t, w') e h =
        rest t w' (omega (arith, L.created b w w' t e, h, length-append ts (t ∷ [])))

    after_accept-Accounted :
        (b : EventBase) (d : Httpd) (r : Bool × World)
        → running r.1 ≡ n + length ts
        → Accounted k n (after_accept S b d ts next r)
    unfolding after_accept
    after_accept-Accounted b d (false, w) h = (bound, h)
    after_accept-Accounted b d (true, w) h =
        after_create-Accounted b _ _ refl
          (L.kept_methods d (S.set_gencb d w) ∙ L.kept_gencb d w ∙ h)

    after_new-Accounted :
        (b : EventBase) (f : Fd) (r : Option Httpd × World)
        → running r.1 ≡ n + length ts
        → Accounted k n (after_new S b f ts next r)
    unfolding after_new
    after_new-Accounted b f (none, w) h = (bound, h)
    after_new-Accounted b f (some d, w) h = after_accept-Accounted b d _ (L.kept_accept d f w ∙ h)

    with_base-Accounted :
        (f : Fd) (r : Option EventBase × World)
        → running r.1 ≡ n + length ts
        → Accounted k n (with_base S f ts next r)
    unfolding with_base
    with_base-Accounted f (none, w) h = (bound, h)
    with_base-Accounted f (some b, w) h = after_new-Accounted b f _ (L.kept_new b w ∙ h)

  start_all-Accounted :
      (left k n : ℕ) (f : Fd) (ts : List Thread) (w : World)
      → length ts + left ≡ k
      → running w ≡ n + length ts
      → Accounted k n (start_all S left f ts w)
  unfolding start_all
  start_all-Accounted zero k n f ts w e h = (omega (arith, e), join_all-running ts w n h)
  start_all-Accounted (suc left) k n f ts w e h =
      with_base-Accounted k n ts (start_all S left f) (omega (arith, e))
        (λ t w'.
          start_all-Accounted left k n f (ts ++ (t ∷ [])) w'
            (omega (arith, e, length-append ts (t ∷ []))))
        f (S.event_init w) (L.kept_init w ∙ h)

  with_listener-Accounted :
      (k n : ℕ) (r : Option Fd × World) → running r.1 ≡ n → Accounted k n (with_listener S k r)
  unfolding with_listener
  with_listener-Accounted k n (none, w) h = (omega arith, omega (arith, h))
  with_listener-Accounted k n (some f, w) h =
      start_all-Accounted k k n f [] w (omega arith) (omega (arith, h))

  -- Where the body of `serv` ends, as many threads as asked for were made and all of them have ended;
  -- where it returns -1, the threads that were made before, at most that many, run on unjoined.
  pub serv-Accounted :
      (port nthreads : ℕ) (w : World) → Accounted nthreads (running w) (serv S port nthreads w)
  unfolding serv
  serv-Accounted port nthreads w =
      with_listener-Accounted nthreads (running w) _ (bind_socket-running port w)
