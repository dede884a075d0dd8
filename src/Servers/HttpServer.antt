-- ===== src/Servers/HttpServer.antt =====
-- `HTTPServer` (store.servers/src/http-server.hpp): the listening socket, and the threads that dispatch
-- its requests. The socket calls, libevent and pthread are parameters.
pub mod Threads
use store_cpp.Base.{
  ℕ, zero, suc, ◌+◌, ◌<◌, ◌≤◌, ◌≡◌, refl, ap, ◌∙◌, arith, Bool, true, false, Option, none, some,
  Str, codes, List, [], ◌∷◌, ◌++◌, length, ◌%◌,
}
use store_cpp.Servers.Http.{EvHttp}

-- A call that returns a number is `false` or `none` where that number says that it failed. A thread
-- dispatches one base.
pub record Hosting : Type 1 where
  pub World : Type 0
  pub Fd : Type 0
  pub EventBase : Type 0
  pub Httpd : Type 0
  pub Thread : Type 0
  pub socket : World → Option Fd × World
  pub set_reuse : Fd → World → World
  pub bind_port : Fd → ℕ → World → Bool × World
  pub listen : Fd → ℕ → World → Bool × World
  pub get_flags : Fd → World → Option ℕ × World
  pub set_nonblock : Fd → ℕ → World → Bool × World
  pub event_init : World → Option EventBase × World
  pub evhttp_new : EventBase → World → Option Httpd × World
  pub accept_socket : Httpd → Fd → World → Bool × World
  pub set_gencb : Httpd → World → World
  pub set_allowed_methods : Httpd → World → World
  pub thread_create : EventBase → World → Option Thread × World
  pub thread_join : Thread → World → World

module _ (S : Hosting) where
  open S use {World, Fd, EventBase, Httpd, Thread}

  unfoldable pub after_flags : Fd → Bool × World → Option Fd × World
  after_flags nfd (false, w) = (none, w)
  after_flags nfd (true, w) = (some nfd, w)

  unfoldable pub with_flags : Fd → Option ℕ × World → Option Fd × World
  unfolding after_flags
  with_flags nfd (none, w) = (none, w)
  with_flags nfd (some flags, w) = after_flags nfd (S.set_nonblock nfd flags w)

  unfoldable pub after_listen : Fd → Bool × World → Option Fd × World
  unfolding with_flags
  after_listen nfd (false, w) = (none, w)
  after_listen nfd (true, w) = with_flags nfd (S.get_flags nfd w)

  unfoldable pub after_bind : Fd → Bool × World → Option Fd × World
  unfolding after_listen
  after_bind nfd (false, w) = (none, w)
  after_bind nfd (true, w) = after_listen nfd (S.listen nfd 10240 w)

  -- `htons(port)` has sixteen bits.
  unfoldable pub with_socket : ℕ → Option Fd × World → Option Fd × World
  unfolding after_bind
  with_socket port (none, w) = (none, w)
  with_socket port (some nfd, w) =
      after_bind nfd (S.bind_port nfd (port % 65536) (S.set_reuse nfd w))

  -- `none` is -1.
  unfoldable pub bind_socket : ℕ → World → Option Fd × World
  unfolding with_socket
  bind_socket port w = with_socket port (S.socket w)

  -- What `serv` comes to: -1, or the end of its body, which has no `return`; with the threads that it
  -- has made, the first one first.
  pub data Served : Type 0 where
    minus_one : List Thread → World → Served
    ran_out : List Thread → World → Served

  unfoldable pub join_all : List Thread → World → World
  join_all [] w = w
  join_all (t ∷ ts) w = join_all ts (S.thread_join t w)

  unfoldable pub after_create :
      List Thread → (List Thread → World → Served) → Option Thread × World → Served
  after_create ths next (none, w) = minus_one ths w
  after_create ths next (some t, w) = next (ths ++ (t ∷ [])) w

  unfoldable pub after_accept :
      EventBase → Httpd → List Thread → (List Thread → World → Served) → Bool × World → Served
  unfolding after_create
  after_accept base httpd ths next (false, w) = minus_one ths w
  after_accept base httpd ths next (true, w) =
      after_create ths next
        (S.thread_create base (S.set_allowed_methods httpd (S.set_gencb httpd w)))

  unfoldable pub after_new :
      EventBase → Fd → List Thread → (List Thread → World → Served) → Option Httpd × World → Served
  unfolding after_accept
  after_new base nfd ths next (none, w) = minus_one ths w
  after_new base nfd ths next (some httpd, w) =
      after_accept base httpd ths next (S.accept_socket httpd nfd w)

  unfoldable pub with_base :
      Fd → List Thread → (List Thread → World → Served) → Option EventBase × World → Served
  unfolding after_new
  with_base nfd ths next (none, w) = minus_one ths w
  with_base nfd ths next (some base, w) = after_new base nfd ths next (S.evhttp_new base w)

  -- The two loops, for the rounds that are left.
  unfoldable pub start_all : ℕ → Fd → List Thread → World → Served
  unfolding with_base join_all
  start_all zero nfd ths w = ran_out ths (join_all ths w)
  start_all (suc k) nfd ths w = with_base nfd ths (start_all k nfd) (S.event_init w)

  unfoldable pub with_listener : ℕ → Option Fd × World → Served
  unfolding start_all
  with_listener nthreads (none, w) = minus_one [] w
  with_listener nthreads (some nfd, w) = start_all nthreads nfd [] w

  unfoldable pub serv : ℕ → ℕ → World → Served
  unfolding with_listener bind_socket
  serv port nthreads w = with_listener nthreads (bind_socket port w)

-- `ProcessRequest` of the base class: no reply where there is no buffer. `usleep` only waits.
module _ (H : EvHttp) where
  unfoldable pub default_process_request : Bool → H.Request → H.World → H.World
  default_process_request false req w = w
  default_process_request true req w =
      H.send_reply req 200 (codes "OK") (some (codes "Requested: " ++ H.uri req ++ (10 ∷ []))) w
