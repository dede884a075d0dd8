-- ===== src/Tests/Hosting.antt =====
-- The theorems on assets and on the threads of the HTTP server, where every call succeeds.
use store_cpp.Base.{ℕ, suc, pred, refl, sym, ap, true, none, some, []}
use store_cpp.Servers.Http.{EvHttp, EvHttpLaws, Command}
use store_cpp.Servers.Assets.{Assets, AssetLaws}
use store_cpp.Servers.HttpServer.{Hosting, serv}
use store_cpp.Servers.HttpServer.Threads.{ThreadLaws, Accounted, serv-Accounted}

-- How many replies were sent, and how many things are owned.
abbrev owning_http : EvHttp
owning_http = record {
  World = ℕ × ℕ;
  Request = Command;
  command = λ q. q;
  uri = λ q. [];
  find_header = λ q k. none;
  parse_query = λ u. [];
  add_header = λ q k v w. w;
  send_reply = λ q n r b w. (suc (w.0), w.1);
  send_error = λ q n r w. (suc (w.0), w.1);
}

abbrev owning_http_laws : EvHttpLaws owning_http
owning_http_laws = record {
  sent = λ w. w.0;
  sent-add_header = λ q k v w. refl;
  sent-send_reply = λ q n r b w. refl;
  sent-send_error = λ q n r w. refl;
}

abbrev one_file : Assets owning_http
one_file = record {
  Fd = Unit {0};
  Buffer = Unit {0};
  input = λ q w. [];
  open_file = λ p w. (some tt, (w.0, suc (w.1)));
  file_size = λ fd w. (some 9, w);
  close_file = λ fd w. (w.0, pred (w.1));
  evbuffer_new = λ w. (tt, (w.0, suc (w.1)));
  add_file = λ b fd n w. (w.0, pred (w.1));
  send_buffer = λ q n r b w. (suc (w.0), w.1);
  evbuffer_free = λ b w. (w.0, pred (w.1));
}

abbrev one_file_laws : AssetLaws owning_http one_file owning_http_laws
one_file_laws = record {
  owned = λ w. w.1;
  owned-add_header = λ q k v w. refl;
  owned-send_error = λ q n r w. refl;
  opened = λ p w w' fd e. (ap (λ t. t.1.1) (sym e), ap (λ t. t.1.0) (sym e));
  not_opened = λ p w w' e. cc;
  sized = λ fd w. (refl, refl);
  closed = λ fd w n e. (ap pred e, refl);
  made = λ w. (refl, refl);
  added = λ b fd n w k e. (ap pred e, refl);
  replied = λ q n r b w. (refl, refl);
  freed = λ b w n e. (ap pred e, refl);
}

-- The world is how many threads run.
abbrev willing : Hosting
willing = record {
  World = ℕ;
  Fd = Unit {0};
  EventBase = Unit {0};
  Httpd = Unit {0};
  Thread = ℕ;
  socket = λ w. (some tt, w);
  set_reuse = λ f w. w;
  bind_port = λ f p w. (true, w);
  listen = λ f n w. (true, w);
  get_flags = λ f w. (some 0, w);
  set_nonblock = λ f n w. (true, w);
  event_init = λ w. (some tt, w);
  evhttp_new = λ b w. (some tt, w);
  accept_socket = λ h f w. (true, w);
  set_gencb = λ h w. w;
  set_allowed_methods = λ h w. w;
  thread_create = λ b w. (some w, suc w);
  thread_join = λ t w. pred w;
}

abbrev willing_laws : ThreadLaws willing
willing_laws = record {
  running = λ w. w;
  created = λ b w w' t e. ap (λ r. r.1) (sym e);
  not_created = λ b w w' e. cc;
  joined = λ t w n e. ap pred e;
  kept_socket = λ w. refl;
  kept_reuse = λ f w. refl;
  kept_bind = λ f p w. refl;
  kept_listen = λ f n w. refl;
  kept_get = λ f w. refl;
  kept_set = λ f n w. refl;
  kept_init = λ w. refl;
  kept_new = λ b w. refl;
  kept_accept = λ h f w. refl;
  kept_gencb = λ h w. refl;
  kept_methods = λ h w. refl;
}

serv-Accounted_example : Accounted willing willing_laws 3 1 (serv willing 8080 3 1)
serv-Accounted_example = serv-Accounted willing willing_laws 8080 3 1
