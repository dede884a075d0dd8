-- ===== src/Tests/Counting.antt =====
-- Worlds that count: a database with the number of lent connections, where every statement has the
-- same result, a web server with the number of replies, and one large object with its cursor.
use store_cpp.Base.{
  ℕ, suc, pred, refl, ap, true, Option, none, some, Str, codes, seq, [], ◌++◌, take, drop,
  if◌then◌else◌,
}
use store_cpp.Base.Int.{pos}
use store_cpp.Library.Database.{Database, DatabaseLaws, Result, ok}
use store_cpp.Pgsql.Errors.{PgError}
use store_cpp.Pgsql.LargeObject.{LoLib}
use store_cpp.Pgsql.LargeObjectLaws.{LoLaws}
use store_cpp.Servers.Http.{EvHttp, EvHttpLaws, Command}

module _ (result : Result PgError ℕ) where
  abbrev pub counting : Database PgError ℕ
  counting = record {
    World = ℕ;
    Conn = ℕ;
    borrow = λ w. (ok 0, suc w);
    unborrow = λ c w. pred w;
    execute = λ c s w. (result, w);
    log_error = λ s w. w;
  }

  abbrev pub counting_laws : DatabaseLaws counting
  counting_laws = record {
    lent = λ w. w;
    lent-borrow = λ w. refl;
    lent-unborrow = λ c w n e. ap pred e;
    lent-execute = λ c s w. refl;
    lent-log_error = λ s w. refl;
  }

-- A request is its method and its token.
abbrev pub counting_http : EvHttp
counting_http = record {
  World = ℕ;
  Request = Command × Option Str;
  command = λ q. q.0;
  uri = λ q. codes "/a";
  find_header = λ q k. if seq k (codes "x-access-token") then q.1 else none;
  parse_query = λ u. [];
  add_header = λ q k v w. w;
  send_reply = λ q n r b w. suc w;
  send_error = λ q n r w. suc w;
}

abbrev pub counting_http_laws : EvHttpLaws counting_http
counting_http_laws = record {
  sent = λ w. w;
  sent-add_header = λ q k v w. refl;
  sent-send_reply = λ q n r b w. refl;
  sent-send_error = λ q n r w. refl;
}

-- The bytes before and behind the cursor; a write puts its bytes before the cursor.
abbrev pub one_object : LoLib
one_object = record {
  World = Str × Str;
  Pg = ℕ;
  connect = λ s w. (0, w);
  finish = λ p w. w;
  exec = λ p s w. w;
  creat = λ p w. (1, w);
  import_file = λ p s w. (1, w);
  unlink = λ p o w. w;
  open_lo = λ p o w. (pos 0, w);
  write = λ p fd s w. (true, (w.0 ++ s, w.1));
  read = λ p fd n w. (some (take n w.1), (w.0 ++ take n w.1, drop n w.1));
  seek_end = λ p fd w. (w.0 ++ w.1, []);
  seek_start = λ p fd w. ([], w.0 ++ w.1);
  close = λ p fd w. w;
  log_error = λ s w. w;
  tell = λ p fd w. pos 0;
  Conn = ℕ;
  borrow = λ w. (some 0, w);
  unborrow = λ c w. w;
  user = λ c. [];
  password = λ c. [];
  host = λ c. [];
  port = λ c. [];
  database = λ c. [];
}

abbrev pub one_object_laws : LoLaws one_object
one_object_laws = record {
  before = λ fd w. w.0;
  behind = λ fd w. w.1;
  written = λ p fd s w e t. (refl, e);
  read-piece = λ p fd n w h. refl;
  read-behind = λ p fd n w h. refl;
  seek_start-behind = λ p fd w. refl;
  seek_end-before = λ p fd w. refl;
  seek_end-behind = λ p fd w. refl;
}
