-- ===== src/Pgsql/LargeObject.antt =====
-- `LargeObjectHandler` (pg_largeobject.hpp): upload and download in pieces. libpq is a parameter; its
-- large-object calls report failure by their results and throw nothing.
use store_cpp.Base.{
  ℕ, zero, suc, Bool, Option, none, some, Str, codes, [], ◌∷◌, ◌++◌, if◌then◌else◌, ◌==◌, take,
  drop, length,
}
use store_cpp.Base.Int.{ℤ, pos, ltb_ℤ}

-- `lo_write` and `lo_open` give -1 on failure, `lo_read` the bytes it read or a failure.
pub record LoLib : Type 1 where
  pub World : Type 0
  pub Pg : Type 0
  pub connect : Str → World → Pg × World
  pub finish : Pg → World → World
  pub exec : Pg → Str → World → World
  pub creat : Pg → World → ℕ × World
  pub import_file : Pg → Str → World → ℕ × World
  pub unlink : Pg → ℕ → World → World
  pub open_lo : Pg → ℕ → World → ℤ × World
  pub write : Pg → ℤ → Str → World → Bool × World
  pub read : Pg → ℤ → ℕ → World → Option Str × World
  pub seek_end : Pg → ℤ → World → World
  pub seek_start : Pg → ℤ → World → World
  pub close : Pg → ℤ → World → World
  pub log_error : Str → World → World
  -- `lo_tell64`, negative on failure
  pub tell : Pg → ℤ → World → ℤ
  -- the pool of the session, which throws a `std::exception` or not at all, and the user, password,
  -- host, port and database of a connection
  pub Conn : Type 0
  pub borrow : World → Option Conn × World
  pub unborrow : Conn → World → World
  pub user : Conn → Str
  pub password : Conn → Str
  pub host : Conn → Str
  pub port : Conn → Str
  pub database : Conn → Str

-- `regex_replace(next, regex("'"), "''")`
unfoldable pub double_quotes : Str → Str
double_quotes [] = []
double_quotes (c ∷ s) = if c == 39 then 39 ∷ 39 ∷ double_quotes s else c ∷ double_quotes s

module _ (L : LoLib) where
  open L use {World, Pg, connect, finish, exec, write, read, close, log_error}

  -- `what()` of a caught copy, which is a plain `exception`
  abbrev pub sliced : Str
  sliced = codes "std::exception"

  unfoldable pub conn_text : L.Conn → Str
  conn_text c =
      codes "postgresql://"
      ++ L.user c
      ++ codes ":"
      ++ L.password c
      ++ codes "@"
      ++ L.host c
      ++ codes ":"
      ++ L.port c
      ++ codes "/"
      ++ L.database c

  -- The text is empty where no connection could be lent.
  unfoldable pub finish_conn_info : Option L.Conn × World → Str × World
  unfolding conn_text
  finish_conn_info (none, w) = ([], log_error sliced w)
  finish_conn_info (some c, w) = (conn_text c, L.unborrow c w)

  unfoldable pub get_conn_info : World → Str × World
  unfolding finish_conn_info
  get_conn_info w = finish_conn_info (L.borrow w)

  -- `connInfo = getConnInfo(); pg_conn = PQconnectdb(connInfo.c_str());`
  unfoldable pub connect_again : World → Pg × World
  unfolding get_conn_info
  connect_again w = let (info, w1) = get_conn_info w in connect info w1

  -- One round writes at most `buf_size` bytes of the text, its quotes doubled; a failed write ends
  -- the loop.
  unfoldable pub write_loop : ℕ → ℕ → Pg → ℤ → Str → World → World
  unfolding double_quotes
  write_loop buf_size zero pg fd text w = w
  write_loop buf_size (suc fuel) pg fd [] w = w
  write_loop buf_size (suc fuel) pg fd (c ∷ s) w =
      let (written, w1) = write pg fd (double_quotes (take buf_size (c ∷ s))) w in
      let rest = write_loop buf_size fuel pg fd (drop buf_size (c ∷ s)) w1 in
      if written then rest else w1

  -- The loop of `download`: pieces are appended until nothing is read.
  unfoldable pub read_more :
      (Str → World → Option (Str × World)) → Str → Option Str → World → Option (Str × World)
  read_more again retval none w = some (retval, w)
  read_more again retval (some []) w = some (retval, w)
  read_more again retval (some (c ∷ s)) w = again (retval ++ c ∷ s) w

  unfoldable pub read_loop : ℕ → ℕ → Pg → ℤ → Str → World → Option (Str × World)
  unfolding read_more
  read_loop buf_size zero pg fd retval w = none
  read_loop buf_size (suc fuel) pg fd retval w =
      let (piece, w1) = read pg fd buf_size w in
      read_more (λ t v. read_loop buf_size fuel pg fd t v) retval piece w1

  abbrev pub piece_size : ℕ
  piece_size = 32768

  unfoldable pub upload_open : Pg → Str → ℤ → World → World
  unfolding write_loop
  upload_open pg text fd w =
      if ltb_ℤ fd (pos 0)
      then log_error sliced w
      else exec pg (codes "COMMIT") (close pg fd (write_loop piece_size (length text) pg fd text w))

  unfoldable pub upload : Str → World → ℕ × World
  unfolding upload_open connect_again
  upload text w =
      let (pg, w1) = connect_again w in
      let (oid, w2) = L.creat pg (exec pg (codes "BEGIN") w1) in
      let (fd, w3) = L.open_lo pg oid w2 in (oid, finish pg (upload_open pg text fd w3))

  unfoldable pub upload_file : Str → World → ℕ × World
  unfolding connect_again
  upload_file filename w =
      let (pg, w1) = connect_again w in
      let (oid, w2) = L.import_file pg filename (exec pg (codes "BEGIN") w1) in
      (oid, finish pg (exec pg (codes "COMMIT") w2))

  unfoldable pub delete_oid : ℕ → World → World
  unfolding connect_again
  delete_oid oid w = let (pg, w1) = connect_again w in finish pg (L.unlink pg oid w1)

  unfoldable pub finish_download : Pg → ℤ → Str × World → Str × World
  finish_download pg fd (retval, w) = (retval, finish pg (exec pg (codes "COMMIT") (close pg fd w)))

  unfoldable pub finish_read : Pg → ℤ → Option (Str × World) → Option (Str × World)
  unfolding finish_download
  finish_read pg fd none = none
  finish_read pg fd (some r) = some (finish_download pg fd r)

  -- `reserve` of a negative size throws, and the large object stays open.
  unfoldable pub read_sized : ℕ → Pg → ℤ → ℤ → World → Option (Str × World)
  unfolding read_loop finish_read
  read_sized fuel pg fd size w =
      if ltb_ℤ size (pos 0)
      then some ([], finish pg (log_error sliced w))
      else finish_read pg fd (read_loop piece_size fuel pg fd [] w)

  unfoldable pub download_open : ℕ → Pg → ℤ → World → Option (Str × World)
  unfolding read_sized
  download_open fuel pg fd w =
      if ltb_ℤ fd (pos 0)
      then some ([], finish pg (log_error sliced w))
      else (let at_end = L.seek_end pg fd w in
          read_sized fuel pg fd (L.tell pg fd at_end) (L.seek_start pg fd at_end))

  -- `none`: the bound on the rounds is too small.
  unfoldable pub download : ℕ → ℕ → World → Option (Str × World)
  unfolding download_open connect_again
  download fuel oid w =
      let (pg, w1) = connect_again w in
      let (fd, w2) = L.open_lo pg oid (exec pg (codes "BEGIN") w1) in download_open fuel pg fd w2
