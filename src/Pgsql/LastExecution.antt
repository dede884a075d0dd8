-- ===== src/Pgsql/LastExecution.antt =====
-- `PgEventStore::LastExecution` (pg_eventstore.hpp). `generate_uuid_v3` and the reading of the first
-- row are parameters.
use store_cpp.Base.{
  ℕ, ◌≡◌, refl, [], ◌∷◌, Option, none, some, Str, codes, text_lines, ◌∙◌, if◌then◌else◌, Bool-cases,
  inl, inr,
}
use store_cpp.Base.Int.{ℤ, pos, negsuc, ltb_ℤ}
use store_cpp.Extensions.Format.{c_str, string_format, int}
use store_cpp.Library.Database.{
  Database, DatabaseLaws, Result, ok, err, attempt, give_back, held, attempt-lent, give_back-lent,
}
use store_cpp.Pgsql.Errors.{PgError, connection_error, execution_error, standard, foreign, what}
use store_cpp.Pgsql.Session.{Returned}
use store_cpp.Pgsql.Statements.{text}

unfoldable pub create_table_format : Str
create_table_format = text_lines (
    "" ∷ "          create table if not exists \"%s\".\"mt_last_execution\" ("
    ∷ "            stream uuid not null REFERENCES %s.mt_streams ON DELETE CASCADE,"
    ∷ "            subscriber varchar(250) not null," ∷ "            seq_id bigint,"
    ∷ "            primary key(stream, subscriber)" ∷ "          );                " ∷ "        "
    ∷ [])

unfoldable pub insert_default_format : Str
insert_default_format = text_lines (
    ""
    ∷ "            insert into \"%s\".\"mt_last_execution\" (stream, subscriber, seq_id) values ('%s', '%s', -1) on conflict do nothing;"
    ∷ "          " ∷ [])

unfoldable pub set_next_format : Str
set_next_format = text_lines (
    ""
    ∷ "            update \"%s\".\"mt_last_execution\" set seq_id = %lld where stream = '%s' and subscriber = '%s';"
    ∷ "          " ∷ [])

-- The four statements; none of them is undefined, since the arguments fit the directives.
pub record Statements : Type 0 where
  pub create : Option Str
  pub read : Option Str
  pub insert_default : Option Str
  pub set_next : Option Str

unfoldable pub statements : Str → Str → Str → ℤ → Statements
statements db_schema stream subscriber new_seq_id = record {
  create = string_format create_table_format (text db_schema ∷ text db_schema ∷ []);
  read =
      string_format
        (codes "select seq_id from %s.mt_last_execution where stream = '%s' and subscriber = '%s'")
        (text db_schema ∷ text stream ∷ text subscriber ∷ []);
  insert_default =
      string_format insert_default_format (text db_schema ∷ text stream ∷ text subscriber ∷ []);
  set_next =
      string_format set_next_format
        (text db_schema ∷ int new_seq_id ∷ text stream ∷ text subscriber ∷ []);
}

-- What the `try` block comes to: `seqId` as far as it was set, and the exception that ended it.
pub record Progress : Type 0 where
  pub seq_id : ℤ
  pub thrown : Option PgError

-- The first row of a reply.
pub data FirstRow : Type 0 where
  no_row : FirstRow
  row : ℤ → FirstRow
  bad_row : PgError → FirstRow

module _ {Reply : Type 0} (D : Database PgError Reply) (first_row : Reply → FirstRow) where
  open D use {World, Conn, execute, log_error}

  unfoldable pub ran :
      ℤ → Result PgError Reply × World → (Reply → World → Progress × World) → Progress × World
  ran seq (ok r, v) f = f r v
  ran seq (err x, v) f = (record { seq_id = seq; thrown = some x }, v)

  -- Run a statement, and go on unless it throws.
  unfoldable pub run :
      ℤ → Conn → Option Str → (Reply → World → Progress × World) → World → Progress × World
  unfolding ran
  run seq c none f w = (record { seq_id = seq; thrown = none }, w)
  run seq c (some s) f w = ran seq (execute c (c_str s) w) f

  -- `if (newSeqId > -1)`: the given number is stored and returned.
  unfoldable pub set_next_step : Statements → ℤ → Conn → ℤ → World → Progress × World
  unfolding run
  set_next_step s new_seq_id c seq w =
      if ltb_ℤ (negsuc 0) new_seq_id
      then run seq c s.set_next (λ r v. (record { seq_id = new_seq_id; thrown = none }, v)) w
      else (record { seq_id = seq; thrown = none }, w)

  unfoldable pub read_step : Statements → ℤ → Conn → FirstRow → World → Progress × World
  unfolding run
  read_step s new_seq_id c (row n) w = set_next_step s new_seq_id c n w
  read_step s new_seq_id c (bad_row x) w = (record { seq_id = pos 0; thrown = some x }, w)
  read_step s new_seq_id c no_row w =
      run (pos 0) c s.insert_default (λ r v. set_next_step s new_seq_id c (pos 0) v) w

  unfoldable pub body : Statements → ℤ → Conn → World → Progress × World
  unfolding run
  body s new_seq_id c w =
      run (pos 0) c s.create
        (λ r v. run (pos 0) c s.read (λ reply u. read_step s new_seq_id c (first_row reply) u) v) w

  unfoldable pub guarded : Progress × World → Result PgError Progress × World
  guarded (p, w) = (ok p, w)

  unfoldable pub ended : Option Conn → ℤ → Option PgError → World → Result PgError ℤ × World
  ended conn seq none w = (ok seq, give_back D conn w)
  ended conn seq (some foreign) w = (err foreign, w)
  ended conn seq (some x) w = (ok seq, give_back D conn (log_error (what x) w))

  unfoldable pub finish : Option Conn → Result PgError Progress → World → Result PgError ℤ × World
  unfolding ended
  finish conn (ok p) w = ended conn p.seq_id p.thrown w
  finish conn (err foreign) w = (err foreign, w)
  finish conn (err x) w = (ok (pos 0), give_back D conn (log_error (what x) w))

  unfoldable pub last_execution : Str → Str → Str → ℤ → World → Result PgError ℤ × World
  unfolding finish guarded body
  last_execution db_schema stream subscriber new_seq_id w =
      let s = statements db_schema stream subscriber new_seq_id in
      let t = attempt D (λ c v. guarded (body s new_seq_id c v)) w in finish t.conn t.result t.after

module _ {Reply : Type 0} (D : Database PgError Reply) (laws : DatabaseLaws D)
    (first_row : Reply → FirstRow) where
  open D use {World, Conn, execute, log_error}
  open laws use {lent, lent-execute, lent-log_error}

  run-lent :
      (seq : ℤ) (c : Conn) (s : Option Str) (f : Reply → World → Progress × World) (w : World)
      → ((r : Reply) (v : World) → lent (f r v).1 ≡ lent v)
      → lent (run D first_row seq c s f w).1 ≡ lent w
  unfolding run
  run-lent seq c none f w k = refl
  run-lent seq c (some s) f w k = go (execute c (c_str s) w) (lent-execute c (c_str s) w)
    where
      go :
          (x : Result PgError Reply × World)
          → lent x.1 ≡ lent w
          → lent (ran D first_row seq x f).1 ≡ lent w
      go (ok r, v) h = k r v ∙ h
      go (err x, v) h = h

  set_next_step-lent :
      (s : Statements) (new_seq_id : ℤ) (c : Conn) (seq : ℤ) (w : World)
      → lent (set_next_step D first_row s new_seq_id c seq w).1 ≡ lent w
  unfolding set_next_step
  set_next_step-lent s new_seq_id c seq w = elim (Bool-cases (ltb_ℤ (negsuc 0) new_seq_id)) [
    | inl e ↦ rw e (run-lent seq c s.set_next _ w (λ r v. refl))
    | inr e ↦ rw e
  ]

  read_step-lent :
      (s : Statements) (new_seq_id : ℤ) (c : Conn) (r : FirstRow) (w : World)
      → lent (read_step D first_row s new_seq_id c r w).1 ≡ lent w
  unfolding read_step
  read_step-lent s new_seq_id c (row n) w = set_next_step-lent s new_seq_id c n w
  read_step-lent s new_seq_id c (bad_row x) w = refl
  read_step-lent s new_seq_id c no_row w =
      run-lent (pos 0) c s.insert_default _ w (λ r v. set_next_step-lent s new_seq_id c (pos 0) v)

  body-lent :
      (s : Statements) (new_seq_id : ℤ) (c : Conn) (w : World)
      → lent (guarded D first_row (body D first_row s new_seq_id c w)).1 ≡ lent w
  unfolding body guarded
  body-lent s new_seq_id c w = run-lent (pos 0) c s.create _ w (λ r v.
      run-lent (pos 0) c s.read _ v (λ reply u. read_step-lent s new_seq_id c (first_row reply) u))

  ended-lent :
      (conn : Option Conn) (seq : ℤ) (x : Option PgError) (w : World) (n : ℕ)
      → lent w ≡ held D laws conn n
      → Returned (ended D first_row conn seq x w).0
      → lent (ended D first_row conn seq x w).1 ≡ n
  unfolding ended
  ended-lent conn seq none w n h ret = give_back-lent D laws conn w n h
  ended-lent conn seq (some foreign) w n h ret = absurd ret
  ended-lent conn seq (some (connection_error m)) w n h ret =
      give_back-lent D laws conn (log_error _ w) n (lent-log_error _ w ∙ h)
  ended-lent conn seq (some (execution_error m)) w n h ret =
      give_back-lent D laws conn (log_error _ w) n (lent-log_error _ w ∙ h)
  ended-lent conn seq (some standard) w n h ret =
      give_back-lent D laws conn (log_error _ w) n (lent-log_error _ w ∙ h)

  finish-lent :
      (conn : Option Conn) (r : Result PgError Progress) (w : World) (n : ℕ)
      → lent w ≡ held D laws conn n
      → Returned (finish D first_row conn r w).0
      → lent (finish D first_row conn r w).1 ≡ n
  unfolding finish
  finish-lent conn (ok p) w n h ret = ended-lent conn p.seq_id p.thrown w n h ret
  finish-lent conn (err foreign) w n h ret = absurd ret
  finish-lent conn (err (connection_error m)) w n h ret =
      give_back-lent D laws conn (log_error _ w) n (lent-log_error _ w ∙ h)
  finish-lent conn (err (execution_error m)) w n h ret =
      give_back-lent D laws conn (log_error _ w) n (lent-log_error _ w ∙ h)
  finish-lent conn (err standard) w n h ret =
      give_back-lent D laws conn (log_error _ w) n (lent-log_error _ w ∙ h)

  -- Whenever `LastExecution` returns, whichever of its four statements failed, it has given back the
  -- connection.
  pub last_execution-lent :
      (db_schema stream subscriber : Str) (new_seq_id : ℤ) (w : World)
      → Returned (last_execution D first_row db_schema stream subscriber new_seq_id w).0
      → lent (last_execution D first_row db_schema stream subscriber new_seq_id w).1 ≡ lent w
  unfolding last_execution
  last_execution-lent db_schema stream subscriber new_seq_id w ret =
      let s = statements db_schema stream subscriber new_seq_id in
      let t = attempt D (λ c v. guarded D first_row (body D first_row s new_seq_id c v)) w in
      finish-lent t.conn t.result t.after (lent w)
        (attempt-lent D laws _ w (body-lent s new_seq_id)) ret
