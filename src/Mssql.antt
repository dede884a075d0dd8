-- ===== src/Mssql.antt =====
-- `MsSqlBaseClient` (store.storage.sqlserver/src/mssql_base_client.hpp): one statement on a borrowed
-- connection. The TDS library and the pool are parameters.
pub mod Laws
use store_cpp.Base.{ℕ, ◌≡◌, List, [], ◌∷◌, ◌++◌, Option, none, some, Str, codes, length, ◌-◌}
use store_cpp.Insert.{Value, write_fields, write_values}
use store_cpp.Library.Database.{Database, Result, ok, err, Attempt, attempt, give_back}

-- `TDSPP::Exception` with its message, and any other exception, which no `catch` clause takes.
pub data TdsError : Type 0 where
  tds_exception : Str → TdsError
  other : TdsError

-- The pair that a method returns.
pub record Report : Type 0 where
  pub success : ℕ
  pub message : Str

module _ {Reply : Type 0} (D : Database TdsError Reply)
    -- `pool->unborrow(nullptr)`
    (unborrow_null : D.World → D.World) where
  open D use {World, Conn, execute, log_error, borrow, unborrow}

  -- The `catch` clause gives the pointer back without a test for null.
  unfoldable pub unborrow_any : Option Conn → World → World
  unborrow_any none w = unborrow_null w
  unborrow_any (some c) w = unborrow c w

  unfoldable pub finish_execute :
      Option Conn → Result TdsError Reply → World → Result TdsError Report × World
  unfolding unborrow_any
  finish_execute conn (ok r) w =
      (ok (record { success = 1; message = codes "Succeeded" }), give_back D conn w)
  finish_execute conn (err (tds_exception m)) w =
      (ok (record { success = 0; message = m }), unborrow_any conn (log_error m w))
  finish_execute conn (err other) w = (err other, w)

  -- `execute(sqlStmt)`
  unfoldable pub execute_statement : Str → World → Result TdsError Report × World
  unfolding finish_execute
  execute_statement sql w =
      let t = attempt D (λ c. execute c sql) w in finish_execute t.conn t.result t.after

  unfoldable pub surround_insert : Str → Str → Option Str → Option Str → Option Str
  surround_insert schema table_name none v = none
  surround_insert schema table_name (some f) none = none
  surround_insert schema table_name (some f) (some v) = some (
      codes "insert into "
      ++ schema
      ++ codes "."
      ++ table_name
      ++ codes " ("
      ++ f
      ++ codes ") values "
      ++ (10 ∷ codes "(")
      ++ v
      ++ codes ");")

  -- The stream of `insertOne`; it is undefined without a field, or with fewer values than fields.
  unfoldable pub insert_text : Str → Str → List Str → List Value → Option Str
  unfolding surround_insert
  insert_text schema table_name fields values =
      surround_insert schema table_name (write_fields fields)
        (write_values values (length fields - 1) 0)

  unfoldable pub execute_text : Option Str → World → Option (Result TdsError Report × World)
  unfolding execute_statement
  execute_text none w = none
  execute_text (some sql) w = some (execute_statement sql w)

  unfoldable pub insert_one :
      Str → Str → List Str → List Value → World → Option (Result TdsError Report × World)
  unfolding insert_text execute_text
  insert_one schema table_name fields values w =
      execute_text (insert_text schema table_name fields values) w

  -- What a run of `runQuery` comes to.
  pub data QueryRun : Type 0 where
    no_result : World → QueryRun
    query_threw : World → QueryRun
    null_read : World → QueryRun

  -- `runQuery`: the connection that `borrow` returns is not kept, and `conn` is still null where it
  -- is read.
  unfoldable pub after_borrow : Result TdsError Conn × World → QueryRun
  after_borrow (ok c, w) = null_read w
  after_borrow (err (tds_exception m), w) = no_result (log_error m w)
  after_borrow (err other, w) = query_threw w

  unfoldable pub run_query : Str → World → QueryRun
  unfolding after_borrow
  run_query sql w = after_borrow (borrow w)
