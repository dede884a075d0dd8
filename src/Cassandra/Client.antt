-- ===== src/Cassandra/Client.antt =====
-- `CassandraBaseClient` (store.storage.cassandra/src/cassandra_base_client.hpp): queries, inserts and
-- the answer to the authentication challenge. A callback is named by a number.
use store_cpp.Base.{ℕ, zero, suc, Option, none, some, List, [], ◌∷◌, ◌++◌, Str, codes, decimal}
use store_cpp.Extensions.Format.{c_str}
use store_cpp.Base.Int.{ℤ}
use store_cpp.Cassandra.Driver.{M, pure, ◌>>=◌, ◌>>◌, call, step, stuck, Driver}

-- `on_auth_initial`: the buffer has room for both texts, each behind a NUL byte.
unfoldable pub auth_response : Str → Str → Str
auth_response username password = (0 ∷ c_str username) ++ (0 ∷ c_str password)

module _ (D : Driver) where
  open D use {
    World, Statement, Future, statement_new, statement_free, session_execute, future_wait,
    future_error_code, future_error_message, future_set_callback, future_free, future_get_result,
    result_row_count, result_free, batch_new, batch_add_statement, batch_free,
    session_execute_batch, print, uuid_gen_from_time,
  }

  -- It ends in `throw;` with no exception to throw again.
  unfoldable pub print_error : Future → M World (Unit {0})
  print_error f = do
    message ← call (future_error_message f)
    step (print (codes "Error: " ++ (message ++ (10 ∷ []))))
    stuck

  -- `if (rc != CASS_OK) print_error(future)`
  unfoldable pub report_error : Future → ℕ → M World (Unit {0})
  unfolding print_error
  report_error f zero = pure tt
  report_error f (suc rc) = print_error f

  -- `if (rc == CASS_OK && tapFunc)`
  unfoldable pub tap_if : ℕ → Option (Future → M World (Unit {0})) → Future → M World (Unit {0})
  tap_if zero (some tap) f = tap f
  tap_if zero none f = pure tt
  tap_if (suc rc) tap f = pure tt

  -- Both overloads; the second one always has a function.
  unfoldable pub execute_query : Str → Option (Future → M World (Unit {0})) → M World ℕ
  unfolding report_error tap_if
  execute_query query tap = do
    statement ← call (statement_new query 0)
    future ← call (session_execute statement)
    step (future_wait future)
    rc ← call (future_error_code future)
    report_error future rc
    tap_if rc tap future
    step (future_free future)
    step (statement_free statement)
    pure rc

  unfoldable pub execute_query_async : Str → ℕ → M World (Unit {0})
  execute_query_async query callback = do
    statement ← call (statement_new query 0)
    future ← call (session_execute statement)
    step (future_set_callback future callback)
    step (future_free future)
    step (statement_free statement)

  -- `insertSync` prints how many rows the result has.
  unfoldable pub print_count : Future → ℕ → M World (Unit {0})
  unfolding print_error
  print_count f (suc rc) = print_error f
  print_count f zero = do
    result ← call (future_get_result f)
    step (print (codes "Insert count: " ++ (decimal (result_row_count result) ++ (10 ∷ []))))
    step (result_free result)

  unfoldable pub insert_sync : Statement → M World (Unit {0})
  unfolding print_count
  insert_sync statement = do
    f ← call (session_execute statement)
    step (future_wait f)
    rc ← call (future_error_code f)
    print_count f rc
    step (future_free f)
    step (statement_free statement)

  -- Each statement is freed once the batch has it.
  unfoldable pub add_statements : D.Batch → List Statement → M World (Unit {0})
  add_statements batch [] = pure tt
  add_statements batch (s ∷ ss) = do
    step (batch_add_statement batch s)
    step (statement_free s)
    add_statements batch ss

  unfoldable pub insert_sync_batch : List Statement → M World (Unit {0})
  unfolding add_statements report_error
  insert_sync_batch statements = do
    batch ← call batch_new
    add_statements batch statements
    future ← call (session_execute_batch batch)
    step (batch_free batch)
    rc ← call (future_error_code future)
    report_error future rc
    step (future_free future)

  -- `on_insert`, the callback of `insertAsync`.
  unfoldable pub on_insert : Future → M World (Unit {0})
  unfolding report_error
  on_insert future = do code ← call (future_error_code future); report_error future code

  unfoldable pub insert_async : Statement → ℕ → M World (Unit {0})
  insert_async statement callback = do
    future ← call (session_execute statement)
    step (future_set_callback future callback)
    step (future_free future)
    step (statement_free statement)

  unfoldable pub insert_async_batch : List Statement → ℕ → M World (Unit {0})
  unfolding add_statements
  insert_async_batch statements callback = do
    batch ← call batch_new
    add_statements batch statements
    future ← call (session_execute_batch batch)
    step (batch_free batch)
    step (future_set_callback future callback)
    step (future_free future)

  unfoldable pub get_uuid_from_timestamp : ℤ → M World Str
  get_uuid_from_timestamp timestamp = call (uuid_gen_from_time timestamp)
