-- ===== src/Cassandra/Manager.antt =====
-- `CaResourceManager` (store.storage.cassandra/src/ca_resource_manager.hpp): one round of its loop, from
-- the last processed key to the batch of processed rows. The user's handler, `fmt::format`, `std::sort`,
-- `groupBy` and the clock are parameters. The two tap functions get the code of a future that has it.
use store_cpp.Base.{ℕ, zero, suc, Bool, Option, none, some, List, [], ◌∷◌, ◌++◌, Str, codes}
use store_cpp.Base.Int.{ℤ, pos, ltb_ℤ}
use store_cpp.Time.{get_milliseconds_from_time_point, days_ago}
use store_cpp.Library.Grouping.{GroupBy}
use store_cpp.Library.Sorting.{Sorting}
use store_cpp.Cassandra.Driver.{M, pure, ◌>>=◌, ◌>>◌, call, step, need, Driver}
use store_cpp.Cassandra.Client.{execute_query, insert_sync_batch, get_uuid_from_timestamp}
use store_cpp.Cassandra.Statements.{Param, text, uuid, int64, get_insert_statement}
use store_cpp.Cassandra.Resource.{Resource, rows_to_type}
use store_cpp.Cassandra.Registry.{Registry, setting}

abbrev pub processed_fields : List Str
processed_fields =
    codes "environment"
    ∷ codes "store"
    ∷ codes "type"
    ∷ codes "purpose"
    ∷ codes "uid"
    ∷ codes "current"
    ∷ codes "id"
    ∷ codes "oid"
    ∷ codes "start_time"
    ∷ []

-- `lhs.start_time > rhs.start_time`
unfoldable pub newer : Resource → Resource → Bool
newer lhs rhs = ltb_ℤ rhs.start_time lhs.start_time

-- `*l.begin()`, which is undefined for an empty vector.
unfoldable pub first : {A : Type 0} → List A → Option A
first [] = none
first (x ∷ xs) = some x

unfoldable pub processed_params : Str → Resource → List Param
processed_params purpose c =
    text c.environment
    ∷ text c.store
    ∷ text c.type
    ∷ text purpose
    ∷ uuid c.uid
    ∷ text c.current
    ∷ text c.id
    ∷ text c.oid
    ∷ int64 c.start_time
    ∷ []

module _ (D : Driver) (fmt_format : Str → List Str → Str) (G : GroupBy) (S : Sorting Resource)
    -- `system_clock::now()`
    (clock : D.World → ℤ × D.World) (handler : Resource → M D.World (Option Resource))
    (address : Str) (r : Registry) where
  open D use {
    World, Statement, Future, Answer, Row, future_error_code, future_error_message,
    future_get_result, result_first_row, result_free, iterator_from_result, iterator_rows,
    iterator_free, get_uuid, base_client, print,
  }

  abbrev own : Str → Option Str
  own key = setting r (address ++ key)

  -- The loop over the groups: the handler gets the newest row of each, and gives a pointer, which is
  -- not looked at here.
  unfoldable pub process_groups : List (Str × List Resource) → M World (List (Option Resource))
  process_groups [] = pure []
  process_groups (c ∷ groups) = do
    h ← need (first (S.sort newer c.1))
    processed ← handler h
    rest ← process_groups groups
    pure (processed ∷ rest)

  -- The statement that logs a row as processed; its key is parsed from the text of `uid`.
  unfoldable pub processed_statement : Option Resource → M World Statement
  processed_statement c1 = do
    c ← need c1
    purpose ← need (own (codes ":purpose"))
    keyspace ← need (own (codes ":keyspace"))
    table_name ← need (setting r (codes "ca_resource_processed"))
    get_insert_statement D (fmt_format (codes "{}.{}") (keyspace ∷ table_name ∷ []))
        processed_fields (processed_params purpose c)

  unfoldable pub processed_statements : List (Option Resource) → M World (List Statement)
  processed_statements [] = pure []
  processed_statements (c ∷ cs) = do
    stmt ← processed_statement c
    rest ← processed_statements cs
    pure (stmt ∷ rest)

  -- The rows of a result, which is freed with its iterator.
  unfoldable pub read_rows : Future → M World (List Resource)
  read_rows future = do
    result ← call (future_get_result future)
    iterator ← call (iterator_from_result result)
    rows ← need (rows_to_type D (iterator_rows iterator))
    step (iterator_free iterator)
    step (result_free result)
    pure rows

  -- The branch of the tap function for a future without an error.
  unfoldable pub process_rows : Future → M World (Unit {0})
  process_rows future = do
    unprocessed ← read_rows future
    processed ← process_groups (G.group_by Resource (λ c. c.id) unprocessed)
    statements ← processed_statements processed
    conn ← need base_client
    insert_sync_batch D statements

  -- `rowToCaResourceModifiedTapFunc`: an error's message is read and not used.
  unfoldable pub modified_tap_code : ℕ → Future → M World (Unit {0})
  modified_tap_code zero future = process_rows future
  modified_tap_code (suc code) future = do error ← call (future_error_message future); pure tt

  unfoldable pub modified_tap : Future → M World (Unit {0})
  modified_tap future = do code ← call (future_error_code future); modified_tap_code code future

  -- The key of the row, or one made from the time two days ago.
  unfoldable pub next_uid : Option Row → M World Str
  next_uid (some row) = need (get_uuid row (codes "uid"))
  next_uid none = do
    now ← call clock
    two_days_ago ← need (days_ago now (pos 2))
    get_uuid_from_timestamp D (get_milliseconds_from_time_point two_days_ago)

  unfoldable pub modified_statement : Str → M World Str
  modified_statement uid = do
    select ← need (setting r (codes "ca_resource_modified_select"))
    keyspace ← need (own (codes ":keyspace"))
    environment ← need (own (codes ":environment"))
    store ← need (own (codes ":store"))
    data_type ← need (own (codes ":data_type"))
    pure (fmt_format select (keyspace ∷ environment ∷ store ∷ data_type ∷ uid ∷ []))

  unfoldable pub find_modified : Future → M World (Unit {0})
  find_modified future = do
    result ← call (future_get_result future)
    conn ← need base_client
    uid ← next_uid (result_first_row result)
    step (result_free result)
    query ← modified_statement uid
    rc ← execute_query D query (some modified_tap)
    pure tt

  -- `rowToCaResourceProcessedTapFunc`
  unfoldable pub processed_tap_code : ℕ → Future → M World (Unit {0})
  processed_tap_code zero future = find_modified future
  processed_tap_code (suc code) future = do
    error ← call (future_error_message future)
    step (print error)

  unfoldable pub processed_tap : Future → M World (Unit {0})
  processed_tap future = do code ← call (future_error_code future); processed_tap_code code future

  unfoldable pub processed_query : M World Str
  processed_query = do
    select ← need (setting r (codes "ca_resource_processed_select"))
    keyspace ← need (own (codes ":keyspace"))
    environment ← need (own (codes ":environment"))
    store ← need (own (codes ":store"))
    data_type ← need (own (codes ":data_type"))
    purpose ← need (own (codes ":purpose"))
    pure (fmt_format select (keyspace ∷ environment ∷ store ∷ data_type ∷ purpose ∷ []))

  -- `fetchNextTasks`, one round of `run`.
  unfoldable pub fetch_next_tasks : M World (Unit {0})
  fetch_next_tasks = do
    query ← processed_query
    conn ← need base_client
    rc ← execute_query D query (some processed_tap)
    pure tt
