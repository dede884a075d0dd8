-- ===== src/Notifier/Client.antt =====
-- `MsSqlDbLibBaseClient::quick` (store.storage.sqlserver/src/mssql_dblib_base_client.hpp), and the
-- operations of `Notifier` that run a statement (mssql_notifier.hpp). The dblib library and the pool
-- are parameters. `active911::ConnectionUnavailable` and every `std::exception` are caught.
use store_cpp.Base.{zero, Bool, true, false, List, [], ◌∷◌, Option, Str}
use store_cpp.Base.Int.{ℤ, pos}
use store_cpp.Library.Database.{Database, Result, ok, err, attempt, give_back}
use store_cpp.Extensions.Format.{Arg}
use store_cpp.Notifier.Scripts.{
  Notifier, CompiledScript, install_listener_script, uninstall_listener_script,
  get_dependency_identities, forced_database_cleaning, monitor_conversations,
  create_installation_procedure, create_uninstallation_procedure, compiled_script,
}

pub data DbLibError : Type 0 where
  unavailable : Str → DbLibError
  standard : Str → DbLibError
  foreign : DbLibError

-- What `sql` and then `execute` leave in the library's connection.
pub record Outcome : Type 0 where
  pub rc : ℤ
  pub field_names : List Str
  pub field_values : List (List Str)

-- How a method ends: it returns (0 stands for the end of a `void` one), an exception leaves it, or it
-- flows off its end although its type is `int`: all that follows is undefined, so the model stops.
pub data Ended : Type 0 where
  returned : ℤ → Ended
  flowed_off : Ended
  escaped : Ended

abbrev pub has_escaped : Ended → Bool
has_escaped escaped = true
has_escaped (returned rc) = false
has_escaped flowed_off = false

-- `if (rc)`
unfoldable pub end_of : ℤ → Ended
end_of (pos zero) = flowed_off
end_of rc = returned rc

-- What `quick` leaves in the vectors that it was given.
pub record Fields : Type 0 where
  pub names : List Str
  pub values : List (List Str)

unfoldable pub no_fields : Fields
no_fields = record { names = []; values = [] }

unfoldable pub fill_fields : ℤ → Fields → Outcome → Fields
fill_fields (pos zero) f o = record { names = o.field_names; values = o.field_values }
fill_fields rc f o = f

-- `checkServiceExists`: whether a row was found.
abbrev pub has_rows : List (List Str) → Bool
has_rows [] = false
has_rows (r ∷ rs) = true

module _ (D : Database DbLibError Outcome) where
  open D use {World, Conn, execute, log_error}

  -- The end of the `try` block and of the method. Both ways out of the block give back the
  -- connection; a foreign exception does not.
  unfoldable pub finish_non_query : Option Conn → Result DbLibError Outcome → World → Ended × World
  unfolding end_of
  finish_non_query conn (ok o) w = (end_of o.rc, give_back D conn w)
  finish_non_query conn (err (unavailable m)) w = (flowed_off, give_back D conn (log_error m w))
  finish_non_query conn (err (standard m)) w = (flowed_off, give_back D conn (log_error m w))
  finish_non_query conn (err foreign) w = (escaped, w)

  unfoldable pub execute_non_query : Str → World → Ended × World
  unfolding finish_non_query
  execute_non_query sql w =
      let t = attempt D (λ c. execute c sql) w in finish_non_query t.conn t.result t.after

  -- What `quick` leaves in the caller's vectors, beside what it returns.
  unfoldable pub quick_fields : Fields → Result DbLibError Outcome → Fields
  unfolding fill_fields
  quick_fields f (ok o) = fill_fields o.rc f o
  quick_fields f (err e) = f

  unfoldable pub quick : Str → Fields → World → (Ended × Fields) × World
  unfolding finish_non_query quick_fields
  quick sql f w =
      let t = attempt D (λ c. execute c sql) w in
      let (e, w') = finish_non_query t.conn t.result t.after in ((e, quick_fields f t.result), w')

  -- The statement after one that has returned.
  abbrev pub and_then : Ended × World → (World → Ended × World) → Ended × World
  and_then (escaped, w) next = (escaped, w)
  and_then (returned rc, w) next = next w
  and_then (flowed_off, w) next = (flowed_off, w)

  module _ (fmt_format : Str → List Arg → Str) (n : Notifier) where
    abbrev run : CompiledScript → World → Ended × World
    run s = execute_non_query (compiled_script fmt_format n s)

    abbrev ask : CompiledScript → World → (Ended × Fields) × World
    ask s = quick (compiled_script fmt_format n s) no_fields

    unfoldable pub uninstall : World → Ended × World
    unfolding execute_non_query
    uninstall = run uninstall_listener_script

    unfoldable pub clean_database : World → Ended × World
    unfolding execute_non_query
    clean_database = run forced_database_cleaning

    unfoldable pub get_dependency_db_identities : World → (Ended × Fields) × World
    unfolding quick
    get_dependency_db_identities = ask get_dependency_identities

    unfoldable pub monitor : World → (Ended × Fields) × World
    unfolding quick
    monitor = ask monitor_conversations

    unfoldable pub install_notification : World → Ended × World
    unfolding execute_non_query
    install_notification w =
        and_then (run create_installation_procedure w) λ w1.
          and_then (run create_uninstallation_procedure w1) λ w2. run install_listener_script w2

    unfoldable pub install_unless : Bool → World → Ended × World
    unfolding install_notification
    install_unless true w = (returned (pos 0), w)
    install_unless false w = install_notification w

    -- `start`, up to the thread that it makes.
    unfoldable pub start_checked : (Ended × Fields) × World → Ended × World
    unfolding install_unless
    start_checked ((escaped, f), w) = (escaped, w)
    start_checked ((flowed_off, f), w) = (flowed_off, w)
    start_checked ((returned rc, f), w) = install_unless (has_rows f.values) w

    unfoldable pub start : World → Ended × World
    unfolding start_checked get_dependency_db_identities
    start w = start_checked (get_dependency_db_identities w)
