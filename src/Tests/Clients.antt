-- ===== src/Tests/Clients.antt =====
-- The theorems on the PostgreSQL client at counting databases.
use store_cpp.Base.{
  ℕ, ◌≡◌, refl, true, false, Option, none, some, Str, codes, text_lines, [], ◌∷◌, ◌++◌, arith,
}
use store_cpp.Base.Int.{pos}
use store_cpp.Extensions.Format.{c_str, string_format}
use store_cpp.Extensions.Join.{join}
use store_cpp.Events.Event.{IEvent}
use store_cpp.Library.Database.{Result, ok, err, attempt, give_back}
use store_cpp.Pgsql.Errors.{PgError, execution_error, what}
use store_cpp.Pgsql.Session.{Returned, save, select, save-lent}
use store_cpp.Pgsql.Statements.{
  list_statement, create_table, create_indexes, stream_statement, stream_format,
}
use store_cpp.Pgsql.Query.{run_list, finish_list}
use store_cpp.Pgsql.Listing.{list_statement_directive}
use store_cpp.Pgsql.Documents.{create_store, create_stream_id}
use store_cpp.Pgsql.Append.{save_events}
use store_cpp.Pgsql.AppendLaws.{SaveLeaves, save_events-SaveLeaves}
use store_cpp.Pgsql.LastExecution.{
  FirstRow, no_row, row, statements, read_step, set_next_step, set_next_format, last_execution,
  last_execution-lent,
}
use store_cpp.Pgsql.EventSearch.{event_query, search_events}
use store_cpp.Pgsql.LargeObject.{write_loop, download_open, double_quotes}
use store_cpp.Pgsql.LargeObjectLaws.{write_loop-before, download_open_lem}
use store_cpp.Tests.Plain.{Value, null_value}
use store_cpp.Tests.Groups.{plain_groups}
use store_cpp.Tests.Counting.{counting, counting_laws, one_object, one_object_laws}

abbrev two : ℕ
two = 2

abbrev refused : PgError
refused = execution_error (codes "refused")

abbrev good : Result PgError ℕ
good = ok 0

abbrev bad : Result PgError ℕ
bad = err refused

abbrev an_event : IEvent Value
an_event = record {
  seq_id = pos 0;
  id = codes "e";
  stream_id = codes "s";
  type = codes "t";
  version = pos 0;
  payload = null_value;
  timestamp = pos 0;
}

abbrev uuid : ℕ → Str × ℕ
uuid w = (codes "u", w)

abbrev dump : Value → Option Str
dump v = some (codes "{}")

abbrev to_array : ℕ → Result PgError (Unit {0})
to_array r = ok tt

save_events-SaveLeaves_example :
    SaveLeaves
      (counting bad)
      (counting_laws bad)
      plain_groups
      uuid
      (λ w. refl)
      dump
      to_array
      (codes "public")
      (an_event ∷ [])
      2
      (save_events
        (counting bad)
        plain_groups
        uuid
        dump
        to_array
        (codes "public")
        (an_event ∷ [])
        2)
save_events-SaveLeaves_example =
    save_events-SaveLeaves (counting bad) (counting_laws bad) plain_groups uuid (λ w. refl) dump
      to_array (codes "public") (an_event ∷ []) 2

save-Returned : Returned (save (counting good) (codes "select 1") none 2).0
unfolding save attempt
save-Returned = tt

save-lent_example : (save (counting good) (codes "select 1") none 2).1 ≡ 2
save-lent_example =
    save-lent (counting good) (counting_laws good) (codes "select 1") none 2 save-Returned

select-Returned : Returned (select (counting good) (λ r w. (ok tt, w)) (codes "select 1") 2).0
unfolding select attempt
select-Returned = tt

last_execution-Returned :
    Returned
      (last_execution
        (counting good)
        (λ r. row (pos 4))
        (codes "public")
        (codes "s")
        (codes "t")
        (pos 7)
        2).0
unfolding last_execution attempt statements string_format
    store_cpp.Pgsql.LastExecution.create_table_format text_lines read_step set_next_step
    set_next_format
last_execution-Returned = tt

listed :
    run_list (counting bad) (λ r. []) (λ s. some s) (λ s. some s) (codes "select 1") 2
    ≡ some (ok [], 2)
unfolding run_list attempt give_back
listed = refl

searched :
    search_events
      (counting bad)
      (λ r. [])
      (λ s. some s)
      (codes "public")
      (codes "t")
      (pos 0)
      (pos 9)
      true
      []
      []
      2
    ≡ some (ok [], 2)
unfolding search_events event_query join string_format codes finish_list attempt give_back
searched = refl

list_statement_directive_example :
    list_statement ((97 ∷ []) ++ (codes "%s" ++ [])) (codes "v") (codes "n") [] [] (pos 0) (pos 10)
    ≡ some ((97 ∷ []) ++ (c_str (codes "v") ++ []))
list_statement_directive_example =
    list_statement_directive (97 ∷ []) [] (codes "v") (codes "n") [] [] (pos 0) (pos 10)
      ((omega arith, omega arith), tt) tt

write_loop-before_example :
    (write_loop one_object 2 4 0 (pos 0) (39 ∷ 97 ∷ 98 ∷ []) ([], [])).0
    ≡ double_quotes (39 ∷ 97 ∷ 98 ∷ [])
write_loop-before_example =
    write_loop-before one_object one_object_laws 1 4 0 (pos 0) (39 ∷ 97 ∷ 98 ∷ []) ([], [])
      (λ s v. refl) (omega arith) refl

download_open_lem_example :
    (v : Str × Str) × (download_open one_object 4 0 (pos 0) (97 ∷ [], 98 ∷ 99 ∷ [])
      ≡ some (97 ∷ 98 ∷ 99 ∷ [], v))
download_open_lem_example =
    download_open_lem one_object one_object_laws 4 0 (pos 0) (97 ∷ [], 98 ∷ 99 ∷ []) refl refl
      (λ n v e. cc) (omega arith)

created :
    create_store (counting good) (codes "p") (codes "n") false 2
    ≡ some (ok (codes "Succeeded;Succeeded"), 2)
unfolding create_store create_table string_format store_cpp.Pgsql.Statements.create_table_format
    text_lines create_indexes save attempt give_back codes
created = refl

streamed :
    create_stream_id (counting bad) ((codes "t", codes "i") ∷ []) (codes "p") 2
    ≡ some (ok (codes "refused;"), 2)
unfolding create_stream_id stream_statement string_format stream_format text_lines save attempt what
    give_back codes
streamed = refl
