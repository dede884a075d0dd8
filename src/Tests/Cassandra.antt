-- ===== src/Tests/Cassandra.antt =====
-- The theorems on the Cassandra client at a driver whose world counts its objects.
use store_cpp.Base.{
  ℕ, suc, pred, ◌≡◌, refl, ap, true, none, some, List, [], ◌∷◌, ◌++◌, All, Str, codes, take, arith,
  Option,
}
use store_cpp.Base.Int.{ℤ, pos}
use store_cpp.Library.Grouping.{Distinct, has_key}
use store_cpp.Library.Sorting.{Sorting}
use store_cpp.Tests.Groups.{plain_groups, plain_groups_laws}
use store_cpp.Tests.Sorted.{by_insertion, by_insertion_laws}
use store_cpp.Ioc.{empty}
use store_cpp.Cassandra.Driver.{Driver, DriverLaws, pure, call, ◌>>=◌, ◌>>◌}
use store_cpp.Cassandra.Statements.{Param, text, flag, get_insert_statement}
use store_cpp.Cassandra.StatementLaws.{bind_each, insert_sql, get_insert_statement-bind_each}
use store_cpp.Cassandra.Resource.{Resource, NoNulls}
use store_cpp.Cassandra.Registry.{
  Registry, Manager, setting, register_manager, processed_select, modified_select,
}
use store_cpp.Cassandra.RegistryLaws.{register_manager-setting}
use store_cpp.Cassandra.Manager.{process_groups}
use store_cpp.Cassandra.Newest.{AreNewest, handle_each, process_groups-AreNewest}

-- Every result has two rows, which differ in their time.
abbrev counted : Driver
counted = record {
  World = ℕ;
  Statement = ℕ;
  Future = ℕ;
  Batch = ℕ;
  Answer = ℕ;
  Iterator = ℕ;
  Row = ℕ;
  statement_new = λ q n w. (0, suc w);
  statement_bind = λ s i b w. w;
  statement_free = λ s w. pred w;
  session_execute = λ s w. (0, suc w);
  future_wait = λ f w. w;
  future_error_code = λ f w. (0, w);
  future_error_message = λ f w. ([], w);
  future_set_callback = λ f k w. w;
  future_free = λ f w. pred w;
  future_get_result = λ f w. (0, suc w);
  result_row_count = λ r. 2;
  result_first_row = λ r. none;
  result_free = λ r w. pred w;
  iterator_from_result = λ r w. (0, suc w);
  iterator_rows = λ i. 4 ∷ 9 ∷ [];
  iterator_free = λ i w. pred w;
  get_string = λ row k. some k;
  get_int64 = λ row k. some (pos row);
  get_uuid = λ row k. some k;
  base_client = some tt;
  batch_new = λ w. (0, suc w);
  batch_add_statement = λ b s w. w;
  session_execute_batch = λ b w. (0, suc w);
  batch_free = λ b w. pred w;
  uuid_gen_from_time = λ t w. ([], w);
  print = λ s w. w;
}

abbrev counted_laws : DriverLaws counted
counted_laws = record {
  live = λ w. w;
  made_statement = λ q n w. refl;
  made_future = λ s w. refl;
  made_answer = λ f w. refl;
  made_iterator = λ r w. refl;
  made_batch = λ w. refl;
  made_batch_future = λ b w. refl;
  freed_statement = λ s w n e. ap pred e;
  freed_future = λ f w n e. ap pred e;
  freed_answer = λ r w n e. ap pred e;
  freed_iterator = λ i w n e. ap pred e;
  freed_batch = λ b w n e. ap pred e;
  kept_bind = λ s i b w. refl;
  kept_wait = λ f w. refl;
  kept_error_code = λ f w. refl;
  kept_error_message = λ f w. refl;
  kept_set_callback = λ f k w. refl;
  kept_add = λ b s w. refl;
  kept_uuid = λ t w. refl;
  kept_print = λ s w. refl;
}

abbrev two_params : List Param
two_params = text (codes "foo") ∷ flag true ∷ []

get_insert_statement-bind_each_example :
    get_insert_statement counted (codes "t") (codes "a" ∷ []) two_params ≡ (do
      statement ← call (counted.statement_new (insert_sql (codes "t") (codes "a" ∷ [])) 1)
      bind_each counted statement (take 1 two_params) 0
      pure statement)
get_insert_statement-bind_each_example =
    get_insert_statement-bind_each counted (codes "t") (codes "a") [] two_params (omega arith)

abbrev manager : Manager
manager = record {
  address = codes "0x1";
  keyspace = codes "k";
  environment = codes "e";
  store = codes "s";
  data_type = codes "d";
  purpose = codes "p";
  wait_time = 4000;
}

abbrev nothing : Registry
nothing = record { container = empty; objects = [] }

abbrev registered : Registry
registered = register_manager manager nothing

register_manager-setting_example :
    (setting registered (manager.address ++ codes ":keyspace") ≡ some (codes "k"))
    × (setting registered (manager.address ++ codes ":environment") ≡ some (codes "e"))
    × (setting registered (manager.address ++ codes ":store") ≡ some (codes "s"))
    × (setting registered (manager.address ++ codes ":data_type") ≡ some (codes "d"))
    × (setting registered (manager.address ++ codes ":purpose") ≡ some (codes "p"))
    × (setting registered (codes "ca_resource_processed_select") ≡ some processed_select)
    × (setting registered (codes "ca_resource_modified_select") ≡ some modified_select)
    × (setting registered (codes "ca_resource_processed") ≡ some (codes "ca_resource_processed"))
register_manager-setting_example = register_manager-setting manager nothing

-- A format that ignores its arguments, a clock that stands, and a handler that keeps the row.
abbrev same_text : Str → List Str → Str
same_text f args = f

abbrev standing : ℕ → ℤ × ℕ
standing w = (pos 0, w)

abbrev keep_row : Resource → ℕ → Option (Option Resource × ℕ)
keep_row c w = some (some c, w)

abbrev no_nulls : NoNulls counted
no_nulls = record {
  strings = λ row k. (k, refl);
  int64s = λ row k. (pos row, refl);
  uuids = λ row k. (k, refl);
}

abbrev row_at : ℤ → Resource
row_at t = record {
  environment = [];
  store = [];
  type = [];
  start_time = t;
  id = codes "i";
  oid = [];
  uid = [];
  current = [];
}

abbrev two_rows : List Resource
two_rows = row_at (pos 4) ∷ row_at (pos 9) ∷ []

abbrev sorting : Sorting Resource
sorting = by_insertion Resource

abbrev row_keys : List Str
row_keys = plain_groups.keys Resource (λ c. c.id) two_rows

process_groups-AreNewest_example :
    (ms : List Resource) × (process_groups counted same_text plain_groups sorting standing keep_row
        (codes "0x1")
        registered
        (plain_groups.group_by Resource (λ c. c.id) two_rows)
      ≡ handle_each counted same_text plain_groups sorting standing keep_row
          (codes "0x1")
          registered
          ms)
    × AreNewest two_rows row_keys ms
    × Distinct row_keys
    × All (λ c. has_key c.id row_keys ≡ true) two_rows
process_groups-AreNewest_example =
    process_groups-AreNewest counted same_text plain_groups sorting standing keep_row (codes "0x1")
      registered plain_groups_laws (by_insertion_laws Resource) two_rows

abbrev three : ℕ
three = 3
