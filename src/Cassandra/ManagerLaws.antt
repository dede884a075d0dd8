-- ===== src/Cassandra/ManagerLaws.antt =====
-- The driver's objects in a round of `CaResourceManager` (ca_resource_manager.hpp).
use store_cpp.Base.{
  ℕ, zero, suc, ◌≡◌, ◌+◌, refl, ap, arith, Option, none, some, List, [], ◌∷◌, Str, length,
}
use store_cpp.Base.Int.{ℤ}
use store_cpp.Library.Grouping.{GroupBy}
use store_cpp.Library.Sorting.{Sorting}
use store_cpp.Cassandra.Driver.{M, Driver, DriverLaws}
use store_cpp.Cassandra.Balance.{
  Grows, Balanced, Grows-bind, Grows-then, Grows-pure, Grows-need, Grows-kept, Grows-made,
  Grows-step, Grows-freed, Grows-to, Grows-from, Grows-bind-Yields, Yields, Yields-pure,
  Yields-bind, Yields-bind-Yields,
}
use store_cpp.Cassandra.Client.{get_uuid_from_timestamp}
use store_cpp.Cassandra.ClientLaws.{execute_query-Balanced, insert_sync_batch-Grows, lift}
use store_cpp.Cassandra.StatementLaws.{get_insert_statement-Grows}
use store_cpp.Cassandra.Resource.{Resource}
use store_cpp.Cassandra.Registry.{Registry}
use store_cpp.Cassandra.Manager.{
  newer, first, process_groups, processed_statement, processed_statements, read_rows, process_rows,
  modified_tap_code, modified_tap, next_uid, modified_statement, find_modified, processed_tap_code,
  processed_tap, processed_query, fetch_next_tasks,
}

module _ (D : Driver) (laws : DriverLaws D) (fmt_format : Str → List Str → Str) (G : GroupBy)
    (S : Sorting Resource) (clock : D.World → ℤ × D.World)
    (handler : Resource → M D.World (Option Resource)) (address : Str) (r : Registry)
    -- The clock and the handler leave the driver's objects as many as they were.
    (kept_clock : (w : D.World) → laws.live (clock w).1 ≡ laws.live w)
    (kept_handler : (c : Resource) → Balanced laws.live (handler c)) where
  open D use {World, Statement, Future, Row}
  open laws use {live}

  process_groups-Grows :
      {a : ℕ} (groups : List (Str × List Resource))
      → Grows live a (process_groups D fmt_format G S clock handler address r groups) a
  unfolding process_groups
  process_groups-Grows [] = Grows-pure _
  process_groups-Grows {a} (c ∷ groups) = Grows-bind (Grows-need (first (S.sort newer c.1))) λ h.
      Grows-bind (lift D laws a (kept_handler h))
        λ p. Grows-bind (process_groups-Grows groups) λ rest. Grows-pure _

  processed_statement-Grows :
      {a : ℕ} (c : Option Resource)
      → Grows live a (processed_statement D fmt_format G S clock handler address r c) (suc a)
  unfolding processed_statement
  processed_statement-Grows c1 = Grows-bind (Grows-need c1) λ c.
      Grows-bind (Grows-need _) λ purpose.
        Grows-bind (Grows-need _) λ keyspace.
          Grows-bind (Grows-need _) λ table_name. get_insert_statement-Grows D laws _ _ _

  processed_statements-Grows :
      {a : ℕ} (cs : List (Option Resource))
      → Grows live a
          (processed_statements D fmt_format G S clock handler address r cs)
          (length cs + a)
  unfolding processed_statements
  processed_statements-Grows {a} [] = Grows-to (omega arith) (Grows-pure [])
  processed_statements-Grows {a} (c ∷ cs) =
      Grows-bind (processed_statement-Grows c)
        λ s. Grows-bind (processed_statements-Grows cs) λ ss. Grows-to (omega arith) (Grows-pure _)

  -- One statement for each row.
  processed_statements-Yields :
      (cs : List (Option Resource))
      → Yields
          (λ ss. length ss ≡ length cs)
          (processed_statements D fmt_format G S clock handler address r cs)
  unfolding processed_statements
  processed_statements-Yields [] = Yields-pure [] refl
  processed_statements-Yields (c ∷ cs) =
      Yields-bind _
        λ s. Yields-bind-Yields _ (processed_statements-Yields cs) λ ss e. Yields-pure _ (ap suc e)

  read_rows-Balanced :
      (f : Future) → Balanced live (read_rows D fmt_format G S clock handler address r f)
  unfolding read_rows
  read_rows-Balanced f = Grows-bind (Grows-made _ (laws.made_answer f)) λ result.
      Grows-bind (Grows-made _ (laws.made_iterator result)) λ i. Grows-bind (Grows-need _) λ rows.
        Grows-then (Grows-freed _ (laws.freed_iterator i))
          (Grows-then (Grows-freed _ (laws.freed_answer result)) (Grows-pure _))

  process_rows-Balanced :
      (f : Future) → Balanced live (process_rows D fmt_format G S clock handler address r f)
  unfolding process_rows
  process_rows-Balanced f = Grows-bind (read_rows-Balanced f) λ rows.
      Grows-bind (process_groups-Grows (G.group_by Resource (λ c. c.id) rows)) λ cs.
        Grows-bind-Yields (λ ss. length ss ≡ length cs) (processed_statements-Grows cs)
          (processed_statements-Yields cs)
          λ ss e.
            Grows-bind (Grows-need _)
              λ conn. Grows-from (omega (arith, e)) (insert_sync_batch-Grows D laws ss)

  modified_tap-Balanced :
      (f : Future) → Balanced live (modified_tap D fmt_format G S clock handler address r f)
  unfolding modified_tap
  modified_tap-Balanced f = Grows-bind (Grows-kept _ (laws.kept_error_code f)) λ code. tap_code code
    where
      tap_code :
          (code : ℕ)
          → Balanced live (modified_tap_code D fmt_format G S clock handler address r code f)
      tap_code zero = unfold modified_tap_code in process_rows-Balanced f
      tap_code (suc code) =
          unfold modified_tap_code in
          Grows-bind (Grows-kept _ (laws.kept_error_message f)) λ m. Grows-pure _

  next_uid-Grows :
      {a : ℕ} (row : Option Row)
      → Grows live a (next_uid D fmt_format G S clock handler address r row) a
  unfolding next_uid get_uuid_from_timestamp
  next_uid-Grows (some row) = Grows-need _
  next_uid-Grows none =
      Grows-bind (Grows-kept _ kept_clock)
        λ t. Grows-bind (Grows-need _) λ ago. Grows-kept _ (laws.kept_uuid _)

  modified_statement-Grows :
      {a : ℕ} (uid : Str)
      → Grows live a (modified_statement D fmt_format G S clock handler address r uid) a
  unfolding modified_statement
  modified_statement-Grows uid = Grows-bind (Grows-need _) λ select.
      Grows-bind (Grows-need _) λ keyspace. Grows-bind (Grows-need _) λ environment.
        Grows-bind (Grows-need _) λ store. Grows-bind (Grows-need _) λ data_type. Grows-pure _

  find_modified-Balanced :
      (f : Future) → Balanced live (find_modified D fmt_format G S clock handler address r f)
  unfolding find_modified
  find_modified-Balanced f = Grows-bind (Grows-made _ (laws.made_answer f)) λ result.
      Grows-bind (Grows-need _) λ conn.
        Grows-bind (next_uid-Grows (D.result_first_row result)) λ uid.
          Grows-then (Grows-freed _ (laws.freed_answer result)) (
            Grows-bind (modified_statement-Grows uid) λ query.
              Grows-bind (execute_query-Balanced D laws query _ modified_tap-Balanced)
                λ rc. Grows-pure _)

  processed_tap-Balanced :
      (f : Future) → Balanced live (processed_tap D fmt_format G S clock handler address r f)
  unfolding processed_tap
  processed_tap-Balanced f =
      Grows-bind (Grows-kept _ (laws.kept_error_code f)) λ code. tap_code code
    where
      tap_code :
          (code : ℕ)
          → Balanced live (processed_tap_code D fmt_format G S clock handler address r code f)
      tap_code zero = unfold processed_tap_code in find_modified-Balanced f
      tap_code (suc code) =
          unfold processed_tap_code in
          Grows-bind (Grows-kept _ (laws.kept_error_message f))
            λ m. Grows-step _ (laws.kept_print m)

  processed_query-Balanced :
      Balanced live (processed_query D fmt_format G S clock handler address r)
  unfolding processed_query
  processed_query-Balanced = Grows-bind (Grows-need _) λ select.
      Grows-bind (Grows-need _) λ keyspace. Grows-bind (Grows-need _) λ environment.
        Grows-bind (Grows-need _) λ store.
          Grows-bind (Grows-need _) λ data_type. Grows-bind (Grows-need _) λ purpose. Grows-pure _

  -- When a round of `run` returns, every statement, future, result, iterator and batch that it made is
  -- freed, and no other: the two queries, the second inside the first one's callback, and the batch.
  pub fetch_next_tasks-Balanced :
      Balanced live (fetch_next_tasks D fmt_format G S clock handler address r)
  unfolding fetch_next_tasks
  fetch_next_tasks-Balanced = Grows-bind processed_query-Balanced λ query.
      Grows-bind (Grows-need _) λ conn.
        Grows-bind (execute_query-Balanced D laws query _ processed_tap-Balanced) λ rc. Grows-pure _
