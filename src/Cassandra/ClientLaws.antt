-- ===== src/Cassandra/ClientLaws.antt =====
-- Objects of the driver and returned codes of `CassandraBaseClient` (cassandra_base_client.hpp).
use store_cpp.Base.{
  ℕ, zero, suc, ◌+◌, ◌≡◌, refl, arith, Option, none, some, List, [], ◌∷◌, Str, length,
}
use store_cpp.Cassandra.Driver.{M, pure, ◌>>◌, step, stuck, Driver, DriverLaws}
use store_cpp.Cassandra.Balance.{
  Grows, Balanced, Grows-bind, Grows-then, Grows-pure, Grows-stuck, Grows-kept, Grows-made,
  Grows-step, Grows-freed, Yields, Yields-bind, Yields-then, Yields-pure, Yields-nothing,
}
use store_cpp.Cassandra.Client.{
  print_error, report_error, tap_if, execute_query, execute_query_async, print_count, insert_sync,
  add_statements, insert_sync_batch, insert_async, insert_async_batch,
}

module _ (D : Driver) (laws : DriverLaws D) where
  open D use {World, Statement, Future, Batch}
  open laws use {live}

  print_error-Grows : {a b : ℕ} (f : Future) → Grows live a (print_error D f) b
  unfolding print_error
  print_error-Grows f =
      Grows-bind (Grows-kept _ (laws.kept_error_message f))
        λ m. Grows-then (Grows-step _ (laws.kept_print _)) Grows-stuck

  report_error-Grows : {a : ℕ} (f : Future) (rc : ℕ) → Grows live a (report_error D f rc) a
  unfolding report_error
  report_error-Grows f zero = Grows-pure _
  report_error-Grows f (suc rc) = print_error-Grows f

  -- What a tap function is given is balanced.
  abbrev pub TapBalanced : Option (Future → M World (Unit {0})) → Type 0
  TapBalanced none = Unit
  TapBalanced (some tap) = (f : Future) → Balanced live (tap f)

  pub lift : {A : Type 0} {m : M World A} (a : ℕ) → Balanced live m → Grows live a m a
  lift a h = record {
    grows = λ w w' x n l e. omega (arith, h.grows w w' x (a + n) (omega (arith, l)) e);
  }

  tap_if-Grows :
      {a : ℕ} (rc : ℕ) (tap : Option (Future → M World (Unit {0}))) (f : Future)
      → TapBalanced tap
      → Grows live a (tap_if D rc tap f) a
  unfolding tap_if
  tap_if-Grows zero none f h = Grows-pure _
  tap_if-Grows {a} zero (some tap) f h = lift a (h f)
  tap_if-Grows (suc rc) tap f h = Grows-pure _

  -- When `executeQuery` returns, its future and its statement are freed, and nothing else is, provided
  -- the function that it is given leaves the driver's objects as many as they were.
  pub execute_query-Balanced :
      (query : Str) (tap : Option (Future → M World (Unit {0})))
      → TapBalanced tap
      → Balanced live (execute_query D query tap)
  unfolding execute_query
  execute_query-Balanced query tap h = Grows-bind (Grows-made _ (laws.made_statement query 0)) λ s.
      Grows-bind (Grows-made _ (laws.made_future s)) λ f.
        Grows-then (Grows-step _ (laws.kept_wait f)) (
          Grows-bind (Grows-kept _ (laws.kept_error_code f)) λ rc.
            Grows-then (report_error-Grows f rc) (
              Grows-then (tap_if-Grows rc tap f h) (
                Grows-then (Grows-freed _ (laws.freed_future f))
                  (Grows-then (Grows-freed _ (laws.freed_statement s)) (Grows-pure _)))))

  print_error-Yields : (f : Future) → Yields (λ x. ⊥) (print_error D f)
  unfolding print_error
  print_error-Yields f =
      Yields-bind _ λ m. Yields-then _ (unfold stuck in record { yields = λ w w' x e. cc })

  finish_query-Yields :
      (s : Statement) (f : Future) (rc : ℕ) (tap : Option (Future → M World (Unit {0})))
      → Yields
          (λ c. c ≡ 0)
          (do
            report_error D f rc
            tap_if D rc tap f
            step (D.future_free f)
            step (D.statement_free s)
            pure rc)
  unfolding report_error
  finish_query-Yields s f zero tap =
      Yields-then _ (Yields-then _ (Yields-then _ (Yields-then _ (Yields-pure zero refl))))
  finish_query-Yields s f (suc rc) tap = unfold ◌>>◌ in Yields-nothing _ _ (print_error-Yields f)

  -- `executeQuery` returns no code but `CASS_OK`: with another one the process is terminated.
  execute_query-Yields :
      (query : Str) (tap : Option (Future → M World (Unit {0})))
      → Yields (λ rc. rc ≡ 0) (execute_query D query tap)
  unfolding execute_query
  execute_query-Yields query tap =
      Yields-bind _
        λ s. Yields-bind _ λ f. Yields-then _ (Yields-bind _ λ rc. finish_query-Yields s f rc tap)

  print_count-Grows : {a : ℕ} (f : Future) (rc : ℕ) → Grows live a (print_count D f rc) a
  unfolding print_count
  print_count-Grows f (suc rc) = print_error-Grows f
  print_count-Grows f zero =
      Grows-bind (Grows-made _ (laws.made_answer f))
        λ r. Grows-then (Grows-step _ (laws.kept_print _)) (Grows-freed _ (laws.freed_answer r))

  -- `insertSync` and `insertAsync` of a statement take it over: it is freed with their future.
  insert_sync-Grows : (s : Statement) → Grows live 1 (insert_sync D s) 0
  unfolding insert_sync
  insert_sync-Grows s = Grows-bind (Grows-made _ (laws.made_future s)) λ f.
      Grows-then (Grows-step _ (laws.kept_wait f)) (
        Grows-bind (Grows-kept _ (laws.kept_error_code f)) λ rc.
          Grows-then (print_count-Grows f rc) (
            Grows-then (Grows-freed _ (laws.freed_future f))
              (Grows-freed _ (laws.freed_statement s))))

  insert_async-Grows : (s : Statement) (k : ℕ) → Grows live 1 (insert_async D s k) 0
  unfolding insert_async
  insert_async-Grows s k = Grows-bind (Grows-made _ (laws.made_future s)) λ f.
      Grows-then (Grows-step _ (laws.kept_set_callback f k))
        (Grows-then (Grows-freed _ (laws.freed_future f)) (Grows-freed _ (laws.freed_statement s)))

  execute_query_async-Balanced :
      (query : Str) (k : ℕ) → Balanced live (execute_query_async D query k)
  unfolding execute_query_async
  execute_query_async-Balanced query k =
      Grows-bind (Grows-made _ (laws.made_statement query 0)) λ s.
        Grows-bind (Grows-made _ (laws.made_future s)) λ f.
          Grows-then (Grows-step _ (laws.kept_set_callback f k)) (
            Grows-then (Grows-freed _ (laws.freed_future f))
              (Grows-freed _ (laws.freed_statement s)))

  add_statements-Grows :
      (b : Batch) (ss : List Statement) → Grows live (suc (length ss)) (add_statements D b ss) 1
  unfolding add_statements
  add_statements-Grows b [] = Grows-pure _
  add_statements-Grows b (s ∷ ss) =
      Grows-then (Grows-step _ (laws.kept_add b s))
        (Grows-then (Grows-freed _ (laws.freed_statement s)) (add_statements-Grows b ss))

  -- A batch takes over its statements: all are freed, and so are the batch and its future.
  pub insert_sync_batch-Grows :
      (ss : List Statement) → Grows live (length ss) (insert_sync_batch D ss) 0
  unfolding insert_sync_batch
  insert_sync_batch-Grows ss = Grows-bind (Grows-made _ laws.made_batch) λ b.
      Grows-then (add_statements-Grows b ss) (
        Grows-bind (Grows-made _ (laws.made_batch_future b)) λ f.
          Grows-then (Grows-freed _ (laws.freed_batch b)) (
            Grows-bind (Grows-kept _ (laws.kept_error_code f))
              λ rc. Grows-then (report_error-Grows f rc) (Grows-freed _ (laws.freed_future f))))

  insert_async_batch-Grows :
      (ss : List Statement) (k : ℕ) → Grows live (length ss) (insert_async_batch D ss k) 0
  unfolding insert_async_batch
  insert_async_batch-Grows ss k = Grows-bind (Grows-made _ laws.made_batch) λ b.
      Grows-then (add_statements-Grows b ss) (
        Grows-bind (Grows-made _ (laws.made_batch_future b)) λ f.
          Grows-then (Grows-freed _ (laws.freed_batch b)) (
            Grows-then (Grows-step _ (laws.kept_set_callback f k))
              (Grows-freed _ (laws.freed_future f))))
