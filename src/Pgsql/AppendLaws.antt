-- ===== src/Pgsql/AppendLaws.antt =====
-- What `PgEventStore::Save` leaves behind: the pending list, and the lent connections.
use store_cpp.Base.{
  ℕ, suc, ◌≡◌, ◌≢◌, refl, ◌⊎◌, inl, inr, List, [], ◌∷◌, Option, none, some, Str, arith, ◌∙◌, subst,
}
use store_cpp.Extensions.Format.{c_str}
use store_cpp.Events.Event.{IEvent, reset}
use store_cpp.Library.Grouping.{GroupBy}
use store_cpp.Library.Database.{
  Database, DatabaseLaws, Result, ok, err, attempt, then_do, held, attempt-lent, give_back-lent,
}
use store_cpp.Pgsql.Errors.{
  PgError, connection_error, execution_error, standard, foreign, code, error_type,
}
use store_cpp.Pgsql.Session.{succeeded, then_do-Keeps}
use store_cpp.Pgsql.Append.{
  Outcome, returned, Round, next, leave, finish_round, run_statement, with_bodies, new_ids, cons_id,
  save_stream, after_round, save_streams, finish_save_streams, save_events, dump_all,
}

module _ {Json Reply : Type 0} (D : Database PgError Reply) (laws : DatabaseLaws D) (G : GroupBy)
    (generate_uuid : D.World → Str × D.World)
    (keeps_uuid : (w : D.World) → laws.lent (generate_uuid w).1 ≡ laws.lent w)
    (dump : Json → Option Str) (to_array : Reply → Result PgError (Unit {0}))
    (db_schema : Str) where
  open D use {World, Conn, execute, log_error}
  open laws use {lent, lent-log_error}

  -- After a round that goes on the same number of connections is lent. A round that leaves the
  -- method does not report success, and may keep its connection.
  abbrev RoundLent : ℕ → Round × World → Type 0
  RoundLent n (next, w) = lent w ≡ n
  RoundLent n (leave o, w) = (o ≢ returned 200 succeeded) × ((lent w ≡ n) ⊎ (lent w ≡ suc n))

  held_either : (conn : Option Conn) (m n : ℕ) → m ≡ held D laws conn n → (m ≡ n) ⊎ (m ≡ suc n)
  held_either none m n e = inl e
  held_either (some c) m n e = inr e

  code-ne : (x : PgError) (m : Str) → returned (code (error_type x)) m ≢ returned 200 succeeded
  unfolding code error_type
  code-ne (connection_error s) m = λ e. ground arith
  code-ne (execution_error s) m = λ e. ground arith
  code-ne standard m = λ e. ground arith
  code-ne foreign m = λ e. ground arith

  finish_round-RoundLent :
      (conn : Option Conn) (r : Result PgError (Unit {0})) (w : World) (n : ℕ)
      → lent w ≡ held D laws conn n
      → RoundLent n (finish_round D G generate_uuid dump to_array db_schema conn r w)
  unfolding finish_round
  finish_round-RoundLent conn (ok u) w n h = give_back-lent D laws conn w n h
  finish_round-RoundLent conn (err foreign) w n h = (λ e. cc, held_either conn (lent w) n h)
  finish_round-RoundLent conn (err (connection_error m)) w n h =
      (code-ne (connection_error m) _, held_either conn _ n (lent-log_error _ w ∙ h))
  finish_round-RoundLent conn (err (execution_error m)) w n h =
      (code-ne (execution_error m) _, held_either conn _ n (lent-log_error _ w ∙ h))
  finish_round-RoundLent conn (err standard) w n h =
      (code-ne standard _, held_either conn _ n (lent-log_error _ w ∙ h))

  new_ids-lent :
      (es : List (IEvent Json)) (w : World)
      → lent (new_ids D G generate_uuid dump to_array db_schema es w).1 ≡ lent w
  unfolding new_ids cons_id
  new_ids-lent [] w = refl
  new_ids-lent (e ∷ es) w = new_ids-lent es (generate_uuid w).1 ∙ keeps_uuid w

  run_statement-RoundLent :
      (s : Option Str) (w : World)
      → RoundLent (lent w) (run_statement D G generate_uuid dump to_array db_schema s w)
  unfolding run_statement
  run_statement-RoundLent none w = (λ e. cc, inl refl)
  run_statement-RoundLent (some stmt) w =
      let t =
        attempt D (λ c w1. then_do D (execute c (c_str stmt) w1) (λ r w2. (to_array r, w2))) w in
      finish_round-RoundLent t.conn t.result t.after (lent w)
        (attempt-lent D laws _ w (then_do-Keeps D laws (c_str stmt) _ (λ r v. refl)))

  with_bodies-RoundLent :
      (k : Str) (ids : List Str) (es : List (IEvent Json)) (bodies : Option (List Str)) (w : World)
      → RoundLent (lent w) (with_bodies D G generate_uuid dump to_array db_schema k ids es bodies w)
  unfolding with_bodies
  with_bodies-RoundLent k ids es none w = (λ e. cc, inl refl)
  with_bodies-RoundLent k ids es (some bodies) w = run_statement-RoundLent _ w

  save_stream-RoundLent :
      (k : Str) (es : List (IEvent Json)) (w : World)
      → RoundLent (lent w) (save_stream D G generate_uuid dump to_array db_schema k es w)
  unfolding save_stream
  save_stream-RoundLent k es w =
      let r = new_ids D G generate_uuid dump to_array db_schema es w in
      subst
        (λ n. RoundLent n (
          with_bodies D G generate_uuid dump to_array db_schema k r.0 es
            (dump_all D G generate_uuid dump to_array db_schema es) r.1))
        (new_ids-lent es w) (with_bodies-RoundLent k r.0 es _ r.1)

  after_round-RoundLent :
      (n : ℕ) (r : Round × World) (more : World → Round × World)
      → RoundLent n r
      → ((w : World) → RoundLent (lent w) (more w))
      → RoundLent n (after_round D G generate_uuid dump to_array db_schema r more)
  unfolding after_round
  after_round-RoundLent n (next, w) more h k = subst (λ m. RoundLent m (more w)) h (k w)
  after_round-RoundLent n (leave o, w) more h k = h

  save_streams-RoundLent :
      (streams : List (Str × List (IEvent Json))) (w : World)
      → RoundLent (lent w) (save_streams D G generate_uuid dump to_array db_schema streams w)
  unfolding save_streams
  save_streams-RoundLent [] w = refl
  save_streams-RoundLent ((k, es) ∷ streams) w =
      after_round-RoundLent (lent w) _ _ (save_stream-RoundLent k es w)
        (λ v. save_streams-RoundLent streams v)

  -- What `Save` leaves: after success no event is pending and every connection is given back; after
  -- anything else all events are still pending, and at most one connection is still lent.
  abbrev pub SaveLeaves : List (IEvent Json) → World → Outcome × List (IEvent Json) × World → Type 0
  SaveLeaves pending w r =
      ((r.0 ≡ returned 200 succeeded) × (r.1 ≡ []) × (lent r.2 ≡ lent w))
      ⊎ ((r.0 ≢ returned 200 succeeded)
          × (r.1 ≡ pending)
          × ((lent r.2 ≡ lent w) ⊎ (lent r.2 ≡ suc (lent w))))

  finish-SaveLeaves :
      (pending : List (IEvent Json)) (w : World) (r : Round × World)
      → RoundLent (lent w) r
      → SaveLeaves pending w
          (finish_save_streams D G generate_uuid dump to_array db_schema pending r)
  unfolding finish_save_streams code reset
  finish-SaveLeaves pending w (next, v) h = inl (refl, refl, h)
  finish-SaveLeaves pending w (leave o, v) h = inr (h.0, refl, h.1)

  -- After success of `Save` no event is pending and every connection is given back. Otherwise every
  -- event is still pending, those of streams that were appended too, and at most one connection is
  -- still lent.
  pub save_events-SaveLeaves :
      (pending : List (IEvent Json)) (w : World)
      → SaveLeaves pending w (save_events D G generate_uuid dump to_array db_schema pending w)
  unfolding save_events
  save_events-SaveLeaves pending w = finish-SaveLeaves pending w _ (save_streams-RoundLent _ w)
