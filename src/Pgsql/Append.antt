-- ===== src/Pgsql/Append.antt =====
-- `PgEventStore::Save` (pg_eventstore.hpp): the pending events are appended stream by stream. The
-- random generator, the JSON printer and the reading of the reply are parameters.
use store_cpp.Base.{ℕ, List, [], ◌∷◌, map, Option, none, some, Str, codes, text_lines}
use store_cpp.Extensions.Format.{string_format, c_str}
use store_cpp.Extensions.Join.{join, wrap_string}
use store_cpp.Events.Event.{IEvent, reset}
use store_cpp.Library.Grouping.{GroupBy}
use store_cpp.Library.Database.{Database, Result, ok, err, attempt, give_back, then_do}
use store_cpp.Pgsql.Errors.{PgError, foreign, ErrorType, code, what, error_type}
use store_cpp.Pgsql.Session.{succeeded}
use store_cpp.Pgsql.Statements.{text, dollar_quoted}

-- `Save` returns a code with a text, or an exception leaves it, or a statement is undefined.
pub data Outcome : Type 0 where
  returned : ℕ → Str → Outcome
  threw undefined : Outcome

-- A round of the loop goes on, or leaves the method.
pub data Round : Type 0 where
  next : Round
  leave : Outcome → Round

-- The call of the database function that appends events to a stream.
unfoldable pub append_format : Str
append_format = text_lines (
    ""
    ∷ "          select %s.mt_append_event(%s, %s, array[%s]::uuid[], array[%s]::varchar[], array[%s]::jsonb[])"
    ∷ "          " ∷ [])

pub dollars : Str → Str
dollars s = wrap_string s (codes "$Q$")

-- `eventTypes.at(0)`
head : List Str → Str
head [] = []
head (s ∷ ss) = s

-- The statement for a stream, from its quoted ids, types and bodies.
unfoldable pub append_statement : Str → Str → List Str → List Str → List Str → Option Str
unfolding head
append_statement db_schema stream_id ids types bodies = string_format append_format (
    text db_schema
    ∷ dollar_quoted stream_id
    ∷ text (head types)
    ∷ text (join ids (codes ","))
    ∷ text (join types (codes ","))
    ∷ text (join bodies (codes ","))
    ∷ [])

module _ {Json Reply : Type 0} (D : Database PgError Reply) (G : GroupBy)
    (generate_uuid : D.World → Str × D.World) (dump : Json → Option Str)
    (to_array : Reply → Result PgError (Unit {0})) (db_schema : Str) where
  open D use {World, Conn, execute, log_error}

  unfoldable pub cons_id : Str → List Str × World → List Str × World
  unfolding dollars
  cons_id s (ids, w) = (dollars s ∷ ids, w)

  -- A random id for each event of the stream.
  unfoldable pub new_ids : List (IEvent Json) → World → List Str × World
  unfolding cons_id
  new_ids [] w = ([], w)
  new_ids (e ∷ es) w = let r = generate_uuid w in cons_id r.0 (new_ids es r.1)

  pub cons_body : Option Str → Option (List Str) → Option (List Str)
  unfolding dollars
  cons_body none r = none
  cons_body (some s) none = none
  cons_body (some s) (some r) = some (dollars s ∷ r)

  -- `e.data.dump()`, which throws on text that is not UTF-8.
  pub dump_all : List (IEvent Json) → Option (List Str)
  unfolding cons_body
  dump_all [] = some []
  dump_all (e ∷ es) = cons_body (dump e.payload) (dump_all es)

  -- The `catch` clauses return from the method, behind the call that would return the connection.
  unfoldable pub finish_round : Option Conn → Result PgError (Unit {0}) → World → Round × World
  finish_round conn (ok u) w = (next, give_back D conn w)
  finish_round conn (err foreign) w = (leave threw, w)
  finish_round conn (err x) w =
      (leave (returned (code (error_type x)) (what x)), log_error (what x) w)

  unfoldable pub run_statement : Option Str → World → Round × World
  unfolding finish_round
  run_statement none w = (leave undefined, w)
  run_statement (some stmt) w =
      let t =
        attempt D (λ c w1. then_do D (execute c (c_str stmt) w1) (λ r w2. (to_array r, w2))) w in
      finish_round t.conn t.result t.after

  unfoldable pub with_bodies :
      Str → List Str → List (IEvent Json) → Option (List Str) → World → Round × World
  unfolding run_statement
  with_bodies stream_id ids stream none w = (leave threw, w)
  with_bodies stream_id ids stream (some bodies) w =
      run_statement
        (append_statement db_schema stream_id ids (map (λ e. dollars e.type) stream) bodies) w

  -- One round of `for (const auto& o : streams)`.
  unfoldable pub save_stream : Str → List (IEvent Json) → World → Round × World
  unfolding with_bodies new_ids dump_all dollars
  save_stream stream_id stream w =
      let r = new_ids stream w in with_bodies stream_id r.0 stream (dump_all stream) r.1

  unfoldable pub after_round : Round × World → (World → Round × World) → Round × World
  after_round (next, w) more = more w
  after_round (leave o, w) more = (leave o, w)

  unfoldable pub save_streams : List (Str × List (IEvent Json)) → World → Round × World
  unfolding after_round
  save_streams [] w = (next, w)
  save_streams ((k, stream) ∷ streams) w =
      after_round (save_stream k stream w) (save_streams streams)

  -- Behind the loop the pending list is reset; a `return` in the loop leaves it.
  unfoldable pub finish_save_streams :
      List (IEvent Json) → Round × World → Outcome × List (IEvent Json) × World
  finish_save_streams pending (next, w) =
      (returned (code ErrorType.none) succeeded, reset pending, w)
  finish_save_streams pending (leave o, w) = (o, pending, w)

  -- `Save()`: the outcome, the pending list and the world after it.
  unfoldable pub save_events : List (IEvent Json) → World → Outcome × List (IEvent Json) × World
  unfolding finish_save_streams save_streams
  save_events pending w =
      finish_save_streams pending
        (save_streams (G.group_by (IEvent Json) (λ e. e.stream_id) pending) w)
