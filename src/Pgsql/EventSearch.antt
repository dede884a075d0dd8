-- ===== src/Pgsql/EventSearch.antt =====
-- `PgEventStore::Search` (pg_eventstore.hpp): the events of a type behind a sequence number.
use store_cpp.Base.{
  subst, ◌≡◌, refl, Bool, true, false, List, [], ◌∷◌, ◌++◌, map, Option, none, some, Str, codes,
  if◌then◌else◌,
}
use store_cpp.Base.Int.{ℤ}
use store_cpp.Extensions.Format.{c_str, string_format, int}
use store_cpp.Extensions.Join.{join, wrap_string}
use store_cpp.Extensions.Trim.{strip_soh}
use store_cpp.Events.Event.{IEvent}
use store_cpp.Pgsql.Session.{Returned}
use store_cpp.Library.Database.{Database, DatabaseLaws, Result, ok, attempt, then_do, attempt-lent}
use store_cpp.Pgsql.Errors.{PgError}
use store_cpp.Pgsql.Session.{then_do-Keeps}
use store_cpp.Pgsql.Statements.{text}
use store_cpp.Pgsql.Query.{Loaded, undefined, loaded, finish_list}
use store_cpp.Pgsql.Listing.{Kept, finish_list-Kept}

quoted : Str → Str
quoted s = wrap_string s (codes "'")

quoted_list : List Str → Str
unfolding quoted
quoted_list ss = join (map quoted ss) (codes ",")

-- `string_format(f, s)` unless the text is empty.
optional : Str → Str → Option Str
optional f [] = some []
optional f (c ∷ s) = string_format f (text (c ∷ s) ∷ [])

-- `data->>'key' in ('a','b')` for each entry of the filters.
filter_fragment : Str × List Str → Str
unfolding quoted_list
filter_fragment (k, vs) =
    codes "data->>'" ++ (k ++ (codes "' in (" ++ (quoted_list vs ++ codes ")")))

with_parts : (Str → Str → Option Str) → Option Str → Option Str → Option Str
with_parts f none r = none
with_parts f (some s) none = none
with_parts f (some s) (some r) = f s r

unfoldable pub event_query :
    Str → Str → ℤ → ℤ → Bool → List Str → List (Str × List Str) → Option Str
unfolding with_parts optional quoted_list filter_fragment
event_query db_schema type from_seq_id limit exact must_exist filters =
    with_parts
      (λ keys matches.
        string_format
          (codes
            "select seq_id, id, stream_id, type, version, data, timestamp from %s.mt_events where type %s '%s' and seq_id > %lld %s %s limit %d")
          (text db_schema
            ∷ text (if exact then codes "=" else codes "~*")
            ∷ text type
            ∷ int from_seq_id
            ∷ text keys
            ∷ text matches
            ∷ int limit
            ∷ []))
      (optional (codes " and data ?& array[%s]") (quoted_list must_exist))
      (optional (codes " and %s") (join (map filter_fragment filters) (codes " and ")))

-- A row, its columns converted by the library; the payload is still text.
pub record Row : Type 0 where
  pub seq_id : ℤ
  pub id : Str
  pub stream_id : Str
  pub type : Str
  pub version : ℤ
  pub payload_text : Str
  pub timestamp : ℤ

module _ {Json : Type 0} (parse : Str → Option Json) where
  make_event : Row → Json → IEvent Json
  make_event r j = record {
    seq_id = r.seq_id;
    id = r.id;
    stream_id = r.stream_id;
    type = r.type;
    version = r.version;
    payload = j;
    timestamp = r.timestamp;
  }

  add_event : Row → Option Json → Loaded (IEvent Json) → Loaded (IEvent Json)
  unfolding make_event
  add_event r none rest = loaded [] true
  add_event r (some j) undefined = undefined
  add_event r (some j) (loaded es failed) = loaded (make_event r j ∷ es) failed

  read_row : Row → Option Str → Loaded (IEvent Json) → Loaded (IEvent Json)
  unfolding add_event
  read_row r none rest = undefined
  read_row r (some s) rest = add_event r (parse s) rest

  -- `for (auto &row : resp) { … events.push_back(move(ev)); }`
  unfoldable pub load_events : List Row → Loaded (IEvent Json)
  unfolding read_row
  load_events [] = loaded [] false
  load_events (r ∷ rows) = read_row r (strip_soh r.payload_text) (load_events rows)

module _ {Reply Json : Type 0} (D : Database PgError Reply) (rows : Reply → List Row)
    (parse : Str → Option Json) where
  open D use {World, Conn, execute}

  -- The `catch` clauses and the end are those of `list`.
  run_query : Option Str → World → Option (Result PgError (List (IEvent Json)) × World)
  run_query none w = none
  run_query (some sql) w =
      let t =
        attempt D
          (λ c w1.
            then_do D (execute c (c_str sql) w1) (λ r w2. (ok (load_events parse (rows r)), w2)))
          w in
      finish_list D t.conn t.result t.after

  unfoldable pub search_events :
      Str
      → Str
      → ℤ
      → ℤ
      → Bool
      → List Str
      → List (Str × List Str)
      → World
      → Option (Result PgError (List (IEvent Json)) × World)
  unfolding run_query
  search_events db_schema type from_seq_id limit exact must_exist filters w =
      run_query (event_query db_schema type from_seq_id limit exact must_exist filters) w

-- `Search` gives back its connection whether the events are read, or the statement or a row is
-- refused.
search_events-Kept :
    {Reply Json : Type 0} (D : Database PgError Reply) (laws : DatabaseLaws D)
    (rows : Reply → List Row) (parse : Str → Option Json) (db_schema type : Str)
    (from_seq_id limit : ℤ) (exact : Bool) (must_exist : List Str) (filters : List (Str × List Str))
    (w : D.World)
    → Kept D laws w
        (search_events D rows parse db_schema type from_seq_id limit exact must_exist filters w)
unfolding search_events
search_events-Kept D laws rows parse db_schema type from_seq_id limit exact must_exist filters w =
    go (event_query db_schema type from_seq_id limit exact must_exist filters)
  where
    go : (q : Option Str) → Kept D laws w (run_query D rows parse q w)
    go none = tt
    go (some sql) =
        let t =
          attempt D
            (λ c w1.
              then_do D (D.execute c (c_str sql) w1)
                (λ r w2. (ok (load_events parse (rows r)), w2)))
            w in
        finish_list-Kept D laws t.conn t.result w t.after
          (attempt-lent D laws _ w (then_do-Keeps D laws (c_str sql) _ (λ r v. refl)))

-- When `Search` returns, its connection is given back, whether the events were read, or the
-- statement or a row was refused.
search_events-lent :
    {Reply Json : Type 0} (D : Database PgError Reply) (laws : DatabaseLaws D)
    (rows : Reply → List Row) (parse : Str → Option Json) (db_schema type : Str)
    (from_seq_id limit : ℤ) (exact : Bool) (must_exist : List Str) (filters : List (Str × List Str))
    (w v : D.World) (r : Result PgError (List (IEvent Json)))
    → search_events D rows parse db_schema type from_seq_id limit exact must_exist filters w
      ≡ some (r, v)
    → Returned r
    → laws.lent v ≡ laws.lent w
search_events-lent D laws rows parse db_schema type from_seq_id limit exact must_exist filters w v r
      e =
    subst (Kept D laws w) e (
      search_events-Kept D laws rows parse db_schema type from_seq_id limit exact must_exist filters
        w)
