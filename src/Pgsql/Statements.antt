-- ===== src/Pgsql/Statements.antt =====
-- The statements that the PostgreSQL client builds (pg_client.hpp). `none` is undefined behaviour in
-- `snprintf` or in an iterator.
use mathlib.Core.Option
use store_cpp.Base.{
  Bool, true, ◌||◌, List, [], ◌∷◌, ◌++◌, map, Option, none, some, Str, codes, text_lines, seq,
  length, pred, if◌then◌else◌,
}
use store_cpp.Base.Int.{ℤ}
use store_cpp.Extensions.Format.{Arg, str, int, c_str, string_format}
use store_cpp.Extensions.Join.{join, wrap_string}
use store_cpp.Extensions.TypeName.{resolve_type_to_string}
use store_cpp.Insert.{Value, write_fields, write_values}

-- An argument `s.c_str()`.
abbrev pub text : Str → Arg
text s = str (c_str s)

-- The argument `resolve_type_to_string<A>().c_str()`.
abbrev pub table : Str → Arg
table n = text (resolve_type_to_string n true)

quote : Str
quote = codes "'"

-- `wrapString(s, "$Q$").c_str()`
abbrev pub dollar_quoted : Str → Arg
dollar_quoted s = text (wrap_string s (codes "$Q$"))

-- The statement of `createStore`.
unfoldable pub create_table_format : Str
create_table_format = text_lines (
    "" ∷ "            create table if not exists \"%s\".\"%s\" (" ∷ "              id varchar(120),"
    ∷ "              name character varying(500),"
    ∷ "              ts timestamp with time zone default current_timestamp,"
    ∷ "              type varchar(250)," ∷ "              related varchar(120),"
    ∷ "              current jsonb," ∷ "              history jsonb,"
    ∷ "              primary key(id, type)" ∷ "            ) tablespace %s;                "
    ∷ "          " ∷ [])

-- The statement of `save` for a document.
unfoldable pub save_format : Str
save_format = text_lines (
    "" ∷ "              insert into %s.%s (id, name, ts, type, related, current)"
    ∷ "              values (%s, %s, now(), %s, %s, %s)"
    ∷ "              on conflict (id, type) do update set ts = now(), current = EXCLUDED.current, history = EXCLUDED.history"
    ∷ "            " ∷ [])

-- The statement of `createStreamId`.
unfoldable pub stream_format : Str
stream_format = text_lines (
    "" ∷ "              insert into %s.%s (id, type, version)"
    ∷ "              values ('%s', '%s', 0)" ∷ "              on conflict (id) do nothing"
    ∷ "            " ∷ [])

-- `createStore`: the two tablespaces and the statement for the table.
unfoldable pub tablespace_name : Str → Bool → Str
tablespace_name schema use_schema = if use_schema then schema else codes "pg_default"

unfoldable pub index_tablespace : Str → Bool → Str
index_tablespace schema use_schema =
    if use_schema then schema ++ codes "_idx" else codes "pg_default"

unfoldable pub create_table : Str → Str → Bool → Option Str
unfolding tablespace_name
create_table schema n use_schema =
    string_format create_table_format
      (text schema ∷ table n ∷ text (tablespace_name schema use_schema) ∷ [])

index_columns : List Str
index_columns =
    codes "name"
    ∷ codes "ts"
    ∷ codes "type"
    ∷ codes "related"
    ∷ codes "current"
    ∷ codes "history"
    ∷ []

-- The kind of index; `current` and `history` hold JSON.
index_method : Str → Str → Str
index_method name space =
    if seq name (codes "current") || seq name (codes "history")
    then codes "using gin(" ++ (name ++ (codes " jsonb_ops) tablespace " ++ space))
    else codes "using btree(" ++ (name ++ (codes ") tablespace " ++ space))

create_index : Str → Str → Str → Str → Option Str
unfolding index_method
create_index schema n space name =
    Option.map (λ s. s ++ (index_method name space ++ codes ";"))
      (string_format (codes "create index if not exists %s_%s_idx on %s.%s ")
        (table n ∷ text name ∷ text schema ∷ table n ∷ []))

concat_statements : Option Str → Option Str → Option Str
concat_statements none r = none
concat_statements (some m) none = none
concat_statements (some m) (some s) = some (m ++ s)

accumulate_indexes : Str → Str → Str → List Str → Option Str → Option Str
unfolding create_index concat_statements
accumulate_indexes schema n space [] m = m
accumulate_indexes schema n space (c ∷ cs) m =
    accumulate_indexes schema n space cs (concat_statements m (create_index schema n space c))

unfoldable pub create_indexes : Str → Str → Bool → Option Str
unfolding index_tablespace accumulate_indexes index_columns
create_indexes schema n use_schema =
    accumulate_indexes schema n (index_tablespace schema use_schema) index_columns (some [])

-- A document's fields and its dump, written by `save`.
pub record Document : Type 0 where
  pub id : Str
  pub name : Str
  pub type : Str
  pub related : Str
  pub dump : Str

unfoldable pub save_statement : Str → Str → Document → Option Str
save_statement version n d = string_format save_format (
    text version
    ∷ table n
    ∷ dollar_quoted d.id
    ∷ dollar_quoted d.name
    ∷ dollar_quoted d.type
    ∷ dollar_quoted d.related
    ∷ dollar_quoted d.dump
    ∷ [])

unfoldable pub stream_statement : Str → Str → Str → Option Str
stream_statement db_schema type id =
    string_format stream_format
      (text db_schema ∷ text (codes "mt_streams") ∷ text id ∷ text type ∷ [])

surround : Str → Option Str → Option Str → Option Str
surround head none vs = none
surround head (some fs) none = none
surround head (some fs) (some vs) =
    some (head ++ (fs ++ (codes ") values \n(" ++ (vs ++ codes ");"))))

-- `insertOne`. The table name stands without its NUL bytes, as `c_str()` is written.
unfoldable pub insert_statement : Str → Str → List Str → List Value → Option Str
unfolding surround
insert_statement version n fields values =
    surround
      (codes "insert into "
        ++ (version ++ (codes "." ++ (c_str (resolve_type_to_string n true) ++ codes " ("))))
      (write_fields fields) (write_values values (pred (length fields)) 0)

-- The default query of `list`.
unfoldable pub list_query : Str
list_query = codes "select current from %s.%s order by current->>'%s' %s offset %d limit %d"

-- `list`: the query is the format of `string_format`, also where `search`, `collect` and `one` pass a
-- query that is formatted already.
unfoldable pub list_statement : Str → Str → Str → Str → Str → ℤ → ℤ → Option Str
list_statement query version n sort_key sort_direction offset limit =
    string_format query
      (text version ∷ table n ∷ text sort_key ∷ text sort_direction ∷ int offset ∷ int limit ∷ [])

-- `type.size() > 0 ? wrapString(type) : "null"`
unfoldable pub type_filter : Str → Str
unfolding quote
type_filter [] = codes "null"
type_filter (c ∷ type) = wrap_string (c ∷ type) quote

unfoldable pub search_format : Str
search_format =
    codes
      "select current from %s.%s where current->>'%s' %s '%s' and type = coalesce(%s, type) order by current->>'%s' %s offset %d limit %d"

unfoldable pub search_query : Str → Str → Str → Str → Str → ℤ → ℤ → Str → Str → Bool → Option Str
unfolding type_filter
search_query version n field search type offset limit sort_key sort_direction exact =
    string_format search_format (
      text version
      ∷ table n
      ∷ text field
      ∷ text (if exact then codes "=" else codes "~*")
      ∷ text search
      ∷ text (type_filter type)
      ∷ text sort_key
      ∷ text sort_direction
      ∷ int offset
      ∷ int limit
      ∷ [])

unfoldable pub collect_query : Str → Str → Str → Str → List Str → Option Str
unfolding quote
collect_query version n field type keys =
    string_format (codes "select current from %s.%s where type = '%s' and %s in (%s) order by %s") (
      text version
      ∷ table n
      ∷ text type
      ∷ text field
      ∷ text (join (map (λ s. wrap_string s quote) keys) (codes ","))
      ∷ text field
      ∷ [])

unfoldable pub one_query : Str → Str → Str → Str → Str → Option Str
unfolding type_filter
one_query version n field search type =
    string_format
      (codes
        "select current from %s.%s where current->>'%s' = '%s' and type = coalesce(%s, type) limit 1")
      (text version ∷ table n ∷ text field ∷ text search ∷ text (type_filter type) ∷ [])

search_filter : Str → Str
search_filter [] = []
search_filter (c ∷ s) = codes " and " ++ (c ∷ s)

unfoldable pub count_query : Str → Str → Str → Str → Option Str
unfolding type_filter search_filter
count_query version n type search =
    string_format (codes "select count(1) result from %s.%s where type = coalesce(%s, type) %s")
      (text version ∷ table n ∷ text (type_filter type) ∷ text (search_filter search) ∷ [])
