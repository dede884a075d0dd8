-- ===== src/Pgsql/Query.antt =====
-- `list` and what is built on it, and the methods that run a built statement through `save`
-- (pg_client.hpp). The outer `none` is undefined behaviour.
use mathlib.Core.Option
use store_cpp.Base.{Bool, true, false, List, [], ◌∷◌, Option, none, some, Str, codes, length}
use store_cpp.Base.Int.{ℤ, pos}
use store_cpp.Extensions.Trim.{strip_soh}
use store_cpp.Extensions.Format.{c_str}
use store_cpp.Library.Database.{Database, Result, ok, err, attempt, give_back, then_do}
use store_cpp.Pgsql.Errors.{PgError, foreign, standard, what}
use store_cpp.Pgsql.Statements.{list_statement, search_query, collect_query, one_query}

-- What the reading of the rows comes to: undefined behaviour, or the objects that were made, and
-- whether an exception stopped it.
pub data Loaded (U : Type 0) : Type 0 where
  undefined : Loaded U
  loaded : List U → Bool → Loaded U

-- The row's text as JSON, without a leading SOH byte; `parse` returns `none` where it throws.
pub data Parsed (Json : Type 0) : Type 0 where
  undefined thrown : Parsed Json
  parsed : List Json → Parsed Json

module _ {Json U : Type 0} (parse : Str → Option Json) (convert : Json → Option U) where
  add_parsed : Option Json → Parsed Json → Parsed Json
  add_parsed none r = thrown
  add_parsed (some j) undefined = undefined
  add_parsed (some j) thrown = thrown
  add_parsed (some j) (parsed js) = parsed (j ∷ js)

  parse_row : Option Str → Parsed Json → Parsed Json
  unfolding add_parsed
  parse_row none r = undefined
  parse_row (some s) r = add_parsed (parse s) r

  -- `for (auto &row : resp) jsons.push_back(json::parse(strip_soh(row.as<string>(0))));`
  parse_rows : List Str → Parsed Json
  unfolding parse_row
  parse_rows [] = parsed []
  parse_rows (r ∷ rows) = parse_row (strip_soh r) (parse_rows rows)

  add_converted : Option U → Loaded U → Loaded U
  add_converted none r = loaded [] true
  add_converted (some u) undefined = undefined
  add_converted (some u) (loaded us failed) = loaded (u ∷ us) failed

  -- `for_each(…, { U o = j; pocos.push_back(move(o)); })`
  convert_all : List Json → Loaded U
  unfolding add_converted
  convert_all [] = loaded [] false
  convert_all (j ∷ js) = add_converted (convert j) (convert_all js)

  load_parsed : Parsed Json → Loaded U
  unfolding convert_all
  load_parsed undefined = undefined
  load_parsed thrown = loaded [] true
  load_parsed (parsed js) = convert_all js

  unfoldable pub load_rows : List Str → Loaded U
  unfolding load_parsed parse_rows
  load_rows rows = load_parsed (parse_rows rows)

module _ {Reply U : Type 0} (D : Database PgError Reply) where
  open D use {World, Conn, log_error}

  unfoldable pub finish_list :
      Option Conn → Result PgError (Loaded U) → World → Option (Result PgError (List U) × World)
  finish_list conn (ok undefined) w = none
  finish_list conn (ok (loaded us false)) w = some (ok us, give_back D conn w)
  finish_list conn (ok (loaded us true)) w =
      some (ok us, give_back D conn (log_error (what standard) w))
  finish_list conn (err foreign) w = some (err foreign, w)
  finish_list conn (err x) w = some (ok [], give_back D conn (log_error (what x) w))

module _ {Reply Json U : Type 0} (D : Database PgError Reply) (rows : Reply → List Str)
    (parse : Str → Option Json) (convert : Json → Option U) where
  open D use {World, Conn, execute}

  unfoldable pub run_list : Str → World → Option (Result PgError (List U) × World)
  unfolding finish_list load_rows
  run_list sql w =
      let t =
        attempt D
          (λ c w1.
            then_do D (execute c (c_str sql) w1)
              (λ r w2. (ok (load_rows parse convert (rows r)), w2)))
          w in
      finish_list D t.conn t.result t.after

  if_defined :
      Option Str
      → (Str → Option (Result PgError (List U) × World))
      → Option (Result PgError (List U) × World)
  if_defined none f = none
  if_defined (some s) f = f s

  unfoldable pub list :
      Str → Str → ℤ → ℤ → Str → Str → Str → World → Option (Result PgError (List U) × World)
  unfolding if_defined
  list version n offset limit sort_key sort_direction query w =
      if_defined (list_statement query version n sort_key sort_direction offset limit)
        (λ sql. run_list sql w)

  unfoldable pub search :
      Str
      → Str
      → Str
      → Str
      → Str
      → ℤ
      → ℤ
      → Str
      → Str
      → Bool
      → World
      → Option (Result PgError (List U) × World)
  unfolding if_defined
  search version n field value type offset limit sort_key sort_direction exact w =
      if_defined
        (search_query version n field value type offset limit sort_key sort_direction exact)
        (λ q. list version n offset limit sort_key sort_direction q w)

  unfoldable pub collect :
      Str → Str → Str → Str → List Str → World → Option (Result PgError (List U) × World)
  unfolding if_defined
  collect version n field type keys w =
      if_defined (collect_query version n field type keys)
        (λ q. list version n (pos 0) (pos (length keys)) (codes "id") (codes "ASC") q w)

  -- The first of the list, or the null pointer.
  first : List U → Option U
  first [] = none
  first (u ∷ us) = some u

  first_of_result : Result PgError (List U) × World → Result PgError (Option U) × World
  unfolding first
  first_of_result (ok us, w) = (ok (first us), w)
  first_of_result (err x, w) = (err x, w)

  unfoldable pub one :
      Str → Str → Str → Str → Str → World → Option (Result PgError (Option U) × World)
  unfolding first_of_result if_defined
  one version n field value type w = Option.map first_of_result (
      if_defined (one_query version n field value type)
        (λ q. list version n (pos 0) (pos 1) (codes "id") (codes "ASC") q w))
