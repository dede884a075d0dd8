-- ===== src/Pgsql/Listing.antt =====
-- `list` (pg_client.hpp): its connection, and its statement for a query that is formatted twice.
use store_cpp.Base.{
  subst, ◌≡◌, ◌≢◌, refl, true, false, List, [], ◌∷◌, ◌++◌, Option, none, some, Str, codes, arith,
  ◌∙◌, ap, All,
}
use store_cpp.Base.Int.{ℤ}
use store_cpp.Extensions.Format.{
  c_str, string_format_plain, IsPlain, string_format-append, string_format_text, put,
}
use store_cpp.Library.Database.{
  Database, DatabaseLaws, Result, ok, err, attempt, then_do, held, attempt-lent, give_back-lent,
}
use store_cpp.Pgsql.Errors.{PgError, connection_error, execution_error, standard, foreign}
use store_cpp.Pgsql.Session.{Returned, then_do-Keeps}
use store_cpp.Pgsql.Statements.{list_statement}
use store_cpp.Pgsql.Query.{Loaded, undefined, loaded, finish_list, run_list, load_rows}

c_str_plain : (s : Str) → IsPlain s → c_str s ≡ s
unfolding c_str
c_str_plain [] h = refl
c_str_plain (c ∷ s) (h, hs) = ground (arith, c_str_plain s hs)

no_percent : (s : Str) → IsPlain s → All (λ c. c ≢ b'%') s
no_percent [] h = tt
no_percent (c ∷ s) (h, hs) = (h.0, no_percent s hs)

-- A query without `%` and NUL is the statement that `list` runs, whatever the other arguments.
pub list_statement_plain :
    (query version n sort_key sort_direction : Str) (offset limit : ℤ)
    → IsPlain query
    → list_statement query version n sort_key sort_direction offset limit ≡ some query
unfolding list_statement
list_statement_plain query version n sort_key sort_direction offset limit h =
    string_format_plain query _ (no_percent query h) ∙ ap some (c_str_plain query h)

-- Where a query holds `%s` between two texts without `%` and NUL, as the text searched for may,
-- `list` puts the version, up to its first NUL, in its place.
pub list_statement_directive :
    (before behind version n sort_key sort_direction : Str) (offset limit : ℤ)
    → IsPlain before
    → IsPlain behind
    → list_statement
        (before ++ (codes "%s" ++ behind))
        version
        n
        sort_key
        sort_direction
        offset
        limit
      ≡ some (before ++ (c_str version ++ behind))
unfolding list_statement
list_statement_directive before behind version n sort_key sort_direction offset limit h k =
    string_format-append before _ _ h
    ∙ ap (put before) (
        string_format_text behind (c_str version) _
        ∙ ap (put (c_str version))
            (string_format_plain behind _ (no_percent behind k) ∙ ap some (c_str_plain behind k)))

module _ {Reply U : Type 0} (D : Database PgError Reply) (laws : DatabaseLaws D) where
  open D use {World, Conn, log_error}
  open laws use {lent, lent-log_error}

  -- A call that returned has given back what it borrowed.
  abbrev pub Kept : World → Option (Result PgError (List U) × World) → Type 0
  Kept w none = Unit
  Kept w (some (r, v)) = Returned r → lent v ≡ lent w

  pub finish_list-Kept :
      (conn : Option Conn) (r : Result PgError (Loaded U)) (w v : World)
      → lent v ≡ held D laws conn (lent w)
      → Kept w (finish_list D conn r v)
  unfolding finish_list
  finish_list-Kept conn (ok undefined) w v h = tt
  finish_list-Kept conn (ok (loaded us false)) w v h = λ r. give_back-lent D laws conn v (lent w) h
  finish_list-Kept conn (ok (loaded us true)) w v h =
      λ r. give_back-lent D laws conn (log_error _ v) (lent w) (lent-log_error _ v ∙ h)
  finish_list-Kept conn (err foreign) w v h = λ r. absurd r
  finish_list-Kept conn (err (connection_error m)) w v h =
      λ r. give_back-lent D laws conn (log_error _ v) (lent w) (lent-log_error _ v ∙ h)
  finish_list-Kept conn (err (execution_error m)) w v h =
      λ r. give_back-lent D laws conn (log_error _ v) (lent w) (lent-log_error _ v ∙ h)
  finish_list-Kept conn (err standard) w v h =
      λ r. give_back-lent D laws conn (log_error _ v) (lent w) (lent-log_error _ v ∙ h)

module _ {Reply Json U : Type 0} (D : Database PgError Reply) (laws : DatabaseLaws D)
    (rows : Reply → List Str) (parse : Str → Option Json) (convert : Json → Option U) where
  open D use {World, execute}

  -- Reading the rows lends no connection, so `list` gives back its own whether rows are read, or
  -- the statement, a row's text or an object is refused.
  run_list-Kept : (sql : Str) (w : World) → Kept D laws w (run_list D rows parse convert sql w)
  unfolding run_list
  run_list-Kept sql w =
      let t =
        attempt D
          (λ c w1.
            then_do D (execute c (c_str sql) w1)
              (λ r w2. (ok (load_rows parse convert (rows r)), w2)))
          w in
      finish_list-Kept D laws t.conn t.result w t.after
        (attempt-lent D laws _ w (then_do-Keeps D laws (c_str sql) _ (λ r v. refl)))

  -- When `list` returns, its connection is given back, whether rows were read, or the statement, a
  -- row's text or an object was refused.
  run_list-lent :
      (sql : Str) (w v : World) (r : Result PgError (List U))
      → run_list D rows parse convert sql w ≡ some (r, v)
      → Returned r
      → laws.lent v ≡ laws.lent w
  run_list-lent sql w v r e = subst (Kept D laws w) e (run_list-Kept sql w)
