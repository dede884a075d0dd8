-- ===== src/Mssql/Laws.antt =====
-- `execute` and `insertOne` of `MsSqlBaseClient` (mssql_base_client.hpp): reports and connections.
use store_cpp.Base.{
  ℕ, suc, ◌≡◌, refl, sym, ap, ap₂, ◌∙◌, subst, List, ◌∷◌, ◌++◌, map, take, some, Str, codes, length,
  ◌-◌, ◌≤◌, arith,
}
use store_cpp.Insert.{Value, write_values, format_value}
use store_cpp.Insert.Shape.{write_fields-intercalate, write_values-intercalate}
use store_cpp.Extensions.Join.{intercalate}
use store_cpp.Library.Database.{
  Database, DatabaseLaws, Result, ok, err, attempt, lent_by, give_back-lent,
}
use store_cpp.Mssql.{
  TdsError, tds_exception, other, Report, finish_execute, execute_statement, insert_text,
  surround_insert, execute_text, insert_one,
}

-- What a statement that the library answered or refused is reported as.
abbrev pub report : {Reply : Type 0} → Result TdsError Reply → Result TdsError Report
report (ok r) = ok (record { success = 1; message = codes "Succeeded" })
report (err (tds_exception m)) = ok (record { success = 0; message = m })
report (err other) = err other

abbrev pub Caught : {Reply : Type 0} → Result TdsError Reply → Type 0
Caught (ok r) = Unit
Caught (err (tds_exception m)) = Unit
Caught (err other) = ⊥

module _ {Reply : Type 0} (D : Database TdsError Reply) (laws : DatabaseLaws D)
    (unborrow_null : D.World → D.World) where
  open D use {World, Conn, execute, log_error}
  open laws use {lent, lent-execute, lent-log_error}

  finish_execute-lent :
      (c : Conn) (r : Result TdsError Reply) (w : World) (n : ℕ)
      → lent w ≡ suc n
      → Caught r
      → ((finish_execute D unborrow_null (some c) r w).0 ≡ report r)
        × (lent (finish_execute D unborrow_null (some c) r w).1 ≡ n)
  unfolding finish_execute
  finish_execute-lent c (ok r) w n h k = (refl, give_back-lent D laws (some c) w n h)
  finish_execute-lent c (err (tds_exception m)) w n h k =
      (refl, laws.lent-unborrow c (log_error m w) n (lent-log_error m w ∙ h))
  finish_execute-lent c (err other) w n h k = absurd k

  execute_statement-finish_execute :
      (sql : Str) (c : Conn) (r : Result TdsError Reply) (w w1 w2 : World)
      → D.borrow w ≡ (ok c, w1)
      → execute c sql w1 ≡ (r, w2)
      → execute_statement D unborrow_null sql w ≡ finish_execute D unborrow_null (some c) r w2
  unfolding execute_statement attempt
  execute_statement-finish_execute sql c r w w1 w2 hb he = simp (hb, he)

  lent_once :
      (sql : Str) (c : Conn) (r : Result TdsError Reply) (w w1 w2 : World)
      → D.borrow w ≡ (ok c, w1)
      → execute c sql w1 ≡ (r, w2)
      → lent w2 ≡ suc (lent w)
  lent_once sql c r w w1 w2 hb he =
      sym (ap (λ (x : Result TdsError Reply × World). lent x.1) he)
      ∙ lent-execute c sql w1
      ∙ sym (ap (λ (x : Result TdsError Conn × World). lent x.1) hb)
      ∙ laws.lent-borrow w
      ∙ ap (λ (x : Result TdsError Conn × World). lent_by x.0 (lent w)) hb

  -- A statement on a borrowed connection whose library call returns or throws a TDS exception is
  -- reported by its outcome, with the exception's message, and the connection is given back.
  pub execute_statement-lent :
      (sql : Str) (c : Conn) (r : Result TdsError Reply) (w w1 w2 : World)
      → D.borrow w ≡ (ok c, w1)
      → execute c sql w1 ≡ (r, w2)
      → Caught r
      → ((execute_statement D unborrow_null sql w).0 ≡ report r)
        × (lent (execute_statement D unborrow_null sql w).1 ≡ lent w)
  execute_statement-lent sql c r w w1 w2 hb he k =
      subst (λ (x : Result TdsError Report × World). (x.0 ≡ report r) × (lent x.1 ≡ lent w))
        (sym (execute_statement-finish_execute sql c r w w1 w2 hb he))
        (finish_execute-lent c r w2 (lent w) (lent_once sql c r w w1 w2 hb he) k)

  -- `insertOne` with a field, and at least as many values as fields, runs one statement: the fields
  -- and the formatted values, each with commas between them.
  insert_one-execute_statement :
      (schema table_name f : Str) (fields : List Str) (values : List Value) (w : World)
      → length (f ∷ fields) ≤ length values
      → insert_one D unborrow_null schema table_name (f ∷ fields) values w
        ≡ some (
            execute_statement D unborrow_null
              (codes "insert into "
                ++ schema
                ++ codes "."
                ++ table_name
                ++ codes " ("
                ++ intercalate (codes ",") (f ∷ fields)
                ++ codes ") values "
                ++ (10 ∷ codes "(")
                ++ intercalate (codes ",") (map format_value (take (length (f ∷ fields)) values))
                ++ codes ");")
              w)
  unfolding insert_one execute_text insert_text surround_insert
  insert_one-execute_statement schema table_name f fields values w h =
      let rounds : length (f ∷ fields) - 1 ≡ length fields = omega arith in
      ap₂
        (λ names texts.
          execute_text D unborrow_null
            (surround_insert D unborrow_null schema table_name names texts) w)
        (write_fields-intercalate (f ∷ fields) (λ e. cc))
        (ap (λ n. write_values values n 0) rounds
          ∙ write_values-intercalate values (length fields) 0 (omega (arith, h)))
