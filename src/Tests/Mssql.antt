-- ===== src/Tests/Mssql.antt =====
-- The theorems on the SQL Server client at a counting database.
use store_cpp.Base.{ℕ, suc, pred, ◌≡◌, refl, ap, codes, List, [], ◌∷◌}
use store_cpp.Insert.{Value}
use store_cpp.Library.Database.{Database, DatabaseLaws, Result, ok, err}
use store_cpp.Mssql.{TdsError, tds_exception, execute_statement}
use store_cpp.Mssql.Laws.{report, execute_statement-lent}

-- Every statement is refused; the world is the number of lent connections.
abbrev refusal : Result TdsError ℕ
refusal = err (tds_exception (codes "refused"))

abbrev refusing : Database TdsError ℕ
refusing = record {
  World = ℕ;
  Conn = ℕ;
  borrow = λ w. (ok 0, suc w);
  unborrow = λ c w. pred w;
  execute = λ c s w. (refusal, w);
  log_error = λ s w. w;
}

abbrev refusing_laws : DatabaseLaws refusing
refusing_laws = record {
  lent = λ w. w;
  lent-borrow = λ w. refl;
  lent-unborrow = λ c w n e. ap pred e;
  lent-execute = λ c s w. refl;
  lent-log_error = λ s w. refl;
}

abbrev unchanged : ℕ → ℕ
unchanged w = w

execute_statement-lent_example :
    ((execute_statement refusing unchanged (codes "select 1") 2).0 ≡ report refusal)
    × ((execute_statement refusing unchanged (codes "select 1") 2).1 ≡ 2)
execute_statement-lent_example =
    execute_statement-lent refusing refusing_laws unchanged (codes "select 1") 0 refusal 2 3 3 refl
      refl tt

abbrev one_value : List Value
one_value = record { type_name = codes "i"; printed = codes "1" } ∷ []
