-- ===== src/Pgsql/Errors.antt =====
-- What the PostgreSQL library throws, and `ErrorType` (pg_eventstore.hpp).
use store_cpp.Base.{ℕ, Bool, true, false, ◌&&◌, [], ◌∷◌, Str, codes, ◌==◌, if◌then◌else◌}

-- `ConnectionException`, `ExecutionException`, any other `std::exception`, and what is none.
pub data PgError : Type 0 where
  connection_error execution_error : Str → PgError
  standard foreign : PgError

pub data ErrorType : Type 0 where
  none connection execution unknown : ErrorType

-- `static_cast<int>`
unfoldable pub code : ErrorType → ℕ
code none = 200
code connection = 503
code execution = 400
code unknown = 500

-- A `std::exception` is caught by value, so `what()` is that of the base class.
unfoldable pub what : PgError → Str
what (connection_error m) = m
what (execution_error m) = m
what standard = codes "std::exception"
what foreign = []

unfoldable pub starts_with : Str → Str → Bool
starts_with [] s = true
starts_with (c ∷ p) [] = false
starts_with (c ∷ p) (d ∷ s) = c == d && starts_with p s

-- `unexpected_disconnection_rgx`: the pattern is anchored and plain.
unfoldable pub unexpected_disconnection : Str → Bool
unexpected_disconnection m = starts_with (codes "server closed the connection unexpectedly") m

-- The type that the `catch` clauses give to an exception.
unfoldable pub error_type : PgError → ErrorType
unfolding unexpected_disconnection
error_type (connection_error m) = connection
error_type (execution_error m) = if unexpected_disconnection m then connection else execution
error_type standard = unknown
error_type foreign = unknown
