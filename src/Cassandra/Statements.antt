-- ===== src/Cassandra/Statements.antt =====
-- `BindCassParameter` and `getInsertStatement` (store.storage.cassandra/src/cassandra_base_client.hpp).
use store_cpp.Base.{
  ℕ, zero, suc, ◌-◌, Option, none, some, Bool, List, ◌∷◌, ◌++◌, get_elem?, length, Str, codes,
}
use store_cpp.Base.Int.{ℤ}
use store_cpp.Extensions.Format.{c_str}
use store_cpp.Insert.{write_fields}
use store_cpp.Cassandra.Driver.{
  M, pure, ◌>>=◌, ◌>>◌, call, step, stuck, need, Driver, Bound, bind_string, bind_bool, bind_float,
  bind_double, bind_int32, bind_int64, bind_uuid,
}

-- A parameter with its C++ type; a `float` or a `double` by its bits. `other` is a type that has no
-- overload of its own.
pub data Param : Type 0 where
  c_text text : Str → Param
  flag : Bool → Param
  single double : ℕ → Param
  int32 int64 : ℤ → Param
  uuid : Str → Param
  other : Param

-- `BindCassParameter`: the function that binds, and its argument. The general template does nothing.
unfoldable pub bound_of : Param → Option Bound
bound_of (c_text s) = some (bind_string (c_str s))
bound_of (text s) = some (bind_string (c_str s))
bound_of (flag b) = some (bind_bool b)
bound_of (single x) = some (bind_float x)
bound_of (double x) = some (bind_double x)
bound_of (int32 z) = some (bind_int32 z)
bound_of (int64 z) = some (bind_int64 z)
bound_of (uuid u) = some (bind_uuid u)
bound_of other = none

-- `while (i < fields.size() - 1) ss << "?,"` with the rounds left, and the last `?`.
unfoldable pub write_markers : ℕ → Str
write_markers zero = codes "?"
write_markers (suc n) = codes "?," ++ write_markers n

-- The loop over the names faults without a name, before `size() - 1` wraps around.
unfoldable pub surround_markers : Str → Option Str → ℕ → Option Str
surround_markers table_name none n = none
surround_markers table_name (some f) n = some (
    codes "insert into "
    ++ table_name
    ++ codes " ("
    ++ f
    ++ codes ") values "
    ++ (10 ∷ codes "(")
    ++ write_markers (n - 1)
    ++ codes ");")

unfoldable pub marked_text : Str → List Str → Option Str
unfolding surround_markers
marked_text table_name fields = surround_markers table_name (write_fields fields) (length fields)

module _ (D : Driver) where
  open D use {World, Statement, statement_new, statement_bind}

  unfoldable pub bind_option : Statement → ℕ → Option Bound → M World (Unit {0})
  bind_option s i none = pure tt
  bind_option s i (some b) = step (statement_bind s i b)

  unfoldable pub bind_cass_parameter : Statement → ℕ → Param → M World (Unit {0})
  unfolding bind_option bound_of
  bind_cass_parameter s i p = bind_option s i (bound_of p)

  -- `tuples::apply(values, i, f)`: an index past the tuple is undefined.
  unfoldable pub apply_binding : Statement → ℕ → Option Param → M World (Unit {0})
  unfolding bind_cass_parameter
  apply_binding s i none = stuck
  apply_binding s i (some p) = bind_cass_parameter s i p

  -- `while (i < fields.size())` with the rounds left.
  unfoldable pub bind_loop : Statement → List Param → ℕ → ℕ → M World (Unit {0})
  unfolding apply_binding
  bind_loop s params zero i = pure tt
  bind_loop s params (suc n) i = do
    apply_binding s i (get_elem? params i)
    bind_loop s params n (suc i)

  unfoldable pub get_insert_statement : Str → List Str → List Param → M World Statement
  unfolding marked_text bind_loop
  get_insert_statement table_name fields params = do
    sql ← need (marked_text table_name fields)
    statement ← call (statement_new sql (length fields))
    bind_loop statement params (length fields) 0
    pure statement
