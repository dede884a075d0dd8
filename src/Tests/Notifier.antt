-- ===== src/Tests/Notifier.antt =====
-- The theorem on the SQL Server notifier at a server that refuses every statement.
use store_cpp.Base.{ℕ, suc, pred, ◌≤◌, Bool, false, [], Str, codes, length, arith, List}
use store_cpp.Base.Int.{pos}
use store_cpp.Extensions.Format.{Arg}
use store_cpp.Library.Database.{Database, ok}
use store_cpp.Notifier.Scripts.{Notifier}
use store_cpp.Notifier.Client.{DbLibError, Outcome}
use store_cpp.Notifier.Thread.{System, spawn, request_stop, advance, here, next_thread, Over}
use store_cpp.Notifier.Stopping.{request_stop-Over}

abbrev refusal : Outcome
refusal = record { rc = pos 1; field_names = []; field_values = [] }

-- The world is the number of lent connections.
abbrev answering : Database DbLibError Outcome
answering = record {
  World = ℕ;
  Conn = ℕ;
  borrow = λ w. (ok 0, suc w);
  unborrow = λ c w. pred w;
  execute = λ c s w. (ok refusal, w);
  log_error = λ s w. w;
}

-- A format that ignores its arguments, and a notifier.
abbrev same_text : Str → List Arg → Str
same_text f args = f

abbrev watched : Notifier
watched = record {
  database_name = codes "d";
  schema_name = codes "dbo";
  table_name = codes "t";
  identity = codes "1f";
}

abbrev three : ℕ
three = 3

-- A callback that returns.
abbrev quiet : Str → ℕ → Bool × ℕ
quiet m w = (false, w)

-- The thread is about to receive when it is stopped, and delivers one message more.
abbrev waiting : System answering same_text watched quiet
waiting = advance answering same_text watched quiet (spawn answering same_text watched quiet three)

abbrev stopped : System answering same_text watched quiet
stopped = advance answering same_text watched quiet (
    advance answering same_text watched quiet
      (request_stop answering same_text watched quiet waiting))

request_stop-Over_example :
    Over answering same_text watched quiet stopped
    × (length stopped.delivered ≤ suc (length waiting.delivered))
request_stop-Over_example =
    request_stop-Over answering same_text watched quiet waiting 2 stopped
      (next_thread (next_thread here)) (omega arith)
