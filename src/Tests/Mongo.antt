-- ===== src/Tests/Mongo.antt =====
-- The theorems on the Mongo client at a server whose one counter is the world.
use store_cpp.Base.{ℕ, ◌+◌, refl, true, none, [], ◌∷◌, codes, arith}
use store_cpp.Base.Int.{pos}
use store_cpp.Library.Database.{Result, ok, err}
use store_cpp.Mongo.Driver.{
  Thrown, exception, Mongo, Field, int64_field, Document, built, parsed, try_catch, caught,
  continue, pure, ◌>>=◌, ◌>>◌,
}
use store_cpp.Mongo.Client.{
  Client, insert, insert_one_document, insert_one_text, upsert, upsert_one, upsert_text,
  get_next_sequence_value, get_uid, chosen, counter_filter, counter_update, read_sequence_value,
  acquire, check_client, check_instance,
}
use store_cpp.Mongo.Escapes.{MongoStandard, OnlyNoClient, OnlyParser, operations-Escapes}
use store_cpp.Mongo.Versions.{Counter, Draws, unused, others, drawn, Increasing, Draws-Increasing}

-- The number that `$inc` adds.
abbrev increment : Field ℕ → ℕ
increment (int64_field k (pos n)) = n
increment _ = 0

abbrev step_of : Document ℕ → ℕ
step_of (built ((k, f) ∷ fs)) = increment f
step_of _ = 0

abbrev one_counter : Mongo
one_counter = record {
  World = ℕ;
  Bson = ℕ;
  from_json = λ s. err (exception s);
  has_instance = true;
  try_get_connection = λ w. (ok true, w);
  insert_one = λ d c doc w. (err (exception (codes "full")), w);
  replace_one = λ d c id doc w. (ok tt, w);
  find_one_and_update = λ d c filter update w. (ok (step_of update + w), step_of update + w);
  get_int64 = λ doc k. ok (pos doc);
  find_id = λ d c t w. (ok none, w);
  now = λ w. (pos 0, w);
  log_error = λ s w. w;
}

abbrev refused : Result Thrown ℕ
refused = err (exception (codes "{"))

abbrev standard : MongoStandard one_counter
standard = record {
  registered = refl;
  parses = λ text. tt;
  connects = λ w. tt;
  inserts = λ d c doc w. tt;
  replaces = λ d c id doc w. tt;
  updates = λ d c filter update w. tt;
  reads = λ doc key. tt;
  finds = λ d c t w. tt;
}

abbrev session : Client
session = record { database = codes "d"; collection = codes "c" }

operations-Escapes_example :
    OnlyNoClient (insert_one_document one_counter session (parsed 0) [] 4).0
    × OnlyNoClient (upsert_one one_counter session (parsed 0) (codes "i") [] 4).0
    × OnlyNoClient (get_next_sequence_value one_counter session (codes "i") [] 4).0
    × OnlyNoClient (get_uid one_counter session (codes "t") (codes "u") [] 4).0
    × OnlyParser refused (insert one_counter session (codes "t") (codes "{") [] 4).0
    × OnlyParser refused (insert_one_text one_counter session (codes "{") [] 4).0
    × OnlyParser refused (upsert one_counter session (codes "t") (codes "{") (codes "i") [] 4).0
    × OnlyParser refused (upsert_text one_counter session (codes "{") (codes "i") [] 4).0
operations-Escapes_example =
    operations-Escapes one_counter standard session (parsed 0) (codes "i") (codes "t") (codes "u")
      [] (codes "{") 4

abbrev world_counter : Counter one_counter (codes "d") (chosen session []) (codes "i")
world_counter = record {
  value = λ w. w;
  incremented = λ step w. (refl, refl);
  connected = λ w. refl;
  logged = λ m w. refl;
}

-- Two numbers, and between them another client's.
session-Draws : Draws one_counter session [] (codes "i") world_counter (7 ∷ 5 ∷ []) 7
unfolding get_next_sequence_value counter_filter counter_update read_sequence_value acquire
    check_client check_instance try_catch caught continue pure ◌>>=◌ ◌>>◌ codes
session-Draws = drawn (others 6 (drawn (unused 4)) (omega arith))

Draws-Increasing_example : Increasing (7 ∷ 5 ∷ [])
Draws-Increasing_example =
    Draws-Increasing one_counter session [] (codes "i") world_counter (7 ∷ 5 ∷ []) 7 session-Draws
