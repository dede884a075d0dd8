-- ===== src/Events/Stream.antt =====
-- `IEventStream` and its conversions from and to JSON (eventstream.hpp).
use store_cpp.Base.{◌≡◌, refl, [], ◌∷◌, Option, none, some, Str, codes, seq}
use store_cpp.Base.{◌%◌, ◌-◌}
use store_cpp.Base.Int.{ℤ, pos, negsuc}
use store_cpp.Base.Assoc.{Assoc, lookup}
use store_cpp.Library.Json.{JsonLib, JsonLaws}
use store_cpp.Events.Event.{◌>>=◌}

pub record IEventStream (Json : Type 0) : Type 0 where
  pub id : Str
  pub type : Str
  pub version : ℤ
  pub timestamp : ℤ
  pub snapshot : Json
  pub snapshot_version : ℤ

module _ (J : JsonLib) where
  open J use {Json, null, str, int, object, value_str, value_int, value_json}

  unfoldable pub stream_fields : IEventStream Json → Assoc Json
  stream_fields p =
      (codes "id", str p.id)
      ∷ (codes "type", str p.type)
      ∷ (codes "version", int p.version)
      ∷ (codes "timestamp", int p.timestamp)
      ∷ (codes "snapshot", p.snapshot)
      ∷ (codes "snapshotVersion", int p.snapshot_version)
      ∷ []

  unfoldable pub to_json : IEventStream Json → Json
  unfolding stream_fields
  to_json p = object (stream_fields p)

  -- A `std::string` is assigned from an `int`: one byte.
  char_of_int : ℤ → Str
  char_of_int (pos n) = (n % 256) ∷ []
  char_of_int (negsuc n) = (255 - n % 256) ∷ []

  -- The default for `id` is the number 0, so `id` is read as an `int`.
  unfoldable pub from_json : Json → Option (IEventStream Json)
  unfolding char_of_int
  from_json j = do
    id ← value_int j (codes "id") (pos 0)
    type ← value_str j (codes "type") []
    version ← value_int j (codes "version") (pos 0)
    timestamp ← value_int j (codes "timestamp") (pos 0)
    snapshot ← value_json j (codes "snapshot") null
    snapshot_version ← value_int j (codes "snapshotVersion") (pos 0)
    some (record {
      id = char_of_int id;
      type = type;
      version = version;
      timestamp = timestamp;
      snapshot = snapshot;
      snapshot_version = snapshot_version;
    })

-- No written event stream is read back: `from_json` throws on every result of `to_json`.
pub from_json_stream :
    (J : JsonLib) → JsonLaws J → (p : IEventStream J.Json) → from_json J (to_json J p) ≡ none
unfolding from_json to_json stream_fields codes lookup seq
from_json_stream J laws p =
    rw (laws.value_int_text (stream_fields J p) (codes "id") p.id (pos 0) refl)
