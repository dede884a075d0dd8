-- ===== src/Events/Event.antt =====
-- `IEvent`, its conversions from and to JSON (event.hpp), and the pending list of `EventStore`
-- (eventstore.hpp).
use store_cpp.Base.{List, [], ◌∷◌, ◌++◌, Option, none, some, Str, codes}
use store_cpp.Base.Int.{ℤ, pos}
use store_cpp.Base.Assoc.{Assoc}
use store_cpp.Library.Json.{JsonLib}

pub record IEvent (Json : Type 0) : Type 0 where
  pub seq_id : ℤ
  pub id : Str
  pub stream_id : Str
  pub type : Str
  pub version : ℤ
  pub payload : Json
  pub timestamp : ℤ

-- `Event<T>` adds the model to an event.
pub record Event (Json T : Type 0) : Type 0 where
  pub base : IEvent Json
  pub model : T

infixl 5 ◌>>=◌
abbrev pub ◌>>=◌ {ℓ κ} : {A : Type ℓ} {B : Type κ} → Option A → (A → Option B) → Option B
none >>= f = none
some a >>= f = f a

module _ (J : JsonLib) where
  open J use {Json, null, str, int, object, value_str, value_int, value_json}

  unfoldable pub event_fields : IEvent Json → Assoc Json
  event_fields p =
      (codes "seqId", int p.seq_id)
      ∷ (codes "id", str p.id)
      ∷ (codes "streamId", str p.stream_id)
      ∷ (codes "type", str p.type)
      ∷ (codes "version", int p.version)
      ∷ (codes "data", p.payload)
      ∷ (codes "timestamp", int p.timestamp)
      ∷ []

  unfoldable pub to_json : IEvent Json → Json
  unfolding event_fields
  to_json p = object (event_fields p)

  -- The defaults are `int` literals, so a number is read as an `int`.
  unfoldable pub from_json : Json → Option (IEvent Json)
  from_json j = do
    seq_id ← value_int j (codes "seqId") (pos 0)
    id ← value_str j (codes "id") []
    stream_id ← value_str j (codes "streamId") []
    type ← value_str j (codes "type") []
    version ← value_int j (codes "version") (pos 0)
    payload ← value_json j (codes "data") null
    timestamp ← value_int j (codes "timestamp") (pos 0)
    some (record {
      seq_id = seq_id;
      id = id;
      stream_id = stream_id;
      type = type;
      version = version;
      payload = payload;
      timestamp = timestamp;
    })

-- `Append`: the event without its model goes to the end of the pending list.
unfoldable pub append :
    {T : Type 0} {Json : Type 0} → Event Json T → List (IEvent Json) → List (IEvent Json)
append doc pending =
    pending
    ++ record {
      seq_id = doc.base.seq_id;
      id = doc.base.id;
      stream_id = doc.base.stream_id;
      type = doc.base.type;
      version = doc.base.version;
      payload = doc.base.payload;
      timestamp = doc.base.timestamp;
    }
      ∷ []

-- `Reset`
unfoldable pub reset : {Json : Type 0} → List (IEvent Json) → List (IEvent Json)
reset pending = []
