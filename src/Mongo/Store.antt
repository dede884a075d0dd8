-- ===== src/Mongo/Store.antt =====
-- `MongoEventStore::SaveOne` (store.storage.mongo/src/mongo_client.hpp). Each client of a collection
-- logs by itself, which the driver's log is. `dump`, the random identifiers and the clock are
-- parameters.
use store_cpp.Base.{ℕ, ◌+◌, Str, codes, []}
use store_cpp.Base.Int.{ℤ}
use store_cpp.Library.Json.{JsonLib}
use store_cpp.Events.Event
use store_cpp.Events.Event.{IEvent}
use store_cpp.Events.Stream
use store_cpp.Events.Stream.{IEventStream}
use store_cpp.Mongo.Driver.{X, pure, throw, literal, ◌>>=◌, call, parsed, Mongo}
use store_cpp.Mongo.Client.{
  Client, parse, insert_one_document, upsert_one, get_next_sequence_value, get_uid,
}

module _ (J : JsonLib) (dump : J.Json → Str) (D : Mongo) (generate_uuid : D.World → Str × D.World)
    (current_time : D.World → ℤ × D.World) where
  open D use {World, Bson}

  -- `Save`
  unfoldable pub save : {A : Type 0} → X World A
  save = throw (literal (codes "Not implemented error"))

  unfoldable pub make_bson_from_json : J.Json → X World Bson
  make_bson_from_json o = parse D (dump o)

  module _ (session : Client) where
    abbrev pub client_of : Str → Client
    client_of collection = record { database = session.database; collection = collection }

    unfoldable pub save_one_event : ℤ → Str → Str → Str → ℤ → J.Json → ℤ → X World ℕ
    save_one_event globalseq nextuid stream_id stream_type nextver stream_obj now = do
      b ← make_bson_from_json (
          Event.to_json J (record {
            seq_id = globalseq;
            id = nextuid;
            stream_id = stream_id;
            type = stream_type;
            version = nextver;
            payload = stream_obj;
            timestamp = now;
          }))
      insert_one_document D (client_of (codes "events")) (parsed b) []

    unfoldable pub save_one_event_stream : Str → Str → ℤ → ℤ → J.Json → ℤ → X World ℕ
    save_one_event_stream stream_id stream_type nextver now snapshot snapshotver = do
      b ← make_bson_from_json (
          Stream.to_json J (record {
            id = stream_id;
            type = stream_type;
            version = nextver;
            timestamp = now;
            snapshot = snapshot;
            snapshot_version = snapshotver;
          }))
      upsert_one D (client_of (codes "eventstreams")) (parsed b) stream_id []

    -- What the counters and the stream's identifier are is not tested.
    unfoldable pub save_one : Str → J.Json → X World ℕ
    save_one stream_type stream_obj = do
      new_uuid ← call generate_uuid
      stream_id ← get_uid D (client_of (codes "eventstreams")) stream_type new_uuid []
      globalseq ←
          get_next_sequence_value D (client_of (codes "events_counter")) (codes "all_events") []
      nextver ← get_next_sequence_value D (client_of (codes "events_counter")) stream_type []
      nextuid ← call generate_uuid
      now ← call current_time
      rc ← save_one_event globalseq nextuid stream_id stream_type nextver stream_obj now
      rc2 ← save_one_event_stream stream_id stream_type nextver now stream_obj nextver
      pure (0 + rc + rc2)
