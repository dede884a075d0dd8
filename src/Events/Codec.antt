-- ===== src/Events/Codec.antt =====
-- What an event is after a round through JSON.
use store_cpp.Base.{
  [], some_injective, ◌↔◌, sym, ap, subst, ◌≡◌, refl, some, arith, codes, seq, ◌∙◌,
}
use store_cpp.Base.Int.{pos, to_int32, FitsInt32, to_int32_fits, to_int32-FitsInt32}
use store_cpp.Base.Assoc.{lookup}
use store_cpp.Library.Json.{JsonLib, JsonLaws}
use store_cpp.Events.Event.{IEvent, event_fields, to_json, from_json}

-- The event with its three numbers cast to `int`.
pub narrowed : {Json : Type 0} → IEvent Json → IEvent Json
narrowed p = record p {
  seq_id = to_int32 p.seq_id;
  version = to_int32 p.version;
  timestamp = to_int32 p.timestamp;
}

module _ (J : JsonLib) (laws : JsonLaws J) (p : IEvent J.Json) where
  -- Reading back a written event gives the event with `seqId`, `version` and `timestamp` cut to 32
  -- bits.
  pub from_json-to_json : from_json J (to_json J p) ≡ some (narrowed p)
  unfolding from_json to_json event_fields narrowed codes lookup seq
  from_json-to_json =
      let m = event_fields J p in
      ground (
        arith,
        laws.value_int_found m (codes "seqId") p.seq_id (pos 0) refl,
        laws.value_str_found m (codes "id") p.id [] refl,
        laws.value_str_found m (codes "streamId") p.stream_id [] refl,
        laws.value_str_found m (codes "type") p.type [] refl,
        laws.value_int_found m (codes "version") p.version (pos 0) refl,
        laws.value_json_found m (codes "data") p.payload J.null refl,
        laws.value_int_found m (codes "timestamp") p.timestamp (pos 0) refl,
      )

  -- The round trip returns the event itself exactly when its three numbers fit in 32 bits.
  pub from_json-to_json_exact :
      (from_json J (to_json J p) ≡ some p)
      ↔ (FitsInt32 p.seq_id × FitsInt32 p.version × FitsInt32 p.timestamp)
  unfolding narrowed
  from_json-to_json_exact = (
    λ e.
        let same : narrowed p ≡ p = some_injective (sym from_json-to_json ∙ e) in
        (
          subst FitsInt32 (ap (λ q. q.seq_id) same) (to_int32-FitsInt32 p.seq_id),
          subst FitsInt32 (ap (λ q. q.version) same) (to_int32-FitsInt32 p.version),
          subst FitsInt32 (ap (λ q. q.timestamp) same) (to_int32-FitsInt32 p.timestamp),
        ),
    λ (a, b, c).
        from_json-to_json
        ∙ rw (to_int32_fits p.seq_id a, to_int32_fits p.version b, to_int32_fits p.timestamp c),
  )
