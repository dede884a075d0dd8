-- ===== src/Tests/Common.antt =====
-- The theorems on the helpers, the events and the container at concrete inputs.
use store_cpp.Base.{
  ℕ, ◌≡◌, ◌≢◌, ◌<◌, ◌↔◌, refl, true, Bool-cases, inl, inr, subst, some_injective, some, Str, codes,
  seq, List, [], ◌∷◌, All, if◌then◌else◌, arith,
}
use store_cpp.Base.Int.{pos, FitsInt32}
use store_cpp.Base.Assoc.{Assoc, lookup}
use store_cpp.Insert.{Value}
use store_cpp.Library.Grouping.{Distinct, has_key}
use store_cpp.Events.Event.{IEvent, to_json, from_json}
use store_cpp.Events.Codec.{from_json-to_json_exact}
use store_cpp.Events.Latest.{
  get_max_event, with_keys, max_event, base, AreLatest, stream_keys, get_max_event-AreLatest,
}
use store_cpp.Events.Stream.{IEventStream}
use store_cpp.Ioc.{Container, empty}
use store_cpp.Ioc.Build.{get_instance, Returns, Ranked, WellTyped, get_instance-Returns}
use store_cpp.Tests.Plain.{
  plain_json, plain_json_laws, text_value, object_value, field_then, no_fields, null_value,
}
use store_cpp.Tests.Groups.{plain_groups, plain_groups_laws}

abbrev scoped : Str
scoped = 97 ∷ 58 ∷ 58 ∷ 66 ∷ []

abbrev now_event : IEvent (plain_json.Json)
now_event = record {
  seq_id = pos 3;
  id = codes "e";
  stream_id = codes "s";
  type = codes "t";
  version = pos 1;
  payload = object_value (field_then (codes "id") (text_value (codes "x")) no_fields);
  timestamp = pos 1577836800000;
}

from_json-to_json_exact_example :
    (from_json plain_json (to_json plain_json now_event) ≡ some now_event)
    ↔ (FitsInt32 (pos 3) × FitsInt32 (pos 1) × FitsInt32 (pos 1577836800000))
from_json-to_json_exact_example = from_json-to_json_exact plain_json plain_json_laws now_event

abbrev later_event : IEvent (plain_json.Json)
later_event = record now_event { seq_id = pos 5 }

latest_of_two :
    get_max_event plain_json plain_groups (now_event ∷ later_event ∷ []) ≡ some (later_event ∷ [])
unfolding get_max_event with_keys max_event base has_key codes seq
latest_of_two = refl

get_max_event-AreLatest_example :
    (keyed : List (Str × IEvent (plain_json.Json))) × (with_keys plain_json plain_groups
        (now_event ∷ later_event ∷ [])
      ≡ some keyed)
    × AreLatest plain_json plain_groups keyed
        (stream_keys plain_json plain_groups keyed)
        (later_event ∷ [])
    × Distinct (stream_keys plain_json plain_groups keyed)
    × All (λ r. has_key r.0 (stream_keys plain_json plain_groups keyed) ≡ true) keyed
get_max_event-AreLatest_example =
    get_max_event-AreLatest plain_json plain_groups plain_groups_laws (now_event ∷ later_event ∷ [])
      (later_event ∷ []) (omega arith, (omega arith, tt)) latest_of_two

abbrev a_stream : IEventStream (plain_json.Json)
a_stream = record {
  id = codes "s";
  type = codes "t";
  version = pos 1;
  timestamp = pos 2;
  snapshot = null_value;
  snapshot_version = pos 0;
}

-- A type `b` whose constructor takes an `a`.
abbrev b_name : Str
b_name = 98 ∷ []

abbrev a_name : Str
a_name = 97 ∷ []

abbrev creators : Assoc (List Str)
creators = (b_name, a_name ∷ []) ∷ (a_name, []) ∷ []

abbrev maker : Container
maker = record empty { creator_map = creators }

abbrev rank : Str → ℕ
rank t = if seq b_name t then 1 else 0

no_instances : WellTyped []
unfolding lookup
no_instances t h e = cc

creators-Ranked : Ranked rank creators
unfolding lookup seq
creators-Ranked t deps = elim (Bool-cases (seq b_name t)) [
  | inl e ↦ rw e (λ h. subst (All (λ d. rank d < 1)) (some_injective h) (omega arith, tt))
  | inr e ↦ rw e (elim (Bool-cases (seq a_name t)) [
    | inl f ↦ rw f (λ h. subst (All (λ d. rank d < 0)) (some_injective h) tt)
    | inr f ↦ rw f (λ h. cc)
  ])
]

get_instance-Returns_example : Returns (get_instance 2 b_name maker) maker
unfolding seq
get_instance-Returns_example =
    get_instance-Returns rank [] creators no_instances creators-Ranked 2 b_name maker (omega arith)
      refl refl

abbrev pair : List Value
pair =
    record { type_name = codes "i"; printed = codes "1" }
    ∷ record { type_name = codes "PKc"; printed = codes "x" }
    ∷ []

b-ne : b_name ≢ []
b-ne = λ e. cc
