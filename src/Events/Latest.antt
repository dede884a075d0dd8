-- ===== src/Events/Latest.antt =====
-- `getMaxEvent`: of each stream the event with the greatest sequence number.
use store_cpp.Base.{
  ◌≡◌, ◌≢◌, refl, ◌⊎◌, inl, inr, true, List, [], ◌∷◌, map, Option, some, arith, Str, codes, seq,
  if◌then◌else◌, All, Within, Bool-cases, Option-cases, some_injective, sym, subst, ltb→lt, ltb→ge,
  ◌∙◌, ap,
}
use store_cpp.Base.Int.{pos, negsuc, pos_part, neg_part, ltb_ℤ, ◌≤ℤ◌}
use store_cpp.Library.Json.{JsonLib}
use store_cpp.Library.Grouping.{GroupBy, GroupByLaws, having, Distinct, has_key}
use store_cpp.Events.Event.{IEvent, ◌>>=◌}

module _ {Json : Type 0} where
  -- `ev.seqId > m.seqId ? ev : m`
  later : IEvent Json → IEvent Json → IEvent Json
  later m ev = if ltb_ℤ m.seq_id ev.seq_id then ev else m

  -- `std::accumulate`
  unfoldable pub max_event : IEvent Json → List (IEvent Json) → IEvent Json
  unfolding later
  max_event m [] = m
  max_event m (ev ∷ evs) = max_event (later m ev) evs

  later_either : (m ev : IEvent Json) → (later m ev ≡ m) ⊎ (later m ev ≡ ev)
  unfolding later
  later_either m ev = elim (Bool-cases (ltb_ℤ m.seq_id ev.seq_id)) [
    | inl e ↦ inr (rw e)
    | inr e ↦ inl (rw e)
  ]

  le-later :
      (m ev : IEvent Json) → (m.seq_id ≤ℤ (later m ev).seq_id) × (ev.seq_id ≤ℤ (later m ev).seq_id)
  unfolding later
  le-later m ev = elim (Bool-cases (ltb_ℤ m.seq_id ev.seq_id)) [
    | inl e ↦ rw e (omega (arith, ltb→lt _ _ e), omega arith)
    | inr e ↦ rw e (omega arith, omega (arith, ltb→ge _ _ e))
  ]

  max_event_within :
      (m : IEvent Json) (evs : List (IEvent Json))
      → (max_event m evs ≡ m) ⊎ Within (max_event m evs) evs
  unfolding max_event
  max_event_within m [] = inl refl
  max_event_within m (ev ∷ evs) = elim (max_event_within (later m ev) evs) [
    | inl p ↦ (elim (later_either m ev) [ inl q ↦ inl (p ∙ q) | inr q ↦ inr (inl (p ∙ q)) ])
    | inr w ↦ inr (inr w)
  ]

  le-max_event : (m : IEvent Json) (evs : List (IEvent Json)) → m.seq_id ≤ℤ (max_event m evs).seq_id
  unfolding max_event
  le-max_event m [] = omega arith
  le-max_event m (ev ∷ evs) = omega (arith, (le-later m ev).0, le-max_event (later m ev) evs)

  max_event_bounds :
      (m : IEvent Json) (evs : List (IEvent Json))
      → All (λ e. e.seq_id ≤ℤ (max_event m evs).seq_id) evs
  unfolding max_event
  max_event_bounds m [] = tt
  max_event_bounds m (ev ∷ evs) = (
    omega (arith, (le-later m ev).1, le-max_event (later m ev) evs),
    max_event_bounds (later m ev) evs,
  )

  -- The start value of the fold: `seqId` is -1; the code leaves the numbers of the others unset.
  unfoldable pub base : Json → IEvent Json
  base null = record {
    seq_id = negsuc 0;
    id = [];
    stream_id = [];
    type = [];
    version = pos 0;
    payload = null;
    timestamp = pos 0;
  }

  -- The event is one of the given, and none of them has a greater sequence number.
  pub record IsLatest (evs : List (IEvent Json)) (m : IEvent Json) : Type 0 where
    pub member : Within m evs
    pub greatest : All (λ e. e.seq_id ≤ℤ m.seq_id) evs

  -- In a stream that is not empty and has no negative sequence number the fold finds a latest event.
  max_event-IsLatest :
      (null : Json) (evs : List (IEvent Json))
      → evs ≢ []
      → All (λ e. pos 0 ≤ℤ e.seq_id) evs
      → IsLatest evs (max_event (base null) evs)
  max_event-IsLatest null [] h nonneg = absurd (h refl)
  max_event-IsLatest null (ev ∷ evs) h nonneg = elim (max_event_within (base null) (ev ∷ evs)) [
    | inr w ↦ record { member = w; greatest = max_event_bounds (base null) (ev ∷ evs) }
    | inl e ↦ absurd (
        unfold base in
        omega (
          arith,
          nonneg.0,
          (max_event_bounds (base null) (ev ∷ evs)).0,
          ap (λ q. pos_part q.seq_id) e,
          ap (λ q. neg_part q.seq_id) e,
        ))
  ]

module _ (J : JsonLib) (G : GroupBy) where
  -- The key of each event, `e.data.value("id", "")`, which throws where the data is no object.
  unfoldable pub with_keys : List (IEvent J.Json) → Option (List (Str × IEvent J.Json))
  with_keys [] = some []
  with_keys (e ∷ es) = do
    k ← J.value_str e.payload (codes "id") []
    rest ← with_keys es
    some ((k, e) ∷ rest)

  abbrev pub events_of : List (Str × IEvent J.Json) → List (IEvent J.Json)
  events_of = map (λ r. r.1)

  abbrev groups_of : List (Str × IEvent J.Json) → List (Str × List (Str × IEvent J.Json))
  groups_of = G.group_by (Str × IEvent J.Json) (λ r. r.0)

  abbrev pub group_max : Str × List (Str × IEvent J.Json) → IEvent J.Json
  group_max g = max_event (base J.null) (events_of g.1)

  unfoldable pub get_max_event : List (IEvent J.Json) → Option (List (IEvent J.Json))
  unfolding with_keys
  get_max_event events = do keyed ← with_keys events; some (map group_max (groups_of keyed))

  abbrev Nonneg : List (IEvent J.Json) → Type 0
  Nonneg = All (λ e. pos 0 ≤ℤ e.seq_id)

  abbrev NonnegKeyed : List (Str × IEvent J.Json) → Type 0
  NonnegKeyed = All (λ r. pos 0 ≤ℤ r.1.seq_id)

  with_keys-Nonneg :
      (es : List (IEvent J.Json)) (keyed : List (Str × IEvent J.Json))
      → with_keys es ≡ some keyed
      → Nonneg es
      → NonnegKeyed keyed
  unfolding with_keys
  with_keys-Nonneg [] keyed e h = subst NonnegKeyed (some_injective e) tt
  with_keys-Nonneg (x ∷ es) keyed e (h, hs) =
      elim (Option-cases (J.value_str x.payload (codes "id") [])) [
        | inl a ↦ cc (a)
        | inr (k, a) ↦ (elim (Option-cases (with_keys es)) [
          | inl b ↦ absurd (cc (a, b))
          | inr (rest, b) ↦
              let shape : (k, x) ∷ rest ≡ keyed = some_injective (sym (rw (a, b)) ∙ e) in
              subst NonnegKeyed shape (h, with_keys-Nonneg es rest b hs)
        ])
      ]

  having-NonnegKeyed :
      (k : Str) (keyed : List (Str × IEvent J.Json))
      → NonnegKeyed keyed
      → Nonneg (events_of (having (λ r. r.0) k keyed))
  having-NonnegKeyed k [] h = tt
  having-NonnegKeyed k (r ∷ keyed) (h, hs) = elim (Bool-cases (seq r.0 k)) [
    | inl e ↦ rw e (h, having-NonnegKeyed k keyed hs)
    | inr e ↦ rw e (having-NonnegKeyed k keyed hs)
  ]

  -- `ms` holds, for the keys in turn, a latest event of those with that key.
  abbrev pub AreLatest : List (Str × IEvent J.Json) → List Str → List (IEvent J.Json) → Type 0
  AreLatest keyed [] [] = Unit
  AreLatest keyed [] (m ∷ ms) = ⊥
  AreLatest keyed (k ∷ ks) [] = ⊥
  AreLatest keyed (k ∷ ks) (m ∷ ms) =
      IsLatest (events_of (having (λ r. r.0) k keyed)) m × AreLatest keyed ks ms

  events_of-ne-nil : (rs : List (Str × IEvent J.Json)) → rs ≢ [] → events_of rs ≢ []
  events_of-ne-nil [] h = absurd (h refl)
  events_of-ne-nil (r ∷ rs) h = λ e. cc

  groups-AreLatest :
      (keyed : List (Str × IEvent J.Json)) (ks : List Str)
      → NonnegKeyed keyed
      → All (λ k. having (λ r. r.0) k keyed ≢ []) ks
      → AreLatest keyed ks (map group_max (map (λ k. (k, having (λ r. r.0) k keyed)) ks))
  groups-AreLatest keyed [] h full = tt
  groups-AreLatest keyed (k ∷ ks) h (f, full) = (
    max_event-IsLatest J.null _ (events_of-ne-nil _ f) (having-NonnegKeyed k keyed h),
    groups-AreLatest keyed ks h full,
  )

  -- The keys of the groups.
  abbrev pub stream_keys : List (Str × IEvent J.Json) → List Str
  stream_keys keyed = G.keys (Str × IEvent J.Json) (λ r. r.0) keyed

  -- If the sequence numbers are not negative and `getMaxEvent` returns, its result holds one event
  -- for each key `e.data.value("id", "")`: an event with that key, and with the greatest sequence
  -- number of all events with it. The keys are distinct, and each event has one of them.
  pub get_max_event-AreLatest :
      (laws : GroupByLaws G) (events latest : List (IEvent J.Json))
      → All (λ e. pos 0 ≤ℤ e.seq_id) events
      → get_max_event events ≡ some latest
      → (keyed : List (Str × IEvent J.Json)) × (with_keys events ≡ some keyed)
        × AreLatest keyed (stream_keys keyed) latest
        × Distinct (stream_keys keyed)
        × All (λ r. has_key r.0 (stream_keys keyed) ≡ true) keyed
  unfolding get_max_event
  get_max_event-AreLatest laws events latest nonneg e = elim (Option-cases (with_keys events)) [
    | inl a ↦ absurd (cc (a))
    | inr (keyed, a) ↦
        let result : map group_max (groups_of keyed) ≡ latest = some_injective (sym (rw a) ∙ e) in
        (
          keyed,
          a,
          subst (AreLatest keyed (stream_keys keyed))
              (ap (map group_max) (sym (laws.groups _ _ keyed)) ∙ result)
              (groups-AreLatest keyed (stream_keys keyed) (with_keys-Nonneg events keyed a nonneg)
                (laws.inhabited _ _ keyed)),
          laws.distinct _ _ keyed,
          laws.covered _ _ keyed,
        )
  ]
