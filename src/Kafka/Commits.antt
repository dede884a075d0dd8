-- ===== src/Kafka/Commits.antt =====
-- Which messages are committed (`createDispatcher` of store.storage.kafka/src/kafka_base_client.hpp).
use store_cpp.Base.{
  ◌≡◌, refl, sym, ap, ◌∙◌, Bool, true, false, Str, List, [], ◌∷◌, ◌++◌, append_assoc, append-nil,
}
use store_cpp.Kafka.{
  KafkaLib, Event, message, failed, end_of_file, interrupted, Dispatched, stopped, escaped, polling,
  on_signal, after_commit, after_func, dispatch,
}

-- The messages that come before the signal.
unfoldable pub messages : {M : Type 0} → List (Event M) → List M
messages [] = []
messages (message m ∷ es) = m ∷ messages es
messages (failed e ∷ es) = messages es
messages (end_of_file p ∷ es) = messages es
messages (interrupted ∷ es) = []

-- What the callback was given and what was committed; a commit that throws commits nothing.
pub record CommitLaws (K : KafkaLib) (s : K.Session) (func : K.Message → K.World → Bool × K.World)
    : Type 0 where
  pub handled : K.World → List K.Message
  pub committed : K.World → List K.Message
  pub handled-func : (m : K.Message) (w : K.World) → handled (func m w).1 ≡ handled w ++ (m ∷ [])
  pub committed-func : (m : K.Message) (w : K.World) → committed (func m w).1 ≡ committed w
  pub handled-commit : (m : K.Message) (w : K.World) → handled (K.commit s m w).1 ≡ handled w
  pub committed-commit :
      (m : K.Message) (w w' : K.World)
      → K.commit s m w ≡ (false, w')
      → committed w' ≡ committed w ++ (m ∷ [])
  pub not_committed :
      (m : K.Message) (w w' : K.World) → K.commit s m w ≡ (true, w') → committed w' ≡ committed w
  pub handled-error : (t : Str) (w : K.World) → handled (K.error t w) ≡ handled w
  pub committed-error : (t : Str) (w : K.World) → committed (K.error t w) ≡ committed w
  pub handled-on_signal : (w : K.World) → handled (on_signal K s w) ≡ handled w
  pub committed-on_signal : (w : K.World) → committed (on_signal K s w) ≡ committed w

module _ (K : KafkaLib) (s : K.Session) (func : K.Message → K.World → Bool × K.World)
    (L : CommitLaws K s func) where
  open K use {World, Message}
  open L use {handled, committed}

  -- Behind what was handled and committed before: all messages, or those before the one at which an
  -- exception left, which was handled and not committed.
  abbrev pub AtLeastOnce : List Message → List Message → List Message → Dispatched World → Type 0
  AtLeastOnce h c ms (stopped w) = (handled w ≡ h ++ ms) × (committed w ≡ c ++ ms)
  AtLeastOnce h c ms (polling w) = (handled w ≡ h ++ ms) × (committed w ≡ c ++ ms)
  AtLeastOnce h c ms (escaped w) =
      (before : List Message) × (m : Message) × (behind : List Message) × (ms
        ≡ before ++ (m ∷ behind))
      × (handled w ≡ h ++ (before ++ (m ∷ [])))
      × (committed w ≡ c ++ before)

  -- One message more in front.
  AtLeastOnce-cons :
      (h c : List Message) (m : Message) (ms : List Message) (d : Dispatched World)
      → AtLeastOnce (h ++ (m ∷ [])) (c ++ (m ∷ [])) ms d
      → AtLeastOnce h c (m ∷ ms) d
  AtLeastOnce-cons h c m ms (stopped w) (a, b) =
      (a ∙ append_assoc h (m ∷ []) ms, b ∙ append_assoc c (m ∷ []) ms)
  AtLeastOnce-cons h c m ms (polling w) (a, b) =
      (a ∙ append_assoc h (m ∷ []) ms, b ∙ append_assoc c (m ∷ []) ms)
  AtLeastOnce-cons h c m ms (escaped w) (before, k, behind, e, a, b) = (
    m ∷ before,
    k,
    behind,
    ap (λ t. m ∷ t) e,
    a ∙ append_assoc h (m ∷ []) (before ++ (k ∷ [])),
    b ∙ append_assoc c (m ∷ []) before,
  )

  after_commit-AtLeastOnce :
      (h c : List Message) (m : Message) (ms : List Message) (next : World → Dispatched World)
      (w : World) (r : Bool × World)
      → K.commit s m w ≡ r
      → handled w ≡ h ++ (m ∷ [])
      → committed w ≡ c
      → ((u : World)
          → handled u ≡ h ++ (m ∷ [])
          → committed u ≡ c ++ (m ∷ [])
          → AtLeastOnce (h ++ (m ∷ [])) (c ++ (m ∷ [])) ms (next u))
      → AtLeastOnce h c (m ∷ ms) (after_commit K s func next r)
  unfolding after_commit
  after_commit-AtLeastOnce h c m ms next w (true, w') e eh ec rest = (
    [],
    m,
    ms,
    refl,
    sym (ap (λ t. handled t.1) e) ∙ L.handled-commit m w ∙ eh,
    L.not_committed m w w' e ∙ ec ∙ sym (append-nil c),
  )
  after_commit-AtLeastOnce h c m ms next w (false, w') e eh ec rest =
      AtLeastOnce-cons h c m ms (next w') (
        rest w' (sym (ap (λ t. handled t.1) e) ∙ L.handled-commit m w ∙ eh)
          (L.committed-commit m w w' e ∙ ap (λ t. t ++ (m ∷ [])) ec))

  after_func-AtLeastOnce :
      (h c : List Message) (m : Message) (ms : List Message) (next : World → Dispatched World)
      (r : Bool × World)
      → handled r.1 ≡ h ++ (m ∷ [])
      → committed r.1 ≡ c
      → ((u : World)
          → handled u ≡ h ++ (m ∷ [])
          → committed u ≡ c ++ (m ∷ [])
          → AtLeastOnce (h ++ (m ∷ [])) (c ++ (m ∷ [])) ms (next u))
      → AtLeastOnce h c (m ∷ ms) (after_func K s func m next r)
  unfolding after_func
  after_func-AtLeastOnce h c m ms next (true, w) eh ec rest =
      ([], m, ms, refl, eh, ec ∙ sym (append-nil c))
  after_func-AtLeastOnce h c m ms next (false, w) eh ec rest =
      after_commit-AtLeastOnce h c m ms next w _ refl eh ec rest

  dispatch-AtLeastOnce_from :
      (h c : List Message) (es : List (Event Message)) (w : World)
      → handled w ≡ h
      → committed w ≡ c
      → AtLeastOnce h c (messages es) (dispatch K s func es w)
  unfolding dispatch messages
  dispatch-AtLeastOnce_from h c [] w eh ec = (eh ∙ sym (append-nil h), ec ∙ sym (append-nil c))
  dispatch-AtLeastOnce_from h c (message m ∷ es) w eh ec =
      after_func-AtLeastOnce h c m (messages es) (dispatch K s func es) (func m w)
        (L.handled-func m w ∙ ap (λ t. t ++ (m ∷ [])) eh) (L.committed-func m w ∙ ec)
        (dispatch-AtLeastOnce_from (h ++ (m ∷ [])) (c ++ (m ∷ [])) es)
  dispatch-AtLeastOnce_from h c (failed e ∷ es) w eh ec =
      dispatch-AtLeastOnce_from h c es _ (L.handled-error _ w ∙ eh) (L.committed-error _ w ∙ ec)
  dispatch-AtLeastOnce_from h c (end_of_file p ∷ es) w eh ec =
      dispatch-AtLeastOnce_from h c es _ (L.handled-error _ w ∙ eh) (L.committed-error _ w ∙ ec)
  dispatch-AtLeastOnce_from h c (interrupted ∷ es) w eh ec = (
    L.handled-on_signal w ∙ eh ∙ sym (append-nil h),
    L.committed-on_signal w ∙ ec ∙ sym (append-nil c),
  )

  -- Of the messages that come before the signal, each is handed to the callback once, in order, and
  -- committed behind that. Where an exception of the callback or of a commit leaves, the message at
  -- which it does was handled and not committed, all before it were both, and none behind it either.
  pub dispatch-AtLeastOnce :
      (es : List (Event Message)) (w : World)
      → AtLeastOnce (handled w) (committed w) (messages es) (dispatch K s func es w)
  dispatch-AtLeastOnce es w = dispatch-AtLeastOnce_from (handled w) (committed w) es w refl refl
