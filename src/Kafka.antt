-- ===== src/Kafka.antt =====
-- `KafkaBaseClient` (store.storage.kafka/src/kafka_base_client.hpp). cppkafka and librdkafka are a
-- parameter; what a program sees of them while it is dispatched is a list of events.
pub mod Commits
use store_cpp.Base.{
  ℕ, Bool, true, false, Option, none, some, Str, codes, List, [], ◌∷◌, ◌++◌, seq, if◌then◌else◌,
}
use store_cpp.Base.Int.{ℤ, pos}

-- `Session` is the producer, the consumer and the dispatcher of one configuration. A call that may throw
-- gives `true` where it does.
pub record KafkaLib : Type 1 where
  pub World : Type 0
  pub Config : Type 0
  pub Session : Type 0
  pub Message : Type 0
  pub Broker : Type 0
  pub Topic : Type 0
  pub connect : Config → World → Session × World
  pub is_eof : Message → Bool
  pub key : Message → Option Str
  pub payload : Message → Str
  pub produce : Session → Str → ℤ → Str → Str → World → World
  pub flush : Session → World → World
  pub brokers : Session → World → List Broker × World
  pub topics : Session → World → List Topic × World
  pub name : Topic → Str
  pub topic_new : Session → Str → World → World
  pub subscribe : Session → List Str → World → World
  pub set_callbacks : Session → World → World
  pub commit : Session → Message → World → Bool × World
  pub stop : Session → World → World
  pub default_signal : World → World
  pub print : Str → World → World
  pub info : Str → World → World
  pub error : Str → World → World

-- What the dispatcher calls back with, and the signal.
pub data Event (M : Type 0) : Type 0 where
  message : M → Event M
  failed : Str → Event M
  end_of_file : Str → Event M
  interrupted : Event M

-- The dispatcher was stopped, an exception left it, or it still polls.
pub data Dispatched (W : Type 0) : Type 0 where
  stopped : W → Dispatched W
  escaped : W → Dispatched W
  polling : W → Dispatched W

module _ (K : KafkaLib) where
  open K use {World, Config, Session, Message, Broker, Topic, print}

  unfoldable pub key_text : Option Str → Str
  key_text none = []
  key_text (some k) = k ++ codes " -> "

  -- `defaultMessageHandler`, which throws nothing.
  unfoldable pub default_message_handler : Message → World → Bool × World
  unfolding key_text
  default_message_handler msg w =
      if K.is_eof msg
      then (false, w)
      else (false, print (key_text (K.key msg) ++ K.payload msg ++ codes "\n") w)

  -- The constructor: without a configuration the three pointers stay null.
  unfoldable pub make_client : Option Config → World → Option Session × World
  make_client none w = (none, w)
  make_client (some config) w = let (s, w') = K.connect config w in (some s, w')

  -- A method of a null pointer is undefined.
  abbrev pub with_session : {A : Type 0} → Option Session → (Session → A) → Option A
  with_session none f = none
  with_session (some s) f = some (f s)

  unfoldable pub create_topic : Str → Option Session → World → Option World
  create_topic topic client w = with_session client (λ s. K.topic_new s topic w)

  unfoldable pub produce : Str → Str → Str → ℤ → Option Session → World → Option World
  produce topic key payload partition client w =
      with_session client (λ s. K.flush s (K.produce s topic partition key payload w))

  unfoldable pub get_brokers : Option Session → World → Option (List Broker × World)
  get_brokers client w = with_session client (λ s. K.brokers s w)

  unfoldable pub get_topics : Option Session → World → Option (List Topic × World)
  get_topics client w = with_session client (λ s. K.topics s w)

  unfoldable pub has_topic : Str → List Topic → Bool
  has_topic topic [] = false
  has_topic topic (t ∷ ts) = if seq (K.name t) topic then true else has_topic topic ts

  unfoldable pub create_missing : Str → Option Session → Option (List Topic × World) → Option World
  unfolding has_topic create_topic
  create_missing topic client none = none
  create_missing topic client (some (ts, w)) =
      if has_topic topic ts
      then some w
      else create_topic topic client (print (codes "Creating topic " ++ topic ++ codes "\n") w)

  unfoldable pub ensure_topic_exists : Str → Option Session → World → Option World
  unfolding create_missing get_topics
  ensure_topic_exists topic client w = create_missing topic client (get_topics client w)

  -- `on_signal`
  unfoldable pub on_signal : Session → World → World
  on_signal s w = K.default_signal (K.stop s (print (codes "Dispatcher exiting.\n") w))

  module _ (s : Session) (func : Message → World → Bool × World) where
    unfoldable pub after_commit : (World → Dispatched World) → Bool × World → Dispatched World
    after_commit next (true, w) = escaped w
    after_commit next (false, w) = next w

    unfoldable pub after_func :
        Message → (World → Dispatched World) → Bool × World → Dispatched World
    unfolding after_commit
    after_func msg next (true, w) = escaped w
    after_func msg next (false, w) = after_commit next (K.commit s msg w)

    -- `dispatcher->run` of the three callbacks.
    unfoldable pub dispatch : List (Event Message) → World → Dispatched World
    unfolding after_func on_signal
    dispatch [] w = polling w
    dispatch (message msg ∷ es) w = after_func msg (dispatch es) (func msg w)
    dispatch (failed e ∷ es) w =
        dispatch es (K.error (codes "Received error: " ++ e ++ codes "\n") w)
    dispatch (end_of_file p ∷ es) w =
        dispatch es (K.error (codes "Reached EOF on partition " ++ p ++ codes "\n") w)
    dispatch (interrupted ∷ es) w = stopped (on_signal s w)

  unfoldable pub subscribe :
      Str
      → (Message → World → Bool × World)
      → List (Event Message)
      → Option Session
      → World
      → Option (Dispatched World)
  unfolding dispatch
  subscribe topic callback events client w =
      with_session client
        (λ s. dispatch s callback events (K.set_callbacks s (K.subscribe s (topic ∷ []) w)))
