-- ===== src/Tests/Brokers.antt =====
-- The theorems on the clients of Kafka and MySQL, and on the life of a client of Cassandra.
use store_cpp.Base.{
  ℕ, suc, pred, ◌≡◌, refl, sym, ap, Bool, true, false, none, some, codes, List, [], ◌∷◌, ◌++◌,
}
use store_cpp.Kafka.{KafkaLib, message, failed, interrupted, dispatch, on_signal}
use store_cpp.Kafka.Commits.{CommitLaws, AtLeastOnce, messages, dispatch-AtLeastOnce}
use store_cpp.Mysql.{MyLib, Client, Callback, on_connect, new_client, connect_async}
use store_cpp.Mysql.Callbacks.{outcome, Ends, call_of, connect_async-called, connect_async_again}
use store_cpp.Tests.Asio.{asio, asio_laws}
use store_cpp.Cassandra.Connect.{Clusters, ClusterLaws}

-- A message is a number; the world is what was handled and what was committed.
abbrev noting : KafkaLib
noting = record {
  World = List ℕ × List ℕ;
  Config = Unit {0};
  Session = Unit {0};
  Message = ℕ;
  Broker = Unit {0};
  Topic = Unit {0};
  connect = λ c w. (tt, w);
  is_eof = λ m. false;
  key = λ m. none;
  payload = λ m. [];
  produce = λ s t p k v w. w;
  flush = λ s w. w;
  brokers = λ s w. ([], w);
  topics = λ s w. ([], w);
  name = λ t. [];
  topic_new = λ s t w. w;
  subscribe = λ s ts w. w;
  set_callbacks = λ s w. w;
  commit = λ s m w. (false, (w.0, w.1 ++ (m ∷ [])));
  stop = λ s w. w;
  default_signal = λ w. w;
  print = λ s w. w;
  info = λ s w. w;
  error = λ s w. w;
}

abbrev note_message : ℕ → List ℕ × List ℕ → Bool × (List ℕ × List ℕ)
note_message m w = (false, (w.0 ++ (m ∷ []), w.1))

quiet_signal : (w : List ℕ × List ℕ) → on_signal noting tt w ≡ w
unfolding on_signal
quiet_signal w = refl

noting_laws : CommitLaws noting tt note_message
noting_laws = record {
  handled = λ w. w.0;
  committed = λ w. w.1;
  handled-func = λ m w. refl;
  committed-func = λ m w. refl;
  handled-commit = λ m w. refl;
  committed-commit = λ m w w' e. ap (λ t. t.1.1) (sym e);
  not_committed = λ m w w' e. cc;
  handled-error = λ t w. refl;
  committed-error = λ t w. refl;
  handled-on_signal = λ w. ap (λ t. t.0) (quiet_signal w);
  committed-on_signal = λ w. ap (λ t. t.1) (quiet_signal w);
}

dispatch-AtLeastOnce_example :
    AtLeastOnce noting tt note_message noting_laws (1 ∷ []) [] (2 ∷ 3 ∷ []) (
      dispatch noting tt note_message
        (message 2 ∷ failed (codes "e") ∷ message 3 ∷ interrupted ∷ message 4 ∷ [])
        (1 ∷ [], []))
unfolding noting_laws messages
dispatch-AtLeastOnce_example =
    dispatch-AtLeastOnce noting tt note_message noting_laws
      (message 2 ∷ failed (codes "e") ∷ message 3 ∷ interrupted ∷ message 4 ∷ []) (1 ∷ [], [])

-- Connecting has a code, and the world counts the reports.
abbrev refusing : MyLib
refusing = record {
  World = ℕ;
  Code = ℕ;
  Results = ℕ;
  async_connect = λ w. w;
  async_query = λ s w. w;
  async_store_result = λ w. w;
  connected = λ w. (some 7, w);
  queried = λ w. (none, w);
  stored = λ w. ((none, w), w);
  describe = λ c. [];
  print_error = λ s w. suc w;
}

abbrev counting_callback : Callback refusing
counting_callback ec rs w = (none, suc w)

connect_async-called_example :
    Ends refusing counting_callback
      (call_of refusing counting_callback (outcome refusing (codes "select 1") 0))
      (connect_async refusing
        (asio refusing)
        (codes "select 1")
        counting_callback
        (new_client refusing counting_callback 0))
connect_async-called_example =
    connect_async-called refusing (asio refusing) (asio_laws refusing) (codes "select 1")
      counting_callback counting_callback 0

abbrev after_first : Client refusing
after_first = record {
  user_result_callback = counting_callback;
  due = [];
  stopped = true;
  world = 2;
}

first_call :
    connect_async refusing
      (asio refusing)
      (codes "select 1")
      counting_callback
      (new_client refusing counting_callback 0)
    ≡ (none, after_first)
first_call =
    connect_async-called refusing (asio refusing) (asio_laws refusing) (codes "select 1")
      counting_callback counting_callback 0

connect_async_again_example :
    connect_async refusing (asio refusing) (codes "select 2") counting_callback after_first ≡ (
      none,
      record after_first {
        user_result_callback = counting_callback;
        due = on_connect (codes "select 2") ∷ [];
        world = 2;
      },
    )
connect_async_again_example =
    connect_async_again refusing (asio refusing) (asio_laws refusing) (codes "select 1")
      (codes "select 2") counting_callback counting_callback counting_callback 0 after_first
      first_call refl

-- The world is how many objects are not freed.
abbrev counted : Clusters
counted = record {
  World = ℕ;
  Cluster = Unit {0};
  Session = Unit {0};
  UuidGen = Unit {0};
  Future = Unit {0};
  session_new = λ w. (tt, suc w);
  uuid_gen_new = λ w. (tt, suc w);
  cluster_new = λ w. (tt, suc w);
  set_contact_points = λ c s w. w;
  set_authenticator_callbacks = λ c p w. w;
  session_connect = λ s c w. (tt, suc w);
  future_error_code = λ f w. (0, w);
  future_error_message = λ f w. ([], w);
  future_free = λ f w. pred w;
  set_request_timeout = λ c n w. w;
  set_core_connections_per_host = λ c n w. w;
  set_coalesce_delay = λ c n w. w;
  set_new_request_ratio = λ c n w. w;
  cluster_free = λ c w. pred w;
  session_free = λ s w. pred w;
  uuid_gen_free = λ g w. pred w;
  print = λ s w. w;
}

abbrev counted_laws : ClusterLaws counted
counted_laws = record {
  live = λ w. w;
  made_session = λ w. refl;
  made_uuid_gen = λ w. refl;
  made_cluster = λ w. refl;
  made_future = λ s c w. refl;
  freed_future = λ f w n e. ap pred e;
  freed_cluster = λ c w n e. ap pred e;
  freed_session = λ s w n e. ap pred e;
  freed_uuid_gen = λ g w n e. ap pred e;
  kept_contact = λ c h w. refl;
  kept_callbacks = λ c p w. refl;
  kept_code = λ f w. refl;
  kept_message = λ f w. refl;
  kept_timeout = λ c n w. refl;
  kept_core = λ c n w. refl;
  kept_delay = λ c n w. refl;
  kept_ratio = λ c n w. refl;
  kept_print = λ s w. refl;
}
