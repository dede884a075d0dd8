-- ===== src/Mysql.antt =====
-- `MyBaseClient` (store.storage.mysql/src/my_client.hpp): a connection, a statement and its result, one
-- handler after the other. amy and Asio are parameters.
pub mod Callbacks
use store_cpp.Base.{◌≡◌, Bool, true, false, Option, none, some, Str, codes, List, [], ◌∷◌, ◌++◌}
use store_cpp.Base.Int.{ℤ, pos}

-- The three operations of the connector, which start when they are called, and what a handler is given
-- when the operation is over; a code is an error.
pub record MyLib : Type 1 where
  pub World : Type 0
  pub Code : Type 0
  pub Results : Type 0
  pub async_connect : World → World
  pub async_query : Str → World → World
  pub async_store_result : World → World
  pub connected : World → Option Code × World
  pub queried : World → Option Code × World
  pub stored : World → (Option Code × Results) × World
  -- `e.code().value() << " - " << e.what()`
  pub describe : Code → Str
  pub print_error : Str → World → World

-- What may be thrown: `system_error`, another `std::exception` with its text, or anything else.
pub data Thrown (C : Type 0) : Type 0 where
  system_error : C → Thrown C
  std_exception : Str → Thrown C
  other : Thrown C

-- A handler of an operation that was started: `onConnect` with the statement, `onQuery`, `onResult`.
pub data Handler : Type 0 where
  on_connect : Str → Handler
  on_query : Handler
  on_result : Handler

module _ (A : MyLib) where
  open A use {World, Code, Results, describe, print_error}

  -- `ResultHandlerFunc`, with what it throws.
  abbrev pub Callback : Type 0
  Callback = Option Code → Results → World → Option (Thrown Code) × World

  pub record Client : Type 0 where
    pub user_result_callback : Callback
    pub due : List Handler
    pub stopped : Bool
    pub world : World

  -- A new client; its callback is empty and is set before it is called.
  unfoldable pub new_client : Callback → World → Client
  new_client empty w = record { user_result_callback = empty; due = []; stopped = false; world = w }

  -- The message of `check_error` and of `report_system_error`.
  unfoldable pub report_system_error : Code → World → World
  report_system_error c w = print_error (codes "System error: " ++ describe c ++ codes "\n") w

  unfoldable pub check_error : Option Code → World → World
  unfolding report_system_error
  check_error none w = w
  check_error (some c) w = report_system_error c w

  -- `onConnect` and `onQuery` go on whatever the code is.
  unfoldable pub run_handler : Handler → Client → Option (Thrown Code) × Client
  unfolding check_error
  run_handler (on_connect stmt) c =
      let (ec, w) = A.connected c.world in
      (
        none,
        record c { due = c.due ++ (on_query ∷ []); world = A.async_query stmt (check_error ec w) },
      )
  run_handler on_query c =
      let (ec, w) = A.queried c.world in
      (
        none,
        record c {
          due = c.due ++ (on_result ∷ []);
          world = A.async_store_result (check_error ec w);
        },
      )
  run_handler on_result c =
      let ((ec, rs), w) = A.stored c.world in
      let (e, w') = c.user_result_callback ec rs (check_error ec w) in (e, record c { world = w' })

  -- The two `catch` clauses; `other` leaves the method.
  unfoldable pub caught : Option (Thrown Code) × Client → Option (Thrown Code) × Client
  unfolding report_system_error
  caught (none, c) = (none, c)
  caught (some (system_error e), c) = (none, record c { world = report_system_error e c.world })
  caught (some (std_exception t), c) =
      (none, record c { world = print_error (codes "Exception: " ++ t ++ codes "\n") c.world })
  caught (some other, c) = (some other, c)

  -- `run` is `IO->run()`: what leaves it, and the client after it.
  unfoldable pub connect_async :
      (Client → Option (Thrown Code) × Client)
      → Str
      → Callback
      → Client
      → Option (Thrown Code) × Client
  unfolding caught
  connect_async run stmt handle_result c = caught (
      run (record c {
        user_result_callback = handle_result;
        due = c.due ++ (on_connect stmt ∷ []);
        world = A.async_connect c.world;
      }))

  -- The documented behaviour of `io_service::run`: it calls the handlers that are due in their order,
  -- returns when none is left, and is stopped then; a stopped one returns at once; and an exception of
  -- a handler leaves it.
  pub record RunLaws (run : Client → Option (Thrown Code) × Client) : Type 0 where
    pub run_stopped : (c : Client) → c.stopped ≡ true → run c ≡ (none, c)
    pub run_idle :
        (c : Client) → c.stopped ≡ false → c.due ≡ [] → run c ≡ (none, record c { stopped = true })
    pub run_next :
        (c c' : Client) (h : Handler) (hs : List Handler)
        → c.stopped ≡ false
        → c.due ≡ h ∷ hs
        → run_handler h (record c { due = hs }) ≡ (none, c')
        → run c ≡ run c'
    pub run_thrown :
        (c c' : Client) (h : Handler) (hs : List Handler) (e : Thrown Code)
        → c.stopped ≡ false
        → c.due ≡ h ∷ hs
        → run_handler h (record c { due = hs }) ≡ (some e, c')
        → run c ≡ (some e, c')
