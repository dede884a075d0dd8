-- ===== src/Pgsql/Listener.antt =====
-- `ClientHandler` (store.storage.pgsql/src/pg_notifier.hpp): it listens to a channel for ever and hands
-- each notification to a callback. libpq and the socket calls are parameters.
pub mod Views
pub mod Deliveries
pub mod Rounds
use store_cpp.Base.{
  ℕ, zero, suc, Bool, true, false, Option, none, some, Str, codes, List, ◌++◌, decimal,
}
use store_cpp.Base.Int.{ℤ}

pub record PgNotifyResult : Type 0 where
  pub channel : Str
  pub payload : Str
  pub pid : ℤ

-- What is called of libpq; `get_socket` and `select` give `false` for a negative result, and `notifies`
-- gives `none` for null.
pub record Libpq : Type 1 where
  pub World : Type 0
  pub Conn : Type 0
  pub Res : Type 0
  pub connectdb : Str → World → Conn × World
  pub status_ok : Conn → World → Bool
  pub error_message : Conn → World → Str
  pub exec : Conn → Str → World → Res × World
  pub command_ok : Res → Bool
  pub clear : Res → World → World
  pub finish : Conn → World → World
  pub get_socket : Conn → World → Bool
  pub select : Conn → World → Bool × World
  pub consume_input : Conn → World → World
  pub notifies : Conn → World → Option PgNotifyResult × World
  pub freemem : PgNotifyResult → World → World
  pub error_text : World → Str
  pub print_int : ℤ → Str
  pub print : Str → World → World

-- How the call ends: `exit(1)`, a return, or an exception of the callback.
pub data Ending (W : Type 0) : Type 0 where
  exited : W → Ending W
  finished : W → Ending W
  escaped : W → Ending W

module _ (Q : Libpq)
    -- The callback; `true` says that it threw.
    (callback : PgNotifyResult → Q.World → Bool × Q.World) where
  open Q use {World, Conn, Res, print}

  unfoldable pub exit_nicely : Conn → World → Ending World
  exit_nicely conn w = exited (Q.finish conn w)

  unfoldable pub notify_line : PgNotifyResult → Str
  notify_line n =
      codes "ASYNC NOTIFY of '"
      ++ n.channel
      ++ codes "' received "
      ++ n.payload
      ++ codes " from backend PID "
      ++ Q.print_int n.pid
      ++ codes "\n"

  -- What the loop over the notifications leaves: none is left, or the callback threw.
  pub data Drained : Type 0 where
    drained : World → Drained
    threw : World → Drained

  unfoldable pub after_callback :
      (World → Option Drained) → PgNotifyResult → Bool × World → Option Drained
  after_callback next n (true, w) = some (threw w)
  after_callback next n (false, w) = next (Q.freemem n w)

  unfoldable pub handle_one :
      (World → Option Drained) → Option PgNotifyResult × World → Option Drained
  unfolding after_callback
  handle_one next (none, w) = some (drained w)
  handle_one next (some n, w) = after_callback next n (callback n (print (notify_line n) w))

  -- `none` means that the fuel ran out.
  unfoldable pub drain : ℕ → Conn → World → Option Drained
  unfolding handle_one
  drain zero conn w = none
  drain (suc fuel) conn w = handle_one (drain fuel conn) (Q.notifies conn w)

  unfoldable pub after_drain :
      (World → Option (Ending World)) → Option Drained → Option (Ending World)
  after_drain next none = none
  after_drain next (some (drained w)) = next w
  after_drain next (some (threw w)) = some (escaped w)

  unfoldable pub after_select :
      ℕ → Conn → (World → Option (Ending World)) → Bool × World → Option (Ending World)
  unfolding exit_nicely after_drain drain
  after_select fuel conn next (false, w) =
      some (exit_nicely conn (print (codes "select() failed: " ++ Q.error_text w ++ codes "\n") w))
  after_select fuel conn next (true, w) =
      after_drain next (drain fuel conn (Q.consume_input conn w))

  unfoldable pub wait_for :
      ℕ → Conn → (World → Option (Ending World)) → World → Bool → Option (Ending World)
  unfolding after_select
  wait_for fuel conn next w false = some (finished (Q.finish conn (print (codes "Done.\n") w)))
  wait_for fuel conn next w true = after_select fuel conn next (Q.select conn w)

  -- The endless loop, for so many rounds; `none` means that it runs on.
  unfoldable pub listen_loop : ℕ → ℕ → Conn → World → Option (Ending World)
  unfolding wait_for
  listen_loop fuel zero conn w = none
  listen_loop fuel (suc rounds) conn w =
      wait_for fuel conn (listen_loop fuel rounds conn) w (Q.get_socket conn w)

  unfoldable pub after_listen : ℕ → ℕ → Conn → Res → World → Bool → Option (Ending World)
  unfolding listen_loop exit_nicely
  after_listen fuel rounds conn res w true = listen_loop fuel rounds conn (Q.clear res w)
  after_listen fuel rounds conn res w false = some (
      exit_nicely conn
        (Q.clear res (print (codes "LISTEN command failed: " ++ Q.error_message conn w) w)))

  unfoldable pub after_connect : ℕ → ℕ → Str → Conn → World → Bool → Option (Ending World)
  unfolding after_listen exit_nicely
  after_connect fuel rounds channel conn w false = some (
      exit_nicely conn
        (print (codes "Connection to database failed: " ++ Q.error_message conn w) w))
  after_connect fuel rounds channel conn w true =
      let (res, w1) = Q.exec conn (codes "LISTEN " ++ channel) w in
      after_listen fuel rounds conn res w1 (Q.command_ok res)

  -- `operator()`
  unfoldable pub client_handler : ℕ → ℕ → Str → World → Option (Ending World)
  unfolding after_connect
  client_handler fuel rounds channel w =
      let (conn, w1) = Q.connectdb (codes "dbname = pccrms") w in
      after_connect fuel rounds channel conn w1 (Q.status_ok conn w1)
