-- ===== src/Notifier/Thread.antt =====
-- `notificationLoop` and `stop` (mssql_notifier.hpp): the thread that receives, the flag that both
-- threads take under the lock, and the join. A step is what one thread does while it holds the lock
-- or between two tests of the flag.
use store_cpp.Base.{◌⊎◌, ℕ, suc, ◌≡◌, Bool, true, false, List, [], ◌∷◌, Option, none, some, Str}
use store_cpp.Library.Database.{Database}
use store_cpp.Extensions.Format.{Arg}
use store_cpp.Notifier.Scripts.{Notifier, receive_event, compiled_script}
use store_cpp.Notifier.Client.{
  DbLibError, Outcome, Ended, escaped, returned, flowed_off, Fields, no_fields, quick,
}

-- Where the thread is: at the test of the flag, past it, at its end, or where nothing is known, since
-- `quick` has flowed off its end.
pub data Place : Type 0 where
  testing receiving finished undefined : Place

-- `message`: the first value of the first row; a row without a value throws.
unfoldable pub first_value : List (List Str) → Option Str
first_value [] = some []
first_value ([] ∷ rows) = none
first_value ((v ∷ vs) ∷ rows) = some v

module _ (D : Database DbLibError Outcome) (fmt_format : Str → List Arg → Str) (n : Notifier)
    -- The callback; `true` says that it threw.
    (callback : Str → D.World → Bool × D.World) where
  open D use {World}

  -- `delivered` holds the messages that the callback was given, the latest first.
  pub record System : Type 0 where
    pub cancel : Bool
    pub place : Place
    pub delivered : List Str
    pub world : World

  -- `catch (...)` ends the thread too.
  unfoldable pub after_callback : Str → System → Bool × World → System
  after_callback m s (true, w) = record s {
    place = finished;
    delivered = m ∷ s.delivered;
    world = w;
  }
  after_callback m s (false, w) = record s {
    place = testing;
    delivered = m ∷ s.delivered;
    world = w;
  }

  unfoldable pub call_back : Option Str → System → World → System
  unfolding after_callback
  call_back none s w = record s { place = finished; world = w }
  call_back (some m) s w = after_callback m s (callback m w)

  unfoldable pub received : (Ended × Fields) × World → System → System
  unfolding call_back
  received ((escaped, f), w) s = record s { place = finished; world = w }
  received ((returned rc, f), w) s = call_back (first_value f.values) s w
  received ((flowed_off, f), w) s = record s { place = undefined; world = w }

  -- The `if` under the lock.
  abbrev pub tested : Bool → Place
  tested true = finished
  tested false = receiving

  -- What the thread does next. The flag is read under the lock; then the event is received.
  unfoldable pub advance_at : Place → System → System
  unfolding received
  advance_at testing s = record s { place = tested s.cancel }
  advance_at receiving s =
      received (quick D (compiled_script fmt_format n receive_event) no_fields s.world) s
  advance_at finished s = s
  advance_at undefined s = s

  unfoldable pub advance : System → System
  unfolding advance_at
  advance s = advance_at s.place s

  -- The block of `stop` that holds the lock.
  unfoldable pub request_stop : System → System
  request_stop s = record s { cancel = true }

  unfoldable pub spawn : World → System
  spawn w = record { cancel = false; place = testing; delivered = []; world = w }

  -- A run, with the number of steps that the thread takes in it. Another client of the pool may
  -- change the world at any time.
  pub data Run (s : System) : ℕ → System → Type 0 where
    here : Run s 0 s
    next_thread : {k : ℕ} {t : System} → Run s k t → Run s (suc k) (advance t)
    next_stop : {k : ℕ} {t : System} → Run s k t → Run s k (request_stop t)
    next_others : {k : ℕ} {t : System} (w : World) → Run s k t → Run s k (record t { world = w })

  -- `join` returns when the thread is at its end; or nothing is known.
  abbrev pub Over : System → Type 0
  Over s = (s.place ≡ finished) ⊎ (s.place ≡ undefined)
