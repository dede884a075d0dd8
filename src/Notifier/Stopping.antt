-- ===== src/Notifier/Stopping.antt =====
-- What follows `stop`'s request: the thread of `notificationLoop` (mssql_notifier.hpp) ends.
use store_cpp.Base.{
  ◌⊎◌, inl, inr, ℕ, suc, ◌≡◌, refl, ◌+◌, ◌-◌, ◌≤◌, arith, Bool, true, false, List, Option, none,
  some, Str, length,
}
use store_cpp.Library.Database.{Database}
use store_cpp.Extensions.Format.{Arg}
use store_cpp.Notifier.Scripts.{Notifier}
use store_cpp.Notifier.Client.{DbLibError, Outcome, Ended, escaped, returned, flowed_off, Fields}
use store_cpp.Notifier.Thread.{
  Place, testing, receiving, finished, undefined, first_value, System, after_callback, call_back,
  received, advance_at, advance, request_stop, Run, here, next_thread, next_stop, next_others, Over,
}

-- How many steps the thread may still take, and how many messages deliver, once the flag is set.
abbrev steps_left : Place → ℕ
steps_left testing = 1
steps_left receiving = 2
steps_left finished = 0
steps_left undefined = 0

abbrev room : Place → ℕ
room testing = 0
room receiving = 1
room finished = 0
room undefined = 0

module _ (D : Database DbLibError Outcome) (fmt_format : Str → List Arg → Str) (n : Notifier)
    (callback : Str → D.World → Bool × D.World) where
  open D use {World}

  -- `b` follows `a` when a step of the thread has been taken, or has not.
  record Closer (b : ℕ) (s t : System D fmt_format n callback) : Type 0 where
    still : t.cancel ≡ true
    nearer : b + steps_left t.place ≤ steps_left s.place
    few : length t.delivered + room t.place ≤ length s.delivered + room s.place

  after_callback-Closer :
      (m : Str) (s : System D fmt_format n callback) (r : Bool × World)
      → s.cancel ≡ true
      → s.place ≡ receiving
      → Closer 1 s (after_callback D fmt_format n callback m s r)
  unfolding after_callback
  after_callback-Closer m s (true, w) c p = record {
    still = c;
    nearer = ground arith;
    few = ground arith;
  }
  after_callback-Closer m s (false, w) c p = record {
    still = c;
    nearer = ground arith;
    few = ground arith;
  }

  call_back-Closer :
      (o : Option Str) (s : System D fmt_format n callback) (w : World)
      → s.cancel ≡ true
      → s.place ≡ receiving
      → Closer 1 s (call_back D fmt_format n callback o s w)
  unfolding call_back
  call_back-Closer none s w c p = record { still = c; nearer = ground arith; few = ground arith }
  call_back-Closer (some m) s w c p = after_callback-Closer m s (callback m w) c p

  received-Closer :
      (r : (Ended × Fields) × World) (s : System D fmt_format n callback)
      → s.cancel ≡ true
      → s.place ≡ receiving
      → Closer 1 s (received D fmt_format n callback r s)
  unfolding received
  received-Closer ((escaped, f), w) s c p = record {
    still = c;
    nearer = ground arith;
    few = ground arith;
  }
  received-Closer ((returned rc, f), w) s c p = call_back-Closer (first_value f.values) s w c p
  received-Closer ((flowed_off, f), w) s c p = record {
    still = c;
    nearer = ground arith;
    few = ground arith;
  }

  -- A step of the thread, which is at its end or gets nearer to it.
  abbrev gain : Place → ℕ
  gain finished = 0
  gain undefined = 0
  gain _ = 1

  advance_at-Closer :
      (p : Place) (s : System D fmt_format n callback)
      → s.cancel ≡ true
      → s.place ≡ p
      → Closer (gain p) s (advance_at D fmt_format n callback p s)
  unfolding advance_at
  advance_at-Closer testing s c p = record {
    still = c;
    nearer = rw c ground arith;
    few = ground arith;
  }
  advance_at-Closer receiving s c p = received-Closer _ s c p
  advance_at-Closer finished s c p = record { still = c; nearer = omega arith; few = omega arith }
  advance_at-Closer undefined s c p = record { still = c; nearer = omega arith; few = omega arith }

  advance-Closer :
      (s : System D fmt_format n callback)
      → s.cancel ≡ true
      → Closer (gain s.place) s (advance D fmt_format n callback s)
  unfolding advance
  advance-Closer s c = advance_at-Closer s.place s c refl

  -- What a run leaves of the steps and the messages.
  record Drained (s : System D fmt_format n callback) (k : ℕ) (t : System D fmt_format n callback)
      : Type 0 where
    still : t.cancel ≡ true
    left : steps_left t.place ≤ steps_left s.place - k
    few : length t.delivered + room t.place ≤ length s.delivered + room s.place

  nearer_by : (p : Place) (m : ℕ) → gain p + m ≤ steps_left p → m ≤ steps_left p - 1
  nearer_by testing m h = omega arith
  nearer_by receiving m h = omega arith
  nearer_by finished m h = omega arith
  nearer_by undefined m h = omega arith

  step-Drained :
      (s : System D fmt_format n callback) (k : ℕ) (t u : System D fmt_format n callback)
      → Closer (gain t.place) t u
      → Drained s k t
      → Drained s (suc k) u
  step-Drained s k t u c d =
      let near = nearer_by t.place (steps_left u.place) c.nearer in
      record {
        still = c.still;
        left = omega (arith, near, d.left);
        few = omega (arith, c.few, d.few);
      }

  Run-Drained :
      (s : System D fmt_format n callback) (k : ℕ) (t : System D fmt_format n callback)
      → s.cancel ≡ true
      → Run D fmt_format n callback s k t
      → Drained s k t
  unfolding request_stop
  Run-Drained s _ _ c here = record { still = c; left = omega arith; few = omega arith }
  Run-Drained s _ _ c (next_thread {k} {t} r) =
      let d = Run-Drained s k t c r in step-Drained s k t _ (advance-Closer t d.still) d
  Run-Drained s _ _ c (next_stop {k} {t} r) =
      let d = Run-Drained s k t c r in record { still = refl; left = d.left; few = d.few }
  Run-Drained s _ _ c (next_others {k} {t} w r) =
      let d = Run-Drained s k t c r in record { still = d.still; left = d.left; few = d.few }

  room_le : (p : Place) → room p ≤ 1
  room_le testing = omega arith
  room_le receiving = omega arith
  room_le finished = omega arith
  room_le undefined = omega arith

  over : (p : Place) → steps_left p ≤ 0 → (p ≡ finished) ⊎ (p ≡ undefined)
  over testing h = absurd (omega arith)
  over receiving h = absurd (omega arith)
  over finished h = inl refl
  over undefined h = inr refl

  steps_le : (p : Place) → steps_left p ≤ 2
  steps_le testing = omega arith
  steps_le receiving = omega arith
  steps_le finished = omega arith
  steps_le undefined = omega arith

  -- After `stop` has set the flag, in any interleaving with the other clients of the pool, once the
  -- thread has taken two steps it is at its end, so that `join` returns, unless a `quick` flowed off its
  -- own end, after which nothing is known; and the callback has been given at most one more message.
  pub request_stop-Over :
      (s : System D fmt_format n callback) (k : ℕ) (t : System D fmt_format n callback)
      → Run D fmt_format n callback (request_stop D fmt_format n callback s) k t
      → 2 ≤ k
      → Over D fmt_format n callback t × (length t.delivered ≤ suc (length s.delivered))
  unfolding request_stop
  request_stop-Over s k t r h =
      let d = Run-Drained _ k t refl r in
      let l = steps_le s.place in
      let o = room_le s.place in
      (over t.place (omega (arith, d.left, l, h)), omega (arith, d.few, o))
