-- ===== src/Tests/Listening.antt =====
-- The theorems on the PostgreSQL listener with a libpq that counts, whose input brings two notifications.
use store_cpp.Base.{
  ℕ, suc, pred, arith, ◌≡◌, refl, ap, Bool, true, false, Option, none, some, Str, codes, List, [],
  ◌∷◌, ◌++◌,
}
use store_cpp.Base.Int.{pos}
use store_cpp.Pgsql.Listener.{
  Libpq, PgNotifyResult, client_handler, listen_loop, exited, after_connect, after_listen, wait_for,
  after_select, after_drain, drain, handle_one, after_callback, exit_nicely,
}
use store_cpp.Pgsql.Listener.Views.{View, LibpqLaws, Settled}
use store_cpp.Pgsql.Listener.Deliveries.{EndsWell, client_handler-EndsWell}
use store_cpp.Pgsql.Listener.Rounds.{listen_loop-round}

record Listening : Type 0 where
  seen : View
  input : List PgNotifyResult

abbrev hold_more : (ℕ → ℕ) → Listening → Listening
hold_more f w = record w { seen = record w.seen { held = f w.seen.held } }

abbrev next_of : Listening → List PgNotifyResult → Option PgNotifyResult × Listening
next_of w [] = (none, w)
next_of w (m ∷ ms) =
    (some m, record w { seen = record w.seen { waiting = ms; held = suc w.seen.held } })

abbrev note : Str → PgNotifyResult
note s = record { channel = codes "c"; payload = s; pid = pos 7 }

abbrev some_input : List PgNotifyResult → Bool
some_input [] = false
some_input (m ∷ ms) = true

abbrev listening : Libpq
listening = record {
  World = Listening;
  Conn = Unit {0};
  Res = Unit {0};
  connectdb = λ s w. (tt, hold_more suc w);
  status_ok = λ c w. true;
  error_message = λ c w. [];
  exec = λ c s w. (
    tt,
    record w {
      seen = record w.seen {
        waiting = w.seen.waiting ++ (note (codes "e") ∷ []);
        arrived = w.seen.arrived ++ (note (codes "e") ∷ []);
        held = suc w.seen.held;
      };
    },
  );
  command_ok = λ r. true;
  clear = λ r w. hold_more pred w;
  finish = λ c w. hold_more pred w;
  get_socket = λ c w. true;
  select = λ c w. (some_input w.input, w);
  consume_input = λ c w. record {
    seen = record w.seen {
      waiting = w.seen.waiting ++ w.input;
      arrived = w.seen.arrived ++ w.input;
    };
    input = [];
  };
  notifies = λ c w. next_of w w.seen.waiting;
  freemem = λ m w. hold_more pred w;
  error_text = λ w. [];
  print_int = λ z. [];
  print = λ s w. w;
}

abbrev remember : PgNotifyResult → Listening → Bool × Listening
remember m w = (false, record w { seen = record w.seen { given = w.seen.given ++ (m ∷ []) } })

released :
    (w : Listening) (n : ℕ)
    → w.seen.held ≡ suc n
    → (hold_more pred w).seen ≡ record w.seen { held = n }
released w n e = ap (λ (k : ℕ). record w.seen { held = pred k }) e

no_more :
    (w w' : Listening) (ms : List PgNotifyResult)
    → next_of w ms ≡ (none, w')
    → (ms ≡ []) × (w'.seen ≡ w.seen)
no_more w w' [] e = (refl, cc)
no_more w w' (m ∷ ms) e = cc

one_more :
    (w w' : Listening) (m : PgNotifyResult) (ms : List PgNotifyResult)
    → next_of w ms ≡ (some m, w')
    → (rest : List PgNotifyResult) × (ms ≡ m ∷ rest)
      × (w'.seen ≡ record w.seen { waiting = rest; held = suc w.seen.held })
one_more w w' m [] e = cc
one_more w w' m (k ∷ ms) e = (ms, cc, cc)

abbrev listening_laws : LibpqLaws listening remember
listening_laws = record {
  view = λ w. w.seen;
  incoming = λ c w. w.input;
  view-connectdb = λ s w. refl;
  absorbed = λ c s w. note (codes "e") ∷ [];
  view-exec = λ c s w. refl;
  view-clear = λ r w n e. released w n e;
  view-finish = λ c w n e. released w n e;
  view-freemem = λ m w n e. released w n e;
  view-select = λ c w. refl;
  view-print = λ s w. refl;
  view-consume_input = λ c w. refl;
  none_waits = λ c w w' e. no_more w w' w.seen.waiting e;
  one_waits = λ c w w' m e. one_more w w' m w.seen.waiting e;
  view-callback = λ m w. refl;
}

abbrev untouched : Listening
untouched = record {
  seen = record { waiting = []; arrived = []; given = []; held = 0 };
  input = note (codes "a") ∷ note (codes "b") ∷ [];
}

client_handler-EndsWell_example :
    EndsWell listening remember listening_laws 0
      (client_handler listening remember 5 2 (codes "c") untouched)
client_handler-EndsWell_example =
    client_handler-EndsWell listening remember listening_laws 5 2 (codes "c") untouched 0
      (record { in_order = refl; held_is = refl })

-- The second `select` fails.
handled :
    client_handler listening remember 5 2 (codes "c") untouched
    ≡ some (
        exited (record {
          seen = record {
            waiting = [];
            arrived = note (codes "e") ∷ note (codes "a") ∷ note (codes "b") ∷ [];
            given = note (codes "e") ∷ note (codes "a") ∷ note (codes "b") ∷ [];
            held = 0;
          };
          input = [];
        }))
unfolding client_handler after_connect after_listen listen_loop wait_for after_select after_drain
    drain handle_one after_callback exit_nicely
handled = refl

listen_loop-round_example :
    (w' : Listening) × (listen_loop listening remember 3 (suc 4) tt untouched
      ≡ listen_loop listening remember 3 4 tt w')
    × (w'.seen.given ≡ note (codes "a") ∷ note (codes "b") ∷ [])
    × Settled 0 w'.seen
listen_loop-round_example =
    listen_loop-round listening remember listening_laws (λ m w. refl) 3 4 0 tt untouched
      (record { all_given = refl; none_left = refl; freed = refl }) refl refl (omega arith)
