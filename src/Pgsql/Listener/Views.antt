-- ===== src/Pgsql/Listener/Views.antt =====
-- What is seen of the listener's world (store.storage.pgsql/src/pg_notifier.hpp).
use store_cpp.Base.{
  ℕ, suc, ◌≡◌, sym, ap, ◌∙◌, Bool, none, some, Str, List, [], ◌∷◌, ◌++◌, append-nil,
}
use store_cpp.Pgsql.Listener.{Libpq, PgNotifyResult}

-- What is seen of the world: the notifications that wait in libpq, those that have come, those that
-- the callback was given, and how many connections, results and notifications are to be freed.
pub record View : Type 0 where
  pub waiting : List PgNotifyResult
  pub arrived : List PgNotifyResult
  pub given : List PgNotifyResult
  pub held : ℕ

-- libpq keeps the notifications in the order in which they come, and gives each once.
pub record LibpqLaws (Q : Libpq) (callback : PgNotifyResult → Q.World → Bool × Q.World)
    : Type 0 where
  pub view : Q.World → View
  -- What the input brings.
  pub incoming : Q.Conn → Q.World → List PgNotifyResult
  pub view-connectdb :
      (s : Str) (w : Q.World)
      → view (Q.connectdb s w).1 ≡ record (view w) { held = suc (view w).held }
  -- A command may take in notifications beside its result; they wait in libpq.
  pub absorbed : Q.Conn → Str → Q.World → List PgNotifyResult
  pub view-exec :
      (c : Q.Conn) (s : Str) (w : Q.World)
      → view (Q.exec c s w).1 ≡ record (view w) {
        waiting = (view w).waiting ++ absorbed c s w;
        arrived = (view w).arrived ++ absorbed c s w;
        held = suc (view w).held;
      }
  pub view-clear :
      (r : Q.Res) (w : Q.World) (n : ℕ)
      → (view w).held ≡ suc n
      → view (Q.clear r w) ≡ record (view w) { held = n }
  pub view-finish :
      (c : Q.Conn) (w : Q.World) (n : ℕ)
      → (view w).held ≡ suc n
      → view (Q.finish c w) ≡ record (view w) { held = n }
  pub view-freemem :
      (m : PgNotifyResult) (w : Q.World) (n : ℕ)
      → (view w).held ≡ suc n
      → view (Q.freemem m w) ≡ record (view w) { held = n }
  pub view-select : (c : Q.Conn) (w : Q.World) → view (Q.select c w).1 ≡ view w
  pub view-print : (s : Str) (w : Q.World) → view (Q.print s w) ≡ view w
  pub view-consume_input :
      (c : Q.Conn) (w : Q.World)
      → view (Q.consume_input c w) ≡ record (view w) {
        waiting = (view w).waiting ++ incoming c w;
        arrived = (view w).arrived ++ incoming c w;
      }
  pub none_waits :
      (c : Q.Conn) (w w' : Q.World)
      → Q.notifies c w ≡ (none, w')
      → ((view w).waiting ≡ []) × (view w' ≡ view w)
  pub one_waits :
      (c : Q.Conn) (w w' : Q.World) (m : PgNotifyResult)
      → Q.notifies c w ≡ (some m, w')
      → (ms : List PgNotifyResult) × ((view w).waiting ≡ m ∷ ms)
        × (view w' ≡ record (view w) { waiting = ms; held = suc (view w).held })
  pub view-callback :
      (m : PgNotifyResult) (w : Q.World)
      → view (callback m w).1 ≡ record (view w) { given = (view w).given ++ (m ∷ []) }

-- Every notification that has come was given, in the order in which they came, or waits.
pub record Kept (n : ℕ) (v : View) : Type 0 where
  pub in_order : v.arrived ≡ v.given ++ v.waiting
  pub held_is : v.held ≡ n

-- None waits.
pub record Settled (n : ℕ) (v : View) : Type 0 where
  pub all_given : v.given ≡ v.arrived
  pub none_left : v.waiting ≡ []
  pub freed : v.held ≡ n

pub Kept-of-Settled : (n : ℕ) (v : View) → Settled n v → Kept n v
Kept-of-Settled n v s = record {
  in_order =
      sym (s.all_given) ∙ sym (append-nil v.given) ∙ ap (λ t. v.given ++ t) (sym (s.none_left));
  held_is = s.freed;
}
