-- ===== src/Pgsql/Listener/Deliveries.antt =====
-- What the listener's callback is given, and what the listener frees
-- (store.storage.pgsql/src/pg_notifier.hpp).
use store_cpp.Base.{
  ℕ, zero, suc, ◌≡◌, refl, sym, ap, ◌∙◌, Bool, true, false, Option, none, some, Str, List, [], ◌∷◌,
  ◌++◌, append_assoc, append-nil, codes,
}
use store_cpp.Pgsql.Listener.{
  Libpq, PgNotifyResult, Ending, exited, finished, escaped, Drained, drained, threw, exit_nicely,
  notify_line, after_callback, handle_one, drain, after_drain, after_select, wait_for, listen_loop,
  after_listen, after_connect, client_handler,
}
use store_cpp.Pgsql.Listener.Views.{View, LibpqLaws, Kept, Settled, Kept-of-Settled}

module _ (Q : Libpq) (callback : PgNotifyResult → Q.World → Bool × Q.World)
    (L : LibpqLaws Q callback) where
  open Q use {World, Conn, Res}
  open L use {view}

  -- How the loop over the notifications leaves the world.
  abbrev pub DrainedWell : ℕ → Option (Drained Q callback) → Type 0
  DrainedWell n none = Unit
  DrainedWell n (some (drained w)) = Settled n (view w)
  DrainedWell n (some (threw w)) = Kept (suc n) (view w)

  -- `n` things were held before the call.
  abbrev pub EndsWell : ℕ → Option (Ending World) → Type 0
  EndsWell n none = Unit
  EndsWell n (some (exited w)) = Kept n (view w)
  EndsWell n (some (finished w)) = Kept n (view w)
  EndsWell n (some (escaped w)) = Kept (suc (suc n)) (view w)

  after_callback-DrainedWell :
      (n : ℕ) (next : World → Option (Drained Q callback)) (m : PgNotifyResult) (r : Bool × World)
      → ((w : World) → Kept n (view w) → DrainedWell n (next w))
      → Kept (suc n) (view r.1)
      → DrainedWell n (after_callback Q callback next m r)
  unfolding after_callback
  after_callback-DrainedWell n next m (true, w) h k = k
  after_callback-DrainedWell n next m (false, w) h k =
      h (Q.freemem m w)
        (rw (L.view-freemem m w n (k.held_is)) (record { in_order = k.in_order; held_is = refl }))

  -- One notification moves from those that wait to those that were given.
  given-Kept :
      (n : ℕ) (m : PgNotifyResult) (ms : List PgNotifyResult) (v : View)
      → Kept n v
      → v.waiting ≡ m ∷ ms
      → Kept (suc n) (record v { waiting = ms; given = v.given ++ (m ∷ []); held = suc v.held })
  given-Kept n m ms v k e = record {
    in_order = k.in_order ∙ ap (λ t. v.given ++ t) e ∙ sym (append_assoc v.given (m ∷ []) ms);
    held_is = ap suc (k.held_is);
  }

  handle_one-DrainedWell :
      (n : ℕ) (next : World → Option (Drained Q callback)) (c : Conn) (w : World)
      (r : Option PgNotifyResult × World)
      → Q.notifies c w ≡ r
      → ((u : World) → Kept n (view u) → DrainedWell n (next u))
      → Kept n (view w)
      → DrainedWell n (handle_one Q callback next r)
  unfolding handle_one
  handle_one-DrainedWell n next c w (none, w') e h k =
      let (empty, same) = L.none_waits c w w' e in
      rw same (record {
        all_given =
            sym (k.in_order ∙ ap (λ t. (view w).given ++ t) empty ∙ append-nil (view w).given);
        none_left = empty;
        freed = k.held_is;
      })
  handle_one-DrainedWell n next c w (some m, w') e h k =
      let (ms, waits, after) = L.one_waits c w w' m e in
      let line = notify_line Q callback m in
      after_callback-DrainedWell n next m (callback m (Q.print line w')) h (
        rw (L.view-callback m (Q.print line w'), L.view-print line w', after)
          (given-Kept n m ms (view w) k waits))

  pub drain-DrainedWell :
      (n fuel : ℕ) (c : Conn) (w : World)
      → Kept n (view w)
      → DrainedWell n (drain Q callback fuel c w)
  unfolding drain
  drain-DrainedWell n zero c w k = tt
  drain-DrainedWell n (suc fuel) c w k =
      handle_one-DrainedWell n (drain Q callback fuel c) c w (Q.notifies c w) refl
        (drain-DrainedWell n fuel c) k

  clear-Kept : (n : ℕ) (r : Res) (w : World) → Kept (suc n) (view w) → Kept n (view (Q.clear r w))
  clear-Kept n r w h =
      rw (L.view-clear r w n (h.held_is)) (record { in_order = h.in_order; held_is = refl })

  print-Kept : (n : ℕ) (s : Str) (w : World) → Kept n (view w) → Kept n (view (Q.print s w))
  print-Kept n s w h = rw (L.view-print s w) h

  finish-Kept :
      (n : ℕ) (c : Conn) (w : World) → Kept (suc n) (view w) → Kept n (view (Q.finish c w))
  finish-Kept n c w h =
      rw (L.view-finish c w n (h.held_is)) (record { in_order = h.in_order; held_is = refl })

  after_drain-EndsWell :
      (n : ℕ) (next : World → Option (Ending World)) (d : Option (Drained Q callback))
      → ((w : World) → Kept (suc n) (view w) → EndsWell n (next w))
      → DrainedWell (suc n) d
      → EndsWell n (after_drain Q callback next d)
  unfolding after_drain
  after_drain-EndsWell n next none h k = tt
  after_drain-EndsWell n next (some (drained w)) h k = h w (Kept-of-Settled (suc n) (view w) k)
  after_drain-EndsWell n next (some (threw w)) h k = k

  pub consume-Kept :
      (n : ℕ) (c : Conn) (w : World) → Kept n (view w) → Kept n (view (Q.consume_input c w))
  consume-Kept n c w k = rw (L.view-consume_input c w) (record {
    in_order =
        ap (λ t. t ++ L.incoming c w) (k.in_order)
        ∙ append_assoc (view w).given (view w).waiting (L.incoming c w);
    held_is = k.held_is;
  })

  after_select-EndsWell :
      (n fuel : ℕ) (c : Conn) (next : World → Option (Ending World)) (r : Bool × World)
      → ((w : World) → Kept (suc n) (view w) → EndsWell n (next w))
      → Kept (suc n) (view r.1)
      → EndsWell n (after_select Q callback fuel c next r)
  unfolding after_select exit_nicely
  after_select-EndsWell n fuel c next (false, w) h k = finish-Kept n c _ (print-Kept (suc n) _ w k)
  after_select-EndsWell n fuel c next (true, w) h k =
      after_drain-EndsWell n next _ h
        (drain-DrainedWell (suc n) fuel c (Q.consume_input c w) (consume-Kept (suc n) c w k))

  wait_for-EndsWell :
      (n fuel : ℕ) (c : Conn) (next : World → Option (Ending World)) (w : World) (b : Bool)
      → ((u : World) → Kept (suc n) (view u) → EndsWell n (next u))
      → Kept (suc n) (view w)
      → EndsWell n (wait_for Q callback fuel c next w b)
  unfolding wait_for
  wait_for-EndsWell n fuel c next w false h k = finish-Kept n c _ (print-Kept (suc n) _ w k)
  wait_for-EndsWell n fuel c next w true h k =
      after_select-EndsWell n fuel c next (Q.select c w) h (rw (L.view-select c w) k)

  listen_loop-EndsWell :
      (n fuel rounds : ℕ) (c : Conn) (w : World)
      → Kept (suc n) (view w)
      → EndsWell n (listen_loop Q callback fuel rounds c w)
  unfolding listen_loop
  listen_loop-EndsWell n fuel zero c w k = tt
  listen_loop-EndsWell n fuel (suc rounds) c w k =
      wait_for-EndsWell n fuel c (listen_loop Q callback fuel rounds c) w (Q.get_socket c w)
        (listen_loop-EndsWell n fuel rounds c) k

  after_listen-EndsWell :
      (n fuel rounds : ℕ) (c : Conn) (r : Res) (w : World) (b : Bool)
      → Kept (suc (suc n)) (view w)
      → EndsWell n (after_listen Q callback fuel rounds c r w b)
  unfolding after_listen exit_nicely
  after_listen-EndsWell n fuel rounds c r w true h =
      listen_loop-EndsWell n fuel rounds c (Q.clear r w) (clear-Kept (suc n) r w h)
  after_listen-EndsWell n fuel rounds c r w false h =
      finish-Kept n c _ (clear-Kept (suc n) r _ (print-Kept (suc (suc n)) _ w h))

  after_connect-EndsWell :
      (n fuel rounds : ℕ) (channel : Str) (c : Conn) (w : World) (b : Bool)
      → Kept (suc n) (view w)
      → EndsWell n (after_connect Q callback fuel rounds channel c w b)
  unfolding after_connect exit_nicely
  after_connect-EndsWell n fuel rounds channel c w false h =
      finish-Kept n c _ (print-Kept (suc n) _ w h)
  after_connect-EndsWell n fuel rounds channel c w true h =
      after_listen-EndsWell n fuel rounds c _ _ _ (
        rw (L.view-exec c (codes "LISTEN " ++ channel) w) (record {
          in_order =
              ap (λ t. t ++ L.absorbed c (codes "LISTEN " ++ channel) w) (h.in_order)
              ∙ append_assoc (view w).given (view w).waiting
                  (L.absorbed c (codes "LISTEN " ++ channel) w);
          held_is = ap suc (h.held_is);
        }))

  -- By the laws of libpq, wherever connecting, the command, the socket or `select` fails: if the call
  -- returns or leaves the process, the callback was given notifications that have come, each once and
  -- in their order, from the first one on, and those that it was not given are those that still wait
  -- in libpq; the connection, the results and the notifications are freed. If the callback throws, the
  -- same holds, but the connection and one notification are not freed.
  pub client_handler-EndsWell :
      (fuel rounds : ℕ) (channel : Str) (w : World) (n : ℕ)
      → Kept n (view w)
      → EndsWell n (client_handler Q callback fuel rounds channel w)
  unfolding client_handler
  client_handler-EndsWell fuel rounds channel w n h =
      after_connect-EndsWell n fuel rounds channel _ _ _ (
        rw (L.view-connectdb (codes "dbname = pccrms") w)
          (record { in_order = h.in_order; held_is = ap suc (h.held_is) }))
