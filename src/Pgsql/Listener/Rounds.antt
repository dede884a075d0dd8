-- ===== src/Pgsql/Listener/Rounds.antt =====
-- One round of the listener's endless loop (store.storage.pgsql/src/pg_notifier.hpp).
use store_cpp.Base.{
  ℕ, zero, suc, ◌<◌, ◌≡◌, refl, sym, ap, ◌∙◌, arith, Bool, true, false, Option, none, some, [], ◌∷◌,
  ◌++◌, append_assoc, append-nil, length, subst, ap₂,
}
use store_cpp.Pgsql.Listener.{
  Libpq, PgNotifyResult, Ending, Drained, drained, notify_line, after_callback, handle_one, drain,
  after_drain, after_select, wait_for, listen_loop,
}
use store_cpp.Pgsql.Listener.Views.{View, LibpqLaws, Settled, Kept-of-Settled}
use store_cpp.Pgsql.Listener.Deliveries.{DrainedWell, drain-DrainedWell, consume-Kept}

module _ (Q : Libpq) (callback : PgNotifyResult → Q.World → Bool × Q.World)
    (L : LibpqLaws Q callback)
    (quiet : (m : PgNotifyResult) (w : Q.World) → (callback m w).0 ≡ false) where
  open Q use {World, Conn}
  open L use {view}

  -- The loop ends, and has given what waited, and nothing has come meanwhile.
  DrainsTo : World → Option (Drained Q callback) → Type 0
  DrainsTo w d =
      (w' : World) × (d ≡ some (drained w'))
      × ((view w').given ≡ (view w).given ++ (view w).waiting)

  after_callback-quiet :
      (next : World → Option (Drained Q callback)) (m : PgNotifyResult) (r : Bool × World)
      → r.0 ≡ false
      → after_callback Q callback next m r ≡ next (Q.freemem m r.1)
  unfolding after_callback
  after_callback-quiet next m (true, w) e = cc
  after_callback-quiet next m (false, w) e = refl

  handle_one-DrainsTo :
      (fuel : ℕ) (c : Conn) (w : World) (r : Option PgNotifyResult × World)
      → Q.notifies c w ≡ r
      → length (view w).waiting < suc fuel
      → ((u : World) → length (view u).waiting < fuel → DrainsTo u (drain Q callback fuel c u))
      → DrainsTo w (handle_one Q callback (drain Q callback fuel c) r)
  unfolding handle_one DrainsTo
  handle_one-DrainsTo fuel c w (none, w') e short ih =
      let (empty, same) = L.none_waits c w w' e in
      (
        w',
        refl,
        ap (λ (v : View). v.given) same
            ∙ sym (append-nil (view w).given)
            ∙ ap (λ t. (view w).given ++ t) (sym empty),
      )
  handle_one-DrainsTo fuel c w (some m, w') e short ih =
      let (ms, waits, after) = L.one_waits c w w' m e in
      let u = Q.print (notify_line Q callback m) w' in
      let r = callback m u in
      let seen : view r.1 ≡ record (view w) {
        waiting = ms;
        held = suc (view w).held;
        given = (view w).given ++ (m ∷ []);
      } =
        L.view-callback m u
        ∙ ap (λ (v : View). record v { given = v.given ++ (m ∷ []) })
            (L.view-print (notify_line Q callback m) w' ∙ after) in
      let next : view (Q.freemem m r.1)
          ≡ record (view w) { waiting = ms; given = (view w).given ++ (m ∷ []) } =
        L.view-freemem m r.1 (view w).held (ap (λ (v : View). v.held) seen)
        ∙ ap (λ (v : View). record v { held = (view w).held }) seen in
      let (w'', d, g) = ih (Q.freemem m r.1) (
        omega (arith, short, ap (λ t. length t) waits, ap (λ (v : View). length v.waiting) next)) in
      (
        w'',
        after_callback-quiet (drain Q callback fuel c) m r (quiet m u) ∙ d,
        g
            ∙ ap (λ (v : View). v.given ++ v.waiting) next
            ∙ append_assoc (view w).given (m ∷ []) ms
            ∙ ap (λ t. (view w).given ++ t) (sym waits),
      )

  drain-DrainsTo :
      (fuel : ℕ) (c : Conn) (w : World)
      → length (view w).waiting < fuel
      → DrainsTo w (drain Q callback fuel c w)
  unfolding drain
  drain-DrainsTo zero c w h = absurd (omega (arith, h))
  drain-DrainsTo (suc fuel) c w h =
      handle_one-DrainsTo fuel c w (Q.notifies c w) refl h (drain-DrainsTo fuel c)

  after_drain-drained :
      (next : World → Option (Ending World)) (d : Option (Drained Q callback)) (w : World)
      → d ≡ some (drained w)
      → after_drain Q callback next d ≡ next w
  unfolding after_drain
  after_drain-drained next d w e = rw e refl

  after_select-ready :
      (fuel : ℕ) (c : Conn) (next : World → Option (Ending World)) (r : Bool × World)
      → r.0 ≡ true
      → after_select Q callback fuel c next r
        ≡ after_drain Q callback next (drain Q callback fuel c (Q.consume_input c r.1))
  unfolding after_select
  after_select-ready fuel c next (true, w) e = refl
  after_select-ready fuel c next (false, w) e = cc

  -- A round of the endless loop, from a world where no notification waits, with a socket, a `select`
  -- that succeeds, a callback that does not throw, and more fuel than notifications that the input
  -- brings: the round ends, and the callback was given exactly those, behind all before, in their
  -- order; then none waits, and nothing more is held than before.
  pub listen_loop-round :
      (fuel rounds n : ℕ) (c : Conn) (w : World)
      → Settled n (view w)
      → Q.get_socket c w ≡ true
      → (Q.select c w).0 ≡ true
      → length (L.incoming c (Q.select c w).1) < fuel
      → (w' : World) × (listen_loop Q callback fuel (suc rounds) c w
          ≡ listen_loop Q callback fuel rounds c w')
        × ((view w').given ≡ (view w).given ++ L.incoming c (Q.select c w).1)
        × Settled n (view w')
  unfolding listen_loop wait_for DrainsTo
  listen_loop-round fuel rounds n c w h socket ready enough =
      let u = (Q.select c w).1 in
      let settled : Settled n (view u) = rw (L.view-select c w) h in
      let brought : (view (Q.consume_input c u)).waiting ≡ L.incoming c u =
        ap (λ (v : View). v.waiting) (L.view-consume_input c u)
        ∙ ap (λ t. t ++ L.incoming c u) (settled.none_left) in
      let before : (view (Q.consume_input c u)).given ≡ (view w).given =
        ap (λ (v : View). v.given) (L.view-consume_input c u)
        ∙ ap (λ (v : View). v.given) (L.view-select c w) in
      let (w', d, g) =
        drain-DrainsTo fuel c (Q.consume_input c u)
          (omega (arith, enough, ap (λ t. length t) brought)) in
      (
        w',
        rw socket (
            after_select-ready fuel c (listen_loop Q callback fuel rounds c) (Q.select c w) ready
            ∙ after_drain-drained (listen_loop Q callback fuel rounds c) _ w' d),
        g ∙ ap₂ (λ s t. s ++ t) before brought,
        subst (DrainedWell Q callback L n) d (
            drain-DrainedWell Q callback L n fuel c (Q.consume_input c u)
              (consume-Kept Q callback L n c u (Kept-of-Settled n (view u) settled))),
      )
