-- ===== src/Tests/Asio.antt =====
-- A service that runs the handlers of the MySQL client: each handler leaves one that is nearer to the end, or
-- none, so the sum of their distances is the length of the run.
use store_cpp.Base.{
  ℕ, zero, suc, ◌+◌, ◌≡◌, refl, sym, ap, ◌∙◌, arith, Bool, true, false, Option, none, some, List,
  [], ◌∷◌, ◌++◌,
}
use store_cpp.Mysql.{
  MyLib, Thrown, Handler, on_connect, on_query, on_result, Client, run_handler, RunLaws,
}

abbrev distance : Handler → ℕ
distance (on_connect s) = 3
distance on_query = 2
distance on_result = 1

abbrev distances : List Handler → ℕ
distances [] = 0
distances (h ∷ hs) = distance h + distances hs

distances-append : (hs ks : List Handler) → distances (hs ++ ks) ≡ distances hs + distances ks
distances-append [] ks = omega arith
distances-append (h ∷ hs) ks = omega (arith, distances-append hs ks)

module _ (A : MyLib) where
  abbrev Ran : Type 0
  Ran = Option (Thrown A.Code) × Client A

  go_on : (Client A → Ran) → Ran → Ran
  go_on next (none, c) = next c
  go_on next (some e, c) = (some e, c)

  steps : ℕ → Client A → List Handler → Ran
  steps fuel c [] = (none, record c { stopped = true })
  steps zero c (h ∷ hs) = (none, c)
  steps (suc fuel) c (h ∷ hs) =
      go_on (λ c'. steps fuel c' c'.due) (run_handler A h (record c { due = hs }))

  start : Client A → Bool → Ran
  start c true = (none, c)
  start c false = steps (distances c.due) c c.due

  pub asio : Client A → Ran
  asio c = start c c.stopped

  nearer :
      (h : Handler) (hs : List Handler) (c : Client A)
      → suc (distances (run_handler A h (record c { due = hs })).1.due) ≡ distances (h ∷ hs)
  unfolding run_handler
  nearer (on_connect s) hs c = omega (arith, distances-append hs (on_query ∷ []))
  nearer on_query hs c = omega (arith, distances-append hs (on_result ∷ []))
  nearer on_result hs c = omega arith

  still_open :
      (h : Handler) (hs : List Handler) (c : Client A)
      → (run_handler A h (record c { due = hs })).1.stopped ≡ c.stopped
  unfolding run_handler
  still_open (on_connect s) hs c = refl
  still_open on_query hs c = refl
  still_open on_result hs c = refl

  asio_open :
      (c : Client A) (hs : List Handler)
      → c.stopped ≡ false
      → c.due ≡ hs
      → asio c ≡ steps (distances hs) c hs
  unfolding asio start
  asio_open c hs s e = ap (start c) s ∙ ap (λ d. steps (distances d) c d) e

  asio_handler :
      (c c' : Client A) (h : Handler) (hs : List Handler) (x : Option (Thrown A.Code))
      → c.stopped ≡ false
      → c.due ≡ h ∷ hs
      → run_handler A h (record c { due = hs }) ≡ (x, c')
      → asio c ≡ go_on (λ d. steps (distances c'.due) d d.due) (x, c')
  unfolding steps
  asio_handler c c' h hs x s e r =
      let near : distances (h ∷ hs) ≡ suc (distances c'.due) =
        omega (arith, nearer h hs c, ap (λ (t : Ran). distances t.1.due) r) in
      asio_open c (h ∷ hs) s e
      ∙ ap (λ k. steps k c (h ∷ hs)) near
      ∙ ap (go_on (λ d. steps (distances c'.due) d d.due)) r

  pub asio_laws : RunLaws A asio
  unfolding asio start steps go_on
  asio_laws = record {
    run_stopped = λ c s. ap (start c) s;
    run_idle = λ c s e. asio_open c [] s e;
    run_next = λ c c' h hs s e r.
        asio_handler c c' h hs none s e r
        ∙ sym (
            asio_open c' c'.due (ap (λ (t : Ran). t.1.stopped) (sym r) ∙ still_open h hs c ∙ s)
              refl);
    run_thrown = λ c c' h hs x s e r. asio_handler c c' h hs (some x) s e r;
  }
