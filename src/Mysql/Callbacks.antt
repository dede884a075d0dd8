-- ===== src/Mysql/Callbacks.antt =====
-- When the callback of `connectAsync` is called (store.storage.mysql/src/my_client.hpp).
use store_cpp.Base.{
  codes, ◌++◌, ◌≡◌, refl, ap, sym, subst, ◌∙◌, true, false, Option, none, some, Str, [], ◌∷◌,
}
use store_cpp.Mysql.{
  MyLib, Thrown, system_error, std_exception, other, on_connect, on_query, on_result, Callback,
  Client, new_client, check_error, run_handler, caught, report_system_error, connect_async, RunLaws,
}

module _ (A : MyLib) where
  open A use {World, Code, Results}

  -- The report of a code, if there is one.
  abbrev pub reported : Option Code → World → World
  reported none w = w
  reported (some c) w = A.print_error (codes "System error: " ++ A.describe c ++ codes "\n") w

  -- The three operations one after the other, each started behind the report of the one before: the
  -- last code and the result, and the world before the callback.
  abbrev in_turn : (Option Code → World → World) → Str → World → (Option Code × Results) × World
  in_turn report stmt w =
      let (ec, w1) = A.connected (A.async_connect w) in
      let (ec', w2) = A.queried (A.async_query stmt (report ec w1)) in
      let ((ec'', rs), w3) = A.stored (A.async_store_result (report ec' w2)) in
      ((ec'', rs), report ec'' w3)

  abbrev pub outcome : Str → World → (Option Code × Results) × World
  outcome = in_turn reported

  -- The client after the callback: nothing is due, and Asio is stopped unless it threw.
  abbrev called : Callback A → Option (Thrown Code) × World → Option (Thrown Code) × Client A
  called f (none, w) =
      (none, record { user_result_callback = f; due = []; stopped = true; world = w })
  called f (some e, w) =
      (some e, record { user_result_callback = f; due = []; stopped = false; world = w })

  abbrev pub call_of : Callback A → (Option Code × Results) × World → Option (Thrown Code) × World
  call_of f ((ec, rs), w) = f ec rs w

  -- A client that runs, with nothing due.
  abbrev here : Callback A → World → Client A
  here f w = record { user_result_callback = f; due = []; stopped = false; world = w }

  -- How `connectAsync` ends after what the callback did: without an exception Asio is stopped, and
  -- after one it is not.
  abbrev pub Ends :
      Callback A → Option (Thrown Code) × World → Option (Thrown Code) × Client A → Type 0
  Ends f (none, w) r = r ≡ (none, record (here f w) { stopped = true })
  Ends f (some (system_error c), w) r = r ≡ (none, here f (reported (some c) w))
  Ends f (some (std_exception t), w) r =
      r ≡ (none, here f (A.print_error (codes "Exception: " ++ t ++ codes "\n") w))
  Ends f (some other, w) r = r ≡ (some other, here f w)

  called-Ends :
      (f : Callback A) (r : Option (Thrown Code) × World) → Ends f r (caught A (called f r))
  unfolding caught report_system_error
  called-Ends f (none, w) = refl
  called-Ends f (some (system_error c), w) = refl
  called-Ends f (some (std_exception t), w) = refl
  called-Ends f (some other, w) = refl

  check_error-reported : (ec : Option Code) (w : World) → check_error A ec w ≡ reported ec w
  unfolding check_error report_system_error
  check_error-reported none w = refl
  check_error-reported (some c) w = refl

  -- The outcome in the words of the code.
  abbrev checked_outcome : Str → World → (Option Code × Results) × World
  checked_outcome = in_turn (check_error A)

  checked_outcome_lem : (stmt : Str) (w : World) → checked_outcome stmt w ≡ outcome stmt w
  checked_outcome_lem stmt w = ap (λ f. in_turn f stmt w) (λ i ec v. check_error-reported ec v i)

  module _ (run : Client A → Option (Thrown Code) × Client A) (L : RunLaws A run) where
    -- The last handler is due.
    after_result :
        (f : Callback A) (w : World) (r : Option (Thrown Code) × World)
        → call_of f ((A.stored w).0, check_error A (A.stored w).0.0 (A.stored w).1) ≡ r
        → run
            (record { user_result_callback = f; due = on_result ∷ []; stopped = false; world = w })
          ≡ called f r
    unfolding run_handler
    after_result f w (none, w') e =
        L.run_next _ _ on_result [] refl refl
          (ap (λ (t : Option (Thrown Code) × World). (t.0, here f (t.1))) e)
        ∙ L.run_idle (here f w') refl refl
    after_result f w (some x, w') e =
        L.run_thrown _ (here f w') on_result [] x refl refl
          (ap (λ (t : Option (Thrown Code) × World). (t.0, here f (t.1))) e)

    -- Before the two `catch` clauses.
    connect_async-caught :
        (stmt : Str) (f g : Callback A) (w : World)
        → connect_async A run stmt f (new_client A g w)
          ≡ caught A (called f (call_of f (checked_outcome stmt w)))
    unfolding connect_async new_client run_handler
    connect_async-caught stmt f g w = ap (caught A) (
        L.run_next _ _ (on_connect stmt) [] refl refl refl
        ∙ L.run_next _ _ on_query [] refl refl refl
        ∙ after_result f _ _ refl)

    -- On a new client, whatever codes connecting, the query and the result have: the callback is
    -- called once, with the last code and the result, behind the reports of the codes. If it throws a
    -- system error or another standard exception, that is reported and `connectAsync` returns; any
    -- other exception leaves it.
    pub connect_async-called :
        (stmt : Str) (f g : Callback A) (w : World)
        → Ends f (call_of f (outcome stmt w)) (connect_async A run stmt f (new_client A g w))
    connect_async-called stmt f g w =
        subst (λ o. Ends f (call_of f o) (connect_async A run stmt f (new_client A g w)))
          (checked_outcome_lem stmt w)
          (subst (Ends f (call_of f (checked_outcome stmt w)))
            (sym (connect_async-caught stmt f g w))
            (called-Ends f (call_of f (checked_outcome stmt w))))

    again :
        (stmt : Str) (f h : Callback A) (r : Option (Thrown Code) × World) (c : Client A)
        → r.0 ≡ none
        → Ends h r (none, c)
        → connect_async A run stmt f c ≡ (
          none,
          record c {
            user_result_callback = f;
            due = on_connect stmt ∷ [];
            world = A.async_connect c.world;
          },
        )
    unfolding connect_async caught
    again stmt f h (some e, w) c q p = cc
    again stmt f h (none, w) c q p =
        subst
          (λ d. connect_async A run stmt f d ≡ (
            none,
            record d {
              user_result_callback = f;
              due = on_connect stmt ∷ [];
              world = A.async_connect d.world;
            },
          ))
          (ap (λ t. t.1) (sym p)) (ap (caught A) (L.run_stopped _ refl))

    -- After a call whose callback threw nothing, a second call on the same client starts to connect
    -- and returns, but runs no handler: neither the statement nor the callback comes into play, and
    -- the handler stays due, since Asio is still stopped.
    pub connect_async_again :
        (stmt stmt' : Str) (f f' g : Callback A) (w : World) (c : Client A)
        → connect_async A run stmt f (new_client A g w) ≡ (none, c)
        → (call_of f (outcome stmt w)).0 ≡ none
        → connect_async A run stmt' f' c ≡ (
          none,
          record c {
            user_result_callback = f';
            due = on_connect stmt' ∷ [];
            world = A.async_connect c.world;
          },
        )
    connect_async_again stmt stmt' f f' g w c first quiet =
        again stmt' f' f (call_of f (outcome stmt w)) c quiet
          (subst (Ends f (call_of f (outcome stmt w))) first (connect_async-called stmt f g w))
