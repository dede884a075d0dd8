-- ===== src/Common/Worker.antt =====
-- `BackgroundWorker` (store.common/src/background_worker.hpp). A thread is what it was started with, and
-- whether it was joined.
use store_cpp.Base.{
  ◌≡◌, refl, ap, ◌∙◌, arith, Bool, true, false, Option, none, some, List, [], ◌∷◌, ◌++◌, ltb, sym,
  length, map, append_assoc, append-nil, if◌then◌else◌,
}

pub record StartedThread (A : Type 0) : Type 0 where
  pub argument : A
  pub joined : Bool

module _ {A : Type 0} where
  unfoldable pub started : A → StartedThread A
  started a = record { argument = a; joined = false }

  -- `startMany(args…)`: one thread for each argument.
  unfoldable pub start_many : List A → List (StartedThread A) → List (StartedThread A)
  unfolding started
  start_many [] threads = threads
  start_many (a ∷ args) threads = start_many args (threads ++ (started a ∷ []))

  -- `start(callback, args…)`: one thread, whose argument is the whole tuple.
  unfoldable pub start : A → List (StartedThread A) → List (StartedThread A)
  unfolding started
  start args threads = threads ++ (started args ∷ [])

  -- Joining a thread a second time throws, which is `none`.
  unfoldable pub join_thread : StartedThread A → Bool → Option (StartedThread A)
  join_thread t true = none
  join_thread t false = some (record t { joined = true })

  abbrev pub put_back :
      List (StartedThread A) → Option (StartedThread A) → Option (List (StartedThread A))
  put_back threads none = none
  put_back threads (some t) = some (threads ++ (t ∷ []))

  -- `threads.at(len - 1)->join()`, on the threads before the last and the last.
  unfoldable pub join_last :
      List (StartedThread A)
      → StartedThread A
      → List (StartedThread A)
      → Option (List (StartedThread A))
  unfolding join_thread
  join_last before t [] = put_back before (join_thread t t.joined)
  join_last before t (u ∷ us) = join_last (before ++ (t ∷ [])) u us

  unfoldable pub join : List (StartedThread A) → Option (List (StartedThread A))
  unfolding join_last
  join [] = some []
  join (t ∷ ts) = join_last [] t ts

  -- The destructor of a thread that was not joined ends the process, which is `none`.
  unfoldable pub destroy : List (StartedThread A) → Option (Unit {0})
  destroy [] = some tt
  destroy (t ∷ ts) = if t.joined then destroy ts else none

  -- All but the last are as they were.
  start_many-append :
      (args : List A) (threads : List (StartedThread A))
      → start_many args threads ≡ threads ++ map started args
  unfolding start_many
  start_many-append [] threads = sym (append-nil threads)
  start_many-append (a ∷ args) threads =
      start_many-append args (threads ++ (started a ∷ []))
      ∙ append_assoc threads (started a ∷ []) (map started args)

  -- The threads after a `join` of a worker that started them together.
  abbrev pub last_joined : List A → List (StartedThread A)
  last_joined [] = []
  last_joined (a ∷ []) = record { argument = a; joined = true } ∷ []
  last_joined (a ∷ b ∷ args) = record { argument = a; joined = false } ∷ last_joined (b ∷ args)

  joins_last :
      (args : List A) (a : A) (before : List (StartedThread A))
      → join_last before (started a) (map started args) ≡ some (before ++ last_joined (a ∷ args))
  unfolding join_last join_thread started
  joins_last [] a before = refl
  joins_last (b ∷ args) a before =
      joins_last args b (before ++ (started a ∷ []))
      ∙ ap some (append_assoc before (started a ∷ []) (last_joined (b ∷ args)))

  join_many : (args : List A) → join (map started args) ≡ some (last_joined args)
  unfolding join
  join_many [] = refl
  join_many (a ∷ args) = joins_last args a []

  destroy_many :
      (args : List A) → destroy (last_joined args) ≡ (if ltb 1 (length args) then none else some tt)
  unfolding destroy
  destroy_many [] = refl
  destroy_many (a ∷ []) = refl
  destroy_many (a ∷ b ∷ args) = ground arith

  -- A new worker starts one thread for each argument, in their order; `join` waits for the last of
  -- them and for no other; and destroying the worker then ends the process exactly if it had started
  -- more than one thread.
  pub start_many-join :
      (args : List A)
      → (join (start_many args []) ≡ some (last_joined args))
        × (destroy (last_joined args) ≡ (if ltb 1 (length args) then none else some tt))
  start_many-join args = (rw (start_many-append args []) (join_many args), destroy_many args)
