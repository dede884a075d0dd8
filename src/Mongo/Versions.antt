-- ===== src/Mongo/Versions.antt =====
-- The counters that `getNextSequenceValue` draws from (mongo_base_client.hpp).
use store_cpp.Base.{
  ℕ, suc, ◌+◌, ◌≡◌, ◌≤◌, ◌<◌, subst, sym, Bool, true, false, Str, List, [], ◌∷◌, All, arith, codes,
}
use store_cpp.Base.Int.{ℤ, pos, negsuc}
use store_cpp.Library.Database.{Result, ok, err}
use store_cpp.Mongo.Driver.{
  Thrown, exception, literal, undefined, pure, throw, continue, ◌>>=◌, ◌>>◌, caught, try_catch,
  built, text_field, int64_field, Mongo,
}
use store_cpp.Mongo.Client.{
  Client, check_client, check_instance, acquire, log_and, chosen, counter_filter, counter_update,
  read_sequence_value, get_next_sequence_value,
}

-- The counter's document after `$inc` by `step` on a counter at `n`, which is at `n'` afterwards. Where
-- the call throws, the server may have counted already.
abbrev pub Updated : (D : Mongo) → Str → ℕ → ℕ → Result Thrown D.Bson → ℕ → Type 0
Updated D key step n (ok doc) n' = (D.get_int64 doc key ≡ ok (pos (step + n))) × (n' ≡ step + n)
Updated D key step n (err e) n' = n ≤ n'

-- The document of a collection that holds a counter in one field, by the documentation of `$inc` and of
-- `findAndModify`. Connecting and logging leave it.
pub record Counter (D : Mongo) (database collection id : Str) : Type 0 where
  pub value : D.World → ℕ
  pub incremented :
      (step : ℕ) (w : D.World)
      → let r =
          D.find_one_and_update database collection
            (built ((codes "_id", text_field id) ∷ []))
            (built ((codes "$inc", int64_field (codes "sequence_value") (pos step)) ∷ []))
            w in
        Updated D (codes "sequence_value") step (value w) r.0 (value r.1)
  pub connected : (w : D.World) → value (D.try_get_connection w).1 ≡ value w
  pub logged : (m : Str) (w : D.World) → value (D.log_error m w) ≡ value w

-- The numbers that `getNextSequenceValue` gave, the latest first; -1 stands for a failure.
abbrev pub with_number : Result Thrown ℤ → List ℕ → List ℕ
with_number (ok (pos n)) ns = n ∷ ns
with_number (ok (negsuc n)) ns = ns
with_number (err e) ns = ns

-- Each number is larger than all before it.
abbrev pub Increasing : List ℕ → Type 0
Increasing [] = Unit
Increasing (n ∷ ns) = All (λ m. m < n) ns × Increasing ns

-- A call takes a counter from `n` to `n'`.
abbrev Numbered : ℕ → Result Thrown ℤ → ℕ → Type 0
Numbered n (ok (pos m)) n' = (m ≡ suc n) × (n' ≡ m)
Numbered n (ok (negsuc m)) n' = n ≤ n'
Numbered n (err e) n' = n ≤ n'

module _ (D : Mongo) (c : Client) (name id : Str)
    (counter : Counter D c.database (chosen c name) id) where
  open D use {World, Bson}
  open counter use {value, incremented, connected, logged}

  -- Calls in any order with what other clients do, who may move the counter on.
  pub data Draws : List ℕ → World → Type 0 where
    unused : (w : World) → Draws [] w
    others : {ns : List ℕ} {w : World} (w' : World) → Draws ns w → value w ≤ value w' → Draws ns w'
    drawn :
        {ns : List ℕ} {w : World}
        → Draws ns w
        → Draws
            (with_number (get_next_sequence_value D c id name w).0 ns)
            (get_next_sequence_value D c id name w).1

  read-Numbered :
      (r : Result Thrown Bson × World) (n : ℕ)
      → Updated D (codes "sequence_value") 1 n r.0 (value r.1)
      → let s = continue r (read_sequence_value D) in Numbered n s.0 (value s.1)
  unfolding continue read_sequence_value
  read-Numbered (ok doc, w) n (e, k) =
      subst (λ z. Numbered n z (value w)) (sym e) (omega arith, omega (arith, k))
  read-Numbered (err x, w) n h = h

  update-Numbered :
      (w : World) (n : ℕ)
      → value w ≡ n
      → let r =
          (D.find_one_and_update c.database (chosen c name) (counter_filter D id) (counter_update D)
              >>= read_sequence_value D)
            w in
        Numbered n r.0 (value r.1)
  unfolding ◌>>=◌ counter_filter counter_update
  update-Numbered w n e =
      let r =
        D.find_one_and_update c.database (chosen c name) (counter_filter D id) (counter_update D)
          w in
      read-Numbered r n
        (subst (λ k. Updated D (codes "sequence_value") 1 k r.0 (value r.1)) e (incremented 1 w))

  checked-Numbered :
      (r : Result Thrown Bool × World) (n : ℕ)
      → value r.1 ≡ n
      → let s = continue (continue r (check_client D)) (λ _.
        D.find_one_and_update c.database (chosen c name) (counter_filter D id) (counter_update D)
        >>= read_sequence_value D) in
        Numbered n s.0 (value s.1)
  unfolding continue check_client pure throw
  checked-Numbered (ok true, w) n e = update-Numbered w n e
  checked-Numbered (ok false, w) n e = omega (arith, e)
  checked-Numbered (err x, w) n e = omega (arith, e)

  instance-Numbered :
      (b : Bool) (w : World)
      → let s =
          continue
            (continue
              (check_instance D b w)
              (λ _ u. continue (D.try_get_connection u) (check_client D)))
            (λ _.
              D.find_one_and_update c.database
                (chosen c name)
                (counter_filter D id)
                (counter_update D)
              >>= read_sequence_value D) in
        Numbered (value w) s.0 (value s.1)
  unfolding continue check_instance pure throw
  instance-Numbered true w = checked-Numbered (D.try_get_connection w) (value w) (connected w)
  instance-Numbered false w = omega arith

  caught-Numbered :
      (r : Result Thrown ℤ × World) (n : ℕ)
      → Numbered n r.0 (value r.1)
      → let s = caught (log_and D (negsuc 0)) r in Numbered n s.0 (value s.1)
  unfolding caught log_and
  caught-Numbered (ok z, w) n h = h
  caught-Numbered (err (exception m), w) n h = omega (arith, h, logged m w)
  caught-Numbered (err (literal m), w) n h = h
  caught-Numbered (err undefined, w) n h = h

  get_next_sequence_value-Numbered :
      (w : World)
      → let r = get_next_sequence_value D c id name w in Numbered (value w) r.0 (value r.1)
  unfolding get_next_sequence_value try_catch acquire ◌>>◌ ◌>>=◌
  get_next_sequence_value-Numbered w =
      caught-Numbered _ (value w) (instance-Numbered D.has_instance w)

  All-le : (a b : ℕ) (ns : List ℕ) → a ≤ b → All (λ m. m ≤ a) ns → All (λ m. m ≤ b) ns
  All-le a b [] h all = tt
  All-le a b (n ∷ ns) h (x, all) = (omega (arith, h, x), All-le a b ns h all)

  All-lt : (a : ℕ) (ns : List ℕ) → All (λ m. m ≤ a) ns → All (λ m. m < suc a) ns
  All-lt a [] all = tt
  All-lt a (n ∷ ns) (x, all) = (omega (arith, x), All-lt a ns all)

  -- One more call on numbers that grow and that the counter has reached.
  with_number-Increasing :
      (n n' : ℕ) (r : Result Thrown ℤ) (ns : List ℕ)
      → Numbered n r n'
      → Increasing ns × All (λ m. m ≤ n) ns
      → Increasing (with_number r ns) × All (λ m. m ≤ n') (with_number r ns)
  with_number-Increasing n n' (ok (pos m)) ns (e, k) (i, a) = (
    (subst (λ x. All (λ y. y < x) ns) (sym e) (All-lt n ns a), i),
    (omega (arith, k), All-le n n' ns (omega (arith, e, k)) a),
  )
  with_number-Increasing n n' (ok (negsuc m)) ns h (i, a) = (i, All-le n n' ns h a)
  with_number-Increasing n n' (err e) ns h (i, a) = (i, All-le n n' ns h a)

  Draws-reached : (ns : List ℕ) (w : World) → Draws ns w → Increasing ns × All (λ m. m ≤ value w) ns
  Draws-reached _ w (unused _) = (tt, tt)
  Draws-reached ns w' (others {w} _ d h) =
      let (i, a) = Draws-reached ns w d in (i, All-le (value w) (value w') ns h a)
  Draws-reached _ _ (drawn {ns} {w} d) =
      with_number-Increasing (value w) _ _ ns (get_next_sequence_value-Numbered w)
        (Draws-reached ns w d)

  -- In any sequence of calls on a counter, among other clients who only move it on, and whichever calls
  -- fail before or after the server has counted: each number that `getNextSequenceValue` gives is larger
  -- than all that it gave before, so none is given twice.
  pub Draws-Increasing : (ns : List ℕ) (w : World) → Draws ns w → Increasing ns
  Draws-Increasing ns w d = (Draws-reached ns w d).0
