-- ===== src/Pgsql/Session.antt =====
-- `Client::save(sql)`, `count` and `select` (pg_client.hpp): one statement on a borrowed connection.
-- The library is a parameter. An exception that no `catch` clause takes leaves the method.
use store_cpp.Base.{ℕ, ◌≡◌, ◌≢◌, refl, Option, none, some, Str, codes, ◌∙◌}
use store_cpp.Base.Int.{ℤ, negsuc}
use store_cpp.Extensions.Format.{c_str}
use store_cpp.Library.Database.{
  Database, DatabaseLaws, Result, ok, err, attempt, give_back, then_do, held, Keeps, attempt-lent,
  give_back-lent,
}
use store_cpp.Pgsql.Errors.{
  PgError, connection_error, execution_error, standard, foreign, ErrorType, what, error_type,
}

-- The returned text, and what the pointer `errType` points to (`none` is the null pointer).
pub record Saved : Type 0 where
  pub retval : Str
  pub err_type : Option ErrorType

-- `if (errType) *errType = t;`
assign : Option ErrorType → ErrorType → Option ErrorType
assign none t = none
assign (some u) t = some t

abbrev pub succeeded : Str
succeeded = codes "Succeeded"

module _ {Reply : Type 0} (D : Database PgError Reply) where
  open D use {World, Conn, execute, log_error}

  -- The `catch` clauses, and the return of the connection behind them.
  caught : Option ErrorType → Option Conn → PgError → World → Result PgError Saved × World
  unfolding assign
  caught e conn foreign w = (err foreign, w)
  caught e conn x w = (
    ok (record { retval = what x; err_type = assign e (error_type x) }),
    give_back D conn (log_error (what x) w),
  )

  finish_save :
      Option ErrorType → Option Conn → Result PgError Reply → World → Result PgError Saved × World
  unfolding caught
  finish_save e conn (ok r) w =
      (ok (record { retval = succeeded; err_type = e }), give_back D conn w)
  finish_save e conn (err x) w = caught e conn x w

  unfoldable pub save : Str → Option ErrorType → World → Result PgError Saved × World
  unfolding finish_save
  save sql e w =
      let t = attempt D (λ c. execute c (c_str sql)) w in finish_save e t.conn t.result t.after

  -- `count`: the number in the reply, or -1. `to_int64` is the conversion of the library.
  finish_count : Option Conn → Result PgError ℤ → World → Result PgError ℤ × World
  finish_count conn (ok n) w = (ok n, give_back D conn w)
  finish_count conn (err foreign) w = (err foreign, w)
  finish_count conn (err x) w = (ok (negsuc 0), give_back D conn (log_error (what x) w))

  unfoldable pub count : (Reply → Result PgError ℤ) → Str → World → Result PgError ℤ × World
  unfolding finish_count
  count to_int64 query w =
      let t =
        attempt D (λ c w1. then_do D (execute c (c_str query) w1) (λ r w2. (to_int64 r, w2))) w in
      finish_count t.conn t.result t.after

  -- `select`: the callback gets the reply, and may throw.
  finish_select :
      Option Conn → Result PgError (Unit {0}) → World → Result PgError (Unit {0}) × World
  finish_select conn (ok n) w = (ok tt, give_back D conn w)
  finish_select conn (err foreign) w = (err foreign, w)
  finish_select conn (err x) w = (ok tt, give_back D conn (log_error (what x) w))

  unfoldable pub select :
      (Reply → World → Result PgError (Unit {0}) × World)
      → Str
      → World
      → Result PgError (Unit {0}) × World
  unfolding finish_select
  select callback query w =
      let t = attempt D (λ c w1. then_do D (execute c (c_str query) w1) callback) w in
      finish_select t.conn t.result t.after

-- The method returned: no exception left it.
abbrev pub Returned : {A : Type 0} → Result PgError A → Type 0
Returned (ok a) = Unit
Returned (err x) = ⊥

module _ {Reply : Type 0} (D : Database PgError Reply) (laws : DatabaseLaws D) where
  open D use {World, Conn, execute, log_error}
  open laws use {lent, lent-execute, lent-log_error}

  finish_save-lent :
      (e : Option ErrorType) (conn : Option Conn) (r : Result PgError Reply) (w : World) (n : ℕ)
      → lent w ≡ held D laws conn n
      → Returned (finish_save D e conn r w).0
      → lent (finish_save D e conn r w).1 ≡ n
  unfolding finish_save caught
  finish_save-lent e conn (ok r) w n h ret = give_back-lent D laws conn w n h
  finish_save-lent e conn (err foreign) w n h ret = absurd ret
  finish_save-lent e conn (err (connection_error m)) w n h ret =
      give_back-lent D laws conn (log_error _ w) n (lent-log_error _ w ∙ h)
  finish_save-lent e conn (err (execution_error m)) w n h ret =
      give_back-lent D laws conn (log_error _ w) n (lent-log_error _ w ∙ h)
  finish_save-lent e conn (err standard) w n h ret =
      give_back-lent D laws conn (log_error _ w) n (lent-log_error _ w ∙ h)

  -- Whenever `save` returns, it has given back what it borrowed, on its error paths too.
  pub save-lent :
      (sql : Str) (e : Option ErrorType) (w : World)
      → Returned (save D sql e w).0
      → lent (save D sql e w).1 ≡ lent w
  unfolding save
  save-lent sql e w ret =
      let t = attempt D (λ c. execute c (c_str sql)) w in
      finish_save-lent e t.conn t.result t.after (lent w)
        (attempt-lent D laws (λ c. execute c (c_str sql)) w (λ c v. lent-execute c (c_str sql) v))
        ret

  -- A statement that fails on a borrowed connection is reported by its message and its error type,
  -- the failure is logged, and the connection is given back.
  pub save_failed :
      (sql : Str) (u : ErrorType) (x : PgError) (c : Conn) (w w1 w2 : World)
      → D.borrow w ≡ (ok c, w1)
      → execute c (c_str sql) w1 ≡ (err x, w2)
      → x ≢ foreign
      → save D sql (some u) w ≡ (
        ok (record { retval = what x; err_type = some (error_type x) }),
        D.unborrow c (log_error (what x) w2),
      )
  unfolding save finish_save caught attempt give_back
  save_failed sql u foreign c w w1 w2 hb he ne = absurd (ne refl)
  save_failed sql u (connection_error m) c w w1 w2 hb he ne = simp (hb, he)
  save_failed sql u (execution_error m) c w w1 w2 hb he ne = simp (hb, he)
  save_failed sql u standard c w w1 w2 hb he ne = simp (hb, he)

  pub then_do-Keeps :
      {A : Type 0} (query : Str) (f : Reply → World → Result PgError A × World)
      → ((r : Reply) (w : World) → lent (f r w).1 ≡ lent w)
      → Keeps D laws (λ c w. then_do D (execute c query w) f)
  then_do-Keeps query f keeps c w = go (execute c query w) (lent-execute c query w)
    where
      go : (x : Result PgError Reply × World) → lent x.1 ≡ lent w → lent (then_do D x f).1 ≡ lent w
      go (ok r, v) h = keeps r v ∙ h
      go (err e, v) h = h

  finish_select-lent :
      (conn : Option Conn) (r : Result PgError (Unit {0})) (w : World) (n : ℕ)
      → lent w ≡ held D laws conn n
      → Returned (finish_select D conn r w).0
      → lent (finish_select D conn r w).1 ≡ n
  unfolding finish_select
  finish_select-lent conn (ok r) w n h ret = give_back-lent D laws conn w n h
  finish_select-lent conn (err foreign) w n h ret = absurd ret
  finish_select-lent conn (err (connection_error m)) w n h ret =
      give_back-lent D laws conn (log_error _ w) n (lent-log_error _ w ∙ h)
  finish_select-lent conn (err (execution_error m)) w n h ret =
      give_back-lent D laws conn (log_error _ w) n (lent-log_error _ w ∙ h)
  finish_select-lent conn (err standard) w n h ret =
      give_back-lent D laws conn (log_error _ w) n (lent-log_error _ w ∙ h)

  -- `select` gives back its connection, if the callback lends none and what it throws is caught.
  select-lent :
      (callback : Reply → World → Result PgError (Unit {0}) × World) (query : Str) (w : World)
      → ((r : Reply) (v : World) → lent (callback r v).1 ≡ lent v)
      → Returned (select D callback query w).0
      → lent (select D callback query w).1 ≡ lent w
  unfolding select
  select-lent callback query w keeps ret =
      let t = attempt D (λ c w1. then_do D (execute c (c_str query) w1) callback) w in
      finish_select-lent t.conn t.result t.after (lent w)
        (attempt-lent D laws _ w (then_do-Keeps (c_str query) callback keeps)) ret
