-- ===== src/Cassandra/Driver.antt =====
-- The DataStax driver (cassandra.h): each call takes the world to a new one, and a computation of the
-- client is a function of the world that may not return.
use store_cpp.Base.{ℕ, suc, ◌≡◌, Option, none, some, Bool, Str, List}
use store_cpp.Base.Int.{ℤ}

-- `none`: the call does not return (`throw;` outside a handler is `std::terminate`), or is undefined.
abbrev pub M : Type 0 → Type 0 → Type 0
M W A = W → Option (A × W)

module _ {W : Type 0} where
  unfoldable pub pure : {A : Type 0} → A → M W A
  pure a w = some (a, w)

  abbrev pub bound : {A B : Type 0} → Option (A × W) → (A → M W B) → Option (B × W)
  bound none f = none
  bound (some (a, w)) f = f a w

  infixl 5 ◌>>=◌ ◌>>◌
  unfoldable pub ◌>>=◌ : {A B : Type 0} → M W A → (A → M W B) → M W B
  ◌>>=◌ m f w = bound (m w) f

  unfoldable pub ◌>>◌ : {B : Type 0} → M W (Unit {0}) → M W B → M W B
  m >> k = m >>= λ _. k

  -- A call that returns a value, and one that returns nothing.
  unfoldable pub call : {A : Type 0} → (W → A × W) → M W A
  call f w = some (f w)

  unfoldable pub step : (W → W) → M W (Unit {0})
  step f w = some (tt, f w)

  unfoldable pub stuck : {A : Type 0} → M W A
  stuck w = none

  -- What must be there: another case is undefined.
  unfoldable pub need : {A : Type 0} → Option A → M W A
  need none w = none
  need (some a) w = some (a, w)

-- The typed binding functions, `cass_statement_bind_string` and so on.
pub data Bound : Type 0 where
  bind_string : Str → Bound
  bind_bool : Bool → Bound
  bind_float bind_double : ℕ → Bound
  bind_int32 bind_int64 : ℤ → Bound
  bind_uuid : Str → Bound

pub record Driver : Type 1 where
  pub World : Type 0
  pub Statement : Type 0
  pub Future : Type 0
  pub Batch : Type 0
  pub Answer : Type 0
  pub Iterator : Type 0
  pub Row : Type 0
  pub statement_new : Str → ℕ → World → Statement × World
  pub statement_bind : Statement → ℕ → Bound → World → World
  pub statement_free : Statement → World → World
  pub session_execute : Statement → World → Future × World
  pub future_wait : Future → World → World
  pub future_error_code : Future → World → ℕ × World
  pub future_error_message : Future → World → Str × World
  pub future_set_callback : Future → ℕ → World → World
  pub future_free : Future → World → World
  pub future_get_result : Future → World → Answer × World
  pub result_row_count : Answer → ℕ
  pub result_first_row : Answer → Option Row
  pub result_free : Answer → World → World
  pub iterator_from_result : Answer → World → Iterator × World
  pub iterator_rows : Iterator → List Row
  pub iterator_free : Iterator → World → World
  -- The value of a cell; of a null one, or one that is not there, the driver sets none.
  pub get_string : Row → Str → Option Str
  pub get_int64 : Row → Str → Option ℤ
  pub get_uuid : Row → Str → Option Str
  -- `GetInstance<CassandraBaseClient>()`: a client, or null
  pub base_client : Option (Unit {0})
  pub batch_new : World → Batch × World
  pub batch_add_statement : Batch → Statement → World → World
  pub session_execute_batch : Batch → World → Future × World
  pub batch_free : Batch → World → World
  pub uuid_gen_from_time : ℤ → World → Str × World
  pub print : Str → World → World

-- How many of the driver's objects are not freed: each is made by one call and freed by another.
pub record DriverLaws (D : Driver) : Type 0 where
  pub live : D.World → ℕ
  pub made_statement :
      (q : Str) (n : ℕ) (w : D.World) → live (D.statement_new q n w).1 ≡ suc (live w)
  pub made_future : (s : D.Statement) (w : D.World) → live (D.session_execute s w).1 ≡ suc (live w)
  pub made_answer : (f : D.Future) (w : D.World) → live (D.future_get_result f w).1 ≡ suc (live w)
  pub made_iterator :
      (r : D.Answer) (w : D.World) → live (D.iterator_from_result r w).1 ≡ suc (live w)
  pub made_batch : (w : D.World) → live (D.batch_new w).1 ≡ suc (live w)
  pub made_batch_future :
      (b : D.Batch) (w : D.World) → live (D.session_execute_batch b w).1 ≡ suc (live w)
  pub freed_statement :
      (s : D.Statement) (w : D.World) (n : ℕ) → live w ≡ suc n → live (D.statement_free s w) ≡ n
  pub freed_future :
      (f : D.Future) (w : D.World) (n : ℕ) → live w ≡ suc n → live (D.future_free f w) ≡ n
  pub freed_answer :
      (r : D.Answer) (w : D.World) (n : ℕ) → live w ≡ suc n → live (D.result_free r w) ≡ n
  pub freed_iterator :
      (i : D.Iterator) (w : D.World) (n : ℕ) → live w ≡ suc n → live (D.iterator_free i w) ≡ n
  pub freed_batch :
      (b : D.Batch) (w : D.World) (n : ℕ) → live w ≡ suc n → live (D.batch_free b w) ≡ n
  pub kept_bind :
      (s : D.Statement) (i : ℕ) (b : Bound) (w : D.World) → live (D.statement_bind s i b w) ≡ live w
  pub kept_wait : (f : D.Future) (w : D.World) → live (D.future_wait f w) ≡ live w
  pub kept_error_code : (f : D.Future) (w : D.World) → live (D.future_error_code f w).1 ≡ live w
  pub kept_error_message :
      (f : D.Future) (w : D.World) → live (D.future_error_message f w).1 ≡ live w
  pub kept_set_callback :
      (f : D.Future) (k : ℕ) (w : D.World) → live (D.future_set_callback f k w) ≡ live w
  pub kept_add :
      (b : D.Batch) (s : D.Statement) (w : D.World) → live (D.batch_add_statement b s w) ≡ live w
  pub kept_uuid : (t : ℤ) (w : D.World) → live (D.uuid_gen_from_time t w).1 ≡ live w
  pub kept_print : (s : Str) (w : D.World) → live (D.print s w) ≡ live w
