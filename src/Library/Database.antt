-- ===== src/Library/Database.antt =====
-- A database client library with its connection pool (active911's `ConnectionPool`): each call takes
-- the world to a new one. `E` is what the library throws, `Reply` what a statement returns.
use store_cpp.Base.{ℕ, suc, ◌≡◌, Option, none, some, Str, ◌∙◌}

pub data Result (E A : Type 0) : Type 0 where
  ok : A → Result E A
  err : E → Result E A

pub record Database (E Reply : Type 0) : Type 1 where
  pub World : Type 0
  pub Conn : Type 0
  pub borrow : World → Result E Conn × World
  pub unborrow : Conn → World → World
  pub execute : Conn → Str → World → Result E Reply × World
  pub log_error : Str → World → World

-- One more connection is lent after a `borrow` that returns.
abbrev pub lent_by : {E A : Type 0} → Result E A → ℕ → ℕ
lent_by (ok c) n = suc n
lent_by (err e) n = n

-- How many connections are lent: `borrow` adds one if it returns, `unborrow` takes one back.
pub record DatabaseLaws {E Reply : Type 0} (D : Database E Reply) : Type 0 where
  pub lent : D.World → ℕ
  pub lent-borrow : (w : D.World) → lent (D.borrow w).1 ≡ lent_by (D.borrow w).0 (lent w)
  pub lent-unborrow :
      (c : D.Conn) (w : D.World) (n : ℕ) → lent w ≡ suc n → lent (D.unborrow c w) ≡ n
  pub lent-execute : (c : D.Conn) (s : Str) (w : D.World) → lent (D.execute c s w).1 ≡ lent w
  pub lent-log_error : (s : Str) (w : D.World) → lent (D.log_error s w) ≡ lent w

-- What a `try` block that begins with `conn = pool->borrow()` leaves: the connection, if it was
-- lent, and the value or the exception.
pub record Attempt {E Reply : Type 0} (D : Database E Reply) (A : Type 0) : Type 0 where
  pub conn : Option D.Conn
  pub result : Result E A
  pub after : D.World

module _ {E Reply : Type 0} (D : Database E Reply) where
  open D use {World, Conn, borrow, unborrow}

  opened : {A : Type 0} → Conn → Result E A × World → Attempt D A
  opened c (r, w) = record { conn = some c; result = r; after = w }

  attempted :
      {A : Type 0} → (Conn → World → Result E A × World) → Result E Conn × World → Attempt D A
  unfolding opened
  attempted body (ok c, w) = opened c (body c w)
  attempted body (err e, w) = record { conn = none; result = err e; after = w }

  unfoldable pub attempt : {A : Type 0} → (Conn → World → Result E A × World) → World → Attempt D A
  unfolding attempted
  attempt body w = attempted body (borrow w)

  -- `if (conn) pool->unborrow(conn);`
  unfoldable pub give_back : Option Conn → World → World
  give_back none w = w
  give_back (some c) w = unborrow c w

  -- A step of a `try` block after one that may have thrown.
  abbrev pub then_do :
      {A B : Type 0} → Result E A × World → (A → World → Result E B × World) → Result E B × World
  then_do (ok a, w) f = f a w
  then_do (err e, w) f = (err e, w)

module _ {E Reply : Type 0} (D : Database E Reply) (laws : DatabaseLaws D) where
  open D use {World, Conn, borrow, unborrow}
  open laws use {lent, lent-borrow, lent-unborrow}

  -- A body that lends and takes back nothing.
  abbrev pub Keeps : {A : Type 0} → (Conn → World → Result E A × World) → Type 0
  Keeps body = (c : Conn) (w : World) → lent (body c w).1 ≡ lent w

  abbrev pub held : Option Conn → ℕ → ℕ
  held none n = n
  held (some c) n = suc n

  attempted-lent :
      {A : Type 0} (body : Conn → World → Result E A × World) (r : Result E Conn × World) (n : ℕ)
      → Keeps body
      → lent r.1 ≡ lent_by r.0 n
      → lent (attempted D body r).after ≡ held (attempted D body r).conn n
  unfolding attempted opened
  attempted-lent body (ok c, w) n keeps e = keeps c w ∙ e
  attempted-lent body (err x, w) n keeps e = e

  -- After the `try` block one connection more is lent exactly if the block holds one.
  pub attempt-lent :
      {A : Type 0} (body : Conn → World → Result E A × World) (w : World)
      → Keeps body
      → lent (attempt D body w).after ≡ held (attempt D body w).conn (lent w)
  unfolding attempt
  attempt-lent body w keeps = attempted-lent body (borrow w) (lent w) keeps (lent-borrow w)

  pub give_back-lent :
      (conn : Option Conn) (w : World) (n : ℕ)
      → lent w ≡ held conn n
      → lent (give_back D conn w) ≡ n
  unfolding give_back
  give_back-lent none w n e = e
  give_back-lent (some c) w n e = lent-unborrow c w n e
