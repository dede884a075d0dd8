-- ===== src/Mongo/Driver.antt =====
-- mongocxx and bsoncxx: each call takes the world to a new one, and may throw. A computation of the
-- client returns or is left by an exception.
use store_cpp.Base.{Option, Bool, Str, List}
use store_cpp.Base.Int.{ℤ}
use store_cpp.Library.Database.{Result, ok, err}

-- What is thrown: an object of a class under `std::exception`, with its `what()`, or a string literal.
-- `undefined` stands for a null pointer that was followed: no `catch` is known to go on from there.
pub data Thrown : Type 0 where
  exception : Str → Thrown
  literal : Str → Thrown
  undefined : Thrown

abbrev pub X : Type 0 → Type 0 → Type 0
X W A = W → Result Thrown A × W

module _ {W : Type 0} where
  unfoldable pub pure : {A : Type 0} → A → X W A
  pure a w = (ok a, w)

  unfoldable pub throw : {A : Type 0} → Thrown → X W A
  throw e w = (err e, w)

  unfoldable pub continue : {A B : Type 0} → Result Thrown A × W → (A → X W B) → Result Thrown B × W
  continue (ok a, w) f = f a w
  continue (err e, w) f = (err e, w)

  infixl 5 ◌>>=◌ ◌>>◌
  unfoldable pub ◌>>=◌ : {A B : Type 0} → X W A → (A → X W B) → X W B
  unfolding continue
  ◌>>=◌ m f w = continue (m w) f

  unfoldable pub ◌>>◌ : {B : Type 0} → X W (Unit {0}) → X W B → X W B
  m >> k = m >>= λ _. k

  -- A call that does not throw.
  unfoldable pub call : {A : Type 0} → (W → A × W) → X W A
  call f w = let (a, w') = f w in (ok a, w')

  unfoldable pub caught :
      {A : Type 0} → (Str → W → A × W) → Result Thrown A × W → Result Thrown A × W
  caught f (ok a, w) = (ok a, w)
  caught f (err (exception m), w) = let (a, w') = f m w in (ok a, w')
  caught f (err (literal m), w) = (err (literal m), w)
  caught f (err undefined, w) = (err undefined, w)

  -- `try { … } catch (const exception& e) { … }`: a literal is not caught.
  unfoldable pub try_catch : {A : Type 0} → X W A → (Str → W → A × W) → X W A
  unfolding caught
  try_catch m f w = caught f (m w)

-- A field of a document that the client builds.
pub data Field (Bson : Type 0) : Type 0 where
  text_field : Str → Field Bson
  date_field : ℤ → Field Bson
  document_field : Bson → Field Bson
  -- `open_document << key << (int64_t)n << close_document`
  int64_field : Str → ℤ → Field Bson

-- A document of the stream builder, and a parsed one.
pub data Document (Bson : Type 0) : Type 0 where
  built : List (Str × Field Bson) → Document Bson
  parsed : Bson → Document Bson

-- A collection by the names of its database and its own. `find_id` gives the `_id` of the first document
-- of a type. `find_one_and_update` gets the filter and the update, makes the document if there is none,
-- and gives the one after the update, as its options ask for; `get_int64` reads a field, and throws
-- where it is no such number. `has_instance` says whether
-- `GetInstance<MongoInstance>()` is not null.
pub record Mongo : Type 1 where
  pub World : Type 0
  pub Bson : Type 0
  pub from_json : Str → Result Thrown Bson
  pub has_instance : Bool
  pub try_get_connection : X World Bool
  pub insert_one : Str → Str → Document Bson → X World (Unit {0})
  pub replace_one : Str → Str → Str → Document Bson → X World (Unit {0})
  pub find_one_and_update : Str → Str → Document Bson → Document Bson → X World Bson
  pub get_int64 : Bson → Str → Result Thrown ℤ
  pub find_id : Str → Str → Str → X World (Option Str)
  pub now : World → ℤ × World
  pub log_error : Str → World → World
