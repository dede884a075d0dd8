-- ===== src/Mongo/Escapes.antt =====
-- Exceptions of `MongoBaseClient` (mongo_base_client.hpp).
use store_cpp.Base.{◌≡◌, refl, Bool, true, false, Option, none, some, Str}
use store_cpp.Library.Database.{Result, ok, err}
use store_cpp.Mongo.Driver.{
  Thrown, exception, literal, undefined, X, pure, throw, continue, ◌>>=◌, ◌>>◌, caught, try_catch,
  call, Document, parsed, Mongo,
}
use store_cpp.Mongo.Client.{
  Client, no_client, check_client, check_instance, acquire, chosen, insert, insert_one_document,
  insert_one_text, upsert, upsert_one, upsert_impl, upsert_text, counter_filter, counter_update,
  read_sequence_value, prepare_document, parse, get_next_sequence_value, found_or_made, get_uid,
}

-- The result is a value, or the literal that says that the pool is empty.
abbrev pub OnlyNoClient : {A : Type 0} → Result Thrown A → Type 0
OnlyNoClient (ok a) = Unit
OnlyNoClient (err (exception m)) = ⊥
OnlyNoClient (err (literal m)) = m ≡ no_client
OnlyNoClient (err undefined) = ⊥

-- The same, or an exception of the JSON parser on the text that the operation was given.
abbrev pub OnlyParser : {B A : Type 0} → Result Thrown B → Result Thrown A → Type 0
OnlyParser p (ok a) = Unit
OnlyParser p (err (exception m)) = p ≡ err (exception m)
OnlyParser p (err (literal m)) = m ≡ no_client
OnlyParser p (err undefined) = ⊥

OnlyNoClient-OnlyParser :
    {B A : Type 0} (p : Result Thrown B) (r : Result Thrown A) → OnlyNoClient r → OnlyParser p r
OnlyNoClient-OnlyParser p (ok a) h = tt
OnlyNoClient-OnlyParser p (err (exception m)) h = absurd h
OnlyNoClient-OnlyParser p (err (literal m)) h = h
OnlyNoClient-OnlyParser p (err undefined) h = absurd h

-- The driver throws objects of classes under `std::exception`.
abbrev pub Standard : {A : Type 0} → Result Thrown A → Type 0
Standard (ok a) = Unit
Standard (err (exception m)) = Unit
Standard (err (literal m)) = ⊥
Standard (err undefined) = ⊥

-- A literal that leaves the block is the one of the empty pool.
abbrev pub Literal : {A : Type 0} → Result Thrown A → Type 0
Literal (ok a) = Unit
Literal (err (exception m)) = Unit
Literal (err (literal m)) = m ≡ no_client
Literal (err undefined) = ⊥

caught-OnlyNoClient :
    {W A : Type 0} (f : Str → W → A × W) (r : Result Thrown A × W)
    → Literal r.0
    → OnlyNoClient (caught f r).0
unfolding caught
caught-OnlyNoClient f (ok a, w) h = tt
caught-OnlyNoClient f (err (exception m), w) h = tt
caught-OnlyNoClient f (err (literal m), w) h = h
caught-OnlyNoClient f (err undefined, w) h = absurd h

continue-Literal :
    {W A B : Type 0} (r : Result Thrown A × W) (f : A → X W B)
    → Literal r.0
    → ((a : A) (w : W) → Literal (f a w).0)
    → Literal (continue r f).0
unfolding continue
continue-Literal (ok a, w) f h g = g a w
continue-Literal (err (exception m), w) f h g = tt
continue-Literal (err (literal m), w) f h g = h
continue-Literal (err undefined, w) f h g = absurd h

Standard-Literal : {A : Type 0} (r : Result Thrown A) → Standard r → Literal r
Standard-Literal (ok a) h = tt
Standard-Literal (err (exception m)) h = tt
Standard-Literal (err (literal m)) h = absurd h
Standard-Literal (err undefined) h = absurd h

-- The instance is registered, and the driver and the parser throw only standard exceptions.
pub record MongoStandard (D : Mongo) : Type 0 where
  pub registered : D.has_instance ≡ true
  pub parses : (text : Str) → Standard (D.from_json text)
  pub connects : (w : D.World) → Standard (D.try_get_connection w).0
  pub inserts :
      (d c : Str) (doc : Document D.Bson) (w : D.World) → Standard (D.insert_one d c doc w).0
  pub replaces :
      (d c id : Str) (doc : Document D.Bson) (w : D.World) → Standard (D.replace_one d c id doc w).0
  pub updates :
      (d c : Str) (filter update : Document D.Bson) (w : D.World)
      → Standard (D.find_one_and_update d c filter update w).0
  pub reads : (doc : D.Bson) (key : Str) → Standard (D.get_int64 doc key)
  pub finds : (d c t : Str) (w : D.World) → Standard (D.find_id d c t w).0

module _ (D : Mongo) (laws : MongoStandard D) where
  open D use {World, Bson}

  check_client-Literal : (b : Bool) (w : World) → Literal (check_client D b w).0
  unfolding check_client pure throw
  check_client-Literal true w = tt
  check_client-Literal false w = refl

  check_instance-Literal : (b : Bool) (w : World) → b ≡ true → Literal (check_instance D b w).0
  unfolding check_instance pure
  check_instance-Literal true w e = tt
  check_instance-Literal false w e = cc

  acquire-Literal : (w : World) → Literal (acquire D w).0
  unfolding acquire ◌>>=◌ ◌>>◌
  acquire-Literal w =
      continue-Literal _ _ (check_instance-Literal D.has_instance w laws.registered) (λ t u.
        continue-Literal (D.try_get_connection u) (check_client D)
          (Standard-Literal _ (laws.connects u)) (check_client-Literal))

  -- A block that acquires a client and goes on.
  acquired-OnlyNoClient :
      {A : Type 0} (k : X World A) (f : Str → World → A × World) (w : World)
      → ((w : World) → Literal (k w).0)
      → OnlyNoClient (try_catch (acquire D >> k) f w).0
  unfolding try_catch ◌>>◌ ◌>>=◌
  acquired-OnlyNoClient k f w h =
      caught-OnlyNoClient f _ (continue-Literal (acquire D w) (λ _. k) (acquire-Literal w) (λ _. h))

  written-Literal :
      {A : Type 0} (k : X World (Unit {0})) (a : A) (w : World)
      → ((w : World) → Standard (k w).0)
      → Literal ((k >> pure a) w).0
  unfolding ◌>>◌ ◌>>=◌ pure
  written-Literal k a w h =
      continue-Literal (k w) (λ _. pure a) (Standard-Literal _ (h w)) (λ x u. tt)

  found_or_made-Literal :
      (c : Client) (type_name uid name : Str) (o : Option Str) (w : World)
      → Literal (found_or_made D c type_name uid name o w).0
  unfolding found_or_made pure
  found_or_made-Literal c type_name uid name (some id) w = tt
  found_or_made-Literal c type_name uid name none w = written-Literal _ uid w (laws.inserts _ _ _)

  found-Literal :
      (c : Client) (type_name uid name : Str) (w : World)
      → Literal
          ((D.find_id c.database (chosen c name) type_name >>= found_or_made D c type_name uid name)
            w).0
  unfolding ◌>>=◌
  found-Literal c type_name uid name w =
      continue-Literal (D.find_id c.database (chosen c name) type_name w) _
        (Standard-Literal _ (laws.finds _ _ _ w)) (found_or_made-Literal c type_name uid name)

  read-Literal :
      (c : Client) (id name : Str) (w : World)
      → Literal
          ((D.find_one_and_update c.database
                (chosen c name)
                (counter_filter D id)
                (counter_update D)
              >>= read_sequence_value D)
            w).0
  unfolding ◌>>=◌ read_sequence_value
  read-Literal c id name w =
      continue-Literal (D.find_one_and_update _ _ _ _ w) _
        (Standard-Literal _ (laws.updates _ _ _ _ w))
        (λ doc u. Standard-Literal _ (laws.reads doc _))

  -- A block that parses first, outside of a `try` block.
  parsed-OnlyParser :
      {A : Type 0} (p : Result Thrown Bson) (w : World) (f : Bson → X World A)
      → Standard p
      → ((doc : Bson) → OnlyNoClient (f doc w).0)
      → OnlyParser p (continue (p, w) f).0
  unfolding continue
  parsed-OnlyParser (ok doc) w f s h = OnlyNoClient-OnlyParser (ok doc) _ (h doc)
  parsed-OnlyParser (err (exception m)) w f s h = refl
  parsed-OnlyParser (err (literal m)) w f s h = absurd s
  parsed-OnlyParser (err undefined) w f s h = absurd s

  -- The same, where the document is built around what was parsed.
  prepared-OnlyParser :
      {A : Type 0} (p : Result Thrown Bson) (w : World) (g : Bson → Document Bson)
      (f : Document Bson → X World A)
      → Standard p
      → ((d : Document Bson) (u : World) → OnlyNoClient (f d u).0)
      → OnlyParser p (continue (continue (p, w) (λ b. pure (g b))) f).0
  unfolding continue pure
  prepared-OnlyParser (ok b) w g f s h = OnlyNoClient-OnlyParser (ok b) _ (h (g b) w)
  prepared-OnlyParser (err (exception m)) w g f s h = refl
  prepared-OnlyParser (err (literal m)) w g f s h = absurd s
  prepared-OnlyParser (err undefined) w g f s h = absurd s

  module _ (c : Client) (doc : Document Bson) (id type_name uid name text : Str) where
    insert_one_document-OnlyNoClient :
        (d : Document Bson) (w : World) → OnlyNoClient (insert_one_document D c d name w).0
    unfolding insert_one_document
    insert_one_document-OnlyNoClient d w =
        acquired-OnlyNoClient _ _ w (λ u. written-Literal _ 1 u (laws.inserts _ _ d))

    upsert_impl-OnlyNoClient :
        (d : Document Bson) (w : World) → OnlyNoClient (upsert_impl D c d id name w).0
    unfolding upsert_impl
    upsert_impl-OnlyNoClient d w =
        acquired-OnlyNoClient _ _ w (λ u. written-Literal _ 1 u (laws.replaces _ _ id d))

    -- Where the Mongo instance is registered and the driver throws only standard exceptions: from the operations on documents, the counter
    -- and `getUid`, none of these leaves, only the literal for an empty pool, which no `catch` takes;
    -- from those on a JSON text, `insert` and `upsert` in both forms and `insertOne`, the only standard
    -- exception that leaves is that of the parser on the text.
    pub operations-Escapes :
        (w : World)
        → OnlyNoClient (insert_one_document D c doc name w).0
          × OnlyNoClient (upsert_one D c doc id name w).0
          × OnlyNoClient (get_next_sequence_value D c id name w).0
          × OnlyNoClient (get_uid D c type_name uid name w).0
          × OnlyParser (D.from_json text) (insert D c type_name text name w).0
          × OnlyParser (D.from_json text) (insert_one_text D c text name w).0
          × OnlyParser (D.from_json text) (upsert D c type_name text id name w).0
          × OnlyParser (D.from_json text) (upsert_text D c text id name w).0
    unfolding upsert_one get_next_sequence_value get_uid insert insert_one_text upsert upsert_text
        prepare_document parse call pure continue ◌>>=◌ insert_one_document try_catch upsert_impl
    operations-Escapes w = (
      insert_one_document-OnlyNoClient doc w,
      acquired-OnlyNoClient _ _ w (λ u. written-Literal _ 1 u (laws.replaces _ _ id doc)),
      acquired-OnlyNoClient _ _ w (read-Literal c id name),
      acquired-OnlyNoClient _ _ w (found-Literal c type_name uid name),
      prepared-OnlyParser (D.from_json text) _ _ _ (laws.parses text)
          insert_one_document-OnlyNoClient,
      parsed-OnlyParser (D.from_json text) w _ (laws.parses text)
          (λ b. insert_one_document-OnlyNoClient (parsed b) w),
      prepared-OnlyParser (D.from_json text) _ _ _ (laws.parses text) upsert_impl-OnlyNoClient,
      parsed-OnlyParser (D.from_json text) w _ (laws.parses text)
          (λ b. upsert_impl-OnlyNoClient (parsed b) w),
    )
