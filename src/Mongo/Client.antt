-- ===== src/Mongo/Client.antt =====
-- `MongoBaseClient` (store.storage.mongo/src/mongo_base_client.hpp). The options of a call, with the
-- upsert and the write concern that they ask for, belong to the driver's operations.
use store_cpp.Base.{ℕ, Bool, true, false, Option, none, some, List, [], ◌∷◌, ◌++◌, Str, codes}
use store_cpp.Base.Int.{ℤ, pos, negsuc}
use store_cpp.Mongo.Driver.{
  literal, undefined, X, pure, throw, ◌>>=◌, ◌>>◌, call, try_catch, Field, text_field, date_field,
  document_field, int64_field, Document, built, parsed, Mongo,
}

-- `database_` and `collection_`.
pub record Client : Type 0 where
  pub database : Str
  pub collection : Str

-- `collectionName.size() == 0 ? collection_ : collectionName`
unfoldable pub chosen : Client → Str → Str
chosen c [] = c.collection
chosen c (x ∷ name) = x ∷ name

-- `if (_id.size() > 0) b << "_id" << _id;`
unfoldable pub id_field : {Bson : Type 0} → Str → List (Str × Field Bson)
id_field [] = []
id_field (x ∷ id) = (codes "_id", text_field (x ∷ id)) ∷ []

abbrev pub no_client : Str
no_client = codes "Failed to acquire client from thread pool."

module _ (D : Mongo) where
  open D use {
    World, Bson, from_json, has_instance, try_get_connection, insert_one, replace_one,
    find_one_and_update, get_int64, find_id, now, log_error,
  }

  -- `if (client == nullopt) throw "…"`
  unfoldable pub check_client : Bool → X World (Unit {0})
  check_client true = pure tt
  check_client false = throw (literal no_client)

  -- `GetInstance<MongoInstance>()->`
  unfoldable pub check_instance : Bool → X World (Unit {0})
  check_instance true = pure tt
  check_instance false = throw undefined

  unfoldable pub acquire : X World (Unit {0})
  acquire = do check_instance has_instance; client ← try_get_connection; check_client client

  -- The `catch` clause: the message is logged, and a value returned.
  unfoldable pub log_and : {A : Type 0} → A → Str → World → A × World
  log_and a message w = (a, log_error message w)

  -- `bsoncxx::from_json`, outside a `try` block.
  unfoldable pub parse : Str → X World Bson
  parse text w = (from_json text, w)

  unfoldable pub prepare_document : Str → Str → Str → X World (Document Bson)
  prepare_document type json_string id = do
    time ← call now
    doc ← parse json_string
    pure (
        built (
          id_field id
          ++ ((codes "type", text_field type)
              ∷ (codes "start_time", date_field time)
              ∷ (codes "data", document_field doc)
              ∷ [])))

  -- `{_id: name}`, `{$inc: {sequence_value: 1}}`, and the field that is read of the result
  unfoldable pub counter_filter : Str → Document Bson
  counter_filter name = built ((codes "_id", text_field name) ∷ [])

  unfoldable pub counter_update : Document Bson
  counter_update = built ((codes "$inc", int64_field (codes "sequence_value") (pos 1)) ∷ [])

  unfoldable pub read_sequence_value : Bson → X World ℤ
  read_sequence_value doc w = (get_int64 doc (codes "sequence_value"), w)

  module _ (c : Client) where
    abbrev try_insert : Document Bson → Str → X World ℕ
    try_insert doc collection_name =
        try_catch (do acquire; insert_one c.database (chosen c collection_name) doc; pure 1)
          (log_and 0)

    abbrev try_replace : Document Bson → Str → Str → X World ℕ
    try_replace doc id collection_name =
        try_catch (do acquire; replace_one c.database (chosen c collection_name) id doc; pure 1)
          (log_and 0)

    unfoldable pub insert : Str → Str → Str → X World ℕ
    insert type json_string collection_name = do
      doc ← prepare_document type json_string []
      try_insert doc collection_name

    unfoldable pub insert_one_document : Document Bson → Str → X World ℕ
    insert_one_document = try_insert

    unfoldable pub insert_one_text : Str → Str → X World ℕ
    insert_one_text json_string collection_name = do
      doc ← parse json_string
      insert_one_document (parsed doc) collection_name

    unfoldable pub upsert_one : Document Bson → Str → Str → X World ℕ
    upsert_one = try_replace

    unfoldable pub upsert_impl : Document Bson → Str → Str → X World ℕ
    upsert_impl = try_replace

    unfoldable pub upsert : Str → Str → Str → Str → X World ℕ
    upsert type json_string id collection_name = do
      doc ← prepare_document type json_string id
      upsert_impl doc id collection_name

    unfoldable pub upsert_text : Str → Str → Str → X World ℕ
    upsert_text json_string id collection_name = do
      doc ← parse json_string
      upsert_impl (parsed doc) id collection_name

    unfoldable pub get_next_sequence_value : Str → Str → X World ℤ
    unfolding read_sequence_value counter_filter counter_update
    get_next_sequence_value sequence_name collection_name =
        try_catch
          (do
            acquire
            result ←
                find_one_and_update c.database (chosen c collection_name)
                  (counter_filter sequence_name) counter_update
            read_sequence_value result)
          (log_and (negsuc 0))

    -- The first document of a type is made with the identifier `uid`, which the result has.
    unfoldable pub found_or_made : Str → Str → Str → Option Str → X World Str
    found_or_made type_name uid collection_name (some id) = pure id
    found_or_made type_name uid collection_name none = do
      insert_one c.database (chosen c collection_name)
          (built ((codes "_id", text_field uid) ∷ (codes "type", text_field type_name) ∷ []))
      pure uid

    unfoldable pub get_uid : Str → Str → Str → X World Str
    get_uid type_name uid collection_name =
        try_catch
          (do
            acquire
            found ← find_id c.database (chosen c collection_name) type_name
            found_or_made type_name uid collection_name found)
          (log_and [])
