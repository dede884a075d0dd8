-- ===== src/Pgsql/Documents.antt =====
-- The methods that run a built statement through `save(sql)`: `createStore`, `save` of a document,
-- `insertOne` and `createStreamId` (pg_client.hpp). The outer `none` is undefined behaviour.
use store_cpp.Base.{
  subst, ℕ, ◌≡◌, Bool, List, [], ◌∷◌, ◌++◌, Option, none, some, Str, codes, refl, ◌∙◌,
}
use store_cpp.Insert.{Value}
use store_cpp.Library.Database.{Database, DatabaseLaws, Result, ok, err}
use store_cpp.Pgsql.Errors.{PgError}
use store_cpp.Pgsql.Session.{Saved, save, save-lent, Returned}
use store_cpp.Pgsql.Statements.{
  Document, create_table, create_indexes, save_statement, stream_statement, insert_statement,
}

-- What a method that returns text comes to.
abbrev pub Texts : Type 0 → Type 0
Texts World = Option (Result PgError Str × World)

module _ {Reply : Type 0} (D : Database PgError Reply) where
  open D use {World}

  text_of : Result PgError Saved × World → Result PgError Str × World
  text_of (ok s, w) = (ok s.retval, w)
  text_of (err x, w) = (err x, w)

  -- `this->save(sql)` with a statement that may be undefined.
  save_text : Option Str → World → Texts World
  unfolding text_of
  save_text none w = none
  save_text (some sql) w = some (text_of (save D sql none w))

  unfoldable pub save_document : Str → Str → Document → World → Texts World
  unfolding save_text
  save_document version n d w = save_text (save_statement version n d) w

  unfoldable pub insert_one : Str → Str → List Str → List Value → World → Texts World
  unfolding save_text
  insert_one version n fields values w = save_text (insert_statement version n fields values) w

  with_suffix : Str → Texts World → Texts World
  with_suffix s none = none
  with_suffix s (some (err x, w)) = some (err x, w)
  with_suffix s (some (ok r, w)) = some (ok (r ++ s), w)

  after_text : Texts World → (Str → World → Texts World) → Texts World
  after_text none f = none
  after_text (some (err x, w)) f = some (err x, w)
  after_text (some (ok r, w)) f = f r w

  with_prefix : Str → Texts World → Texts World
  with_prefix s none = none
  with_prefix s (some (err x, w)) = some (err x, w)
  with_prefix s (some (ok r, w)) = some (ok (s ++ r), w)

  -- `retval = save(createTable); retval.append(";"); retval.append(save(createIndexes));` Both
  -- statements are built before the first is run.
  create_store_with : Option Str → Option Str → World → Texts World
  unfolding after_text with_prefix save_text
  create_store_with none indexes w = none
  create_store_with (some t) none w = none
  create_store_with (some t) (some i) w =
      after_text (save_text (some t) w) (λ r v. with_prefix (r ++ codes ";") (save_text (some i) v))

  unfoldable pub create_store : Str → Str → Bool → World → Texts World
  unfolding create_store_with
  create_store schema n use_schema w =
      create_store_with (create_table schema n use_schema) (create_indexes schema n use_schema) w

  -- The loop over the map from types to stream ids; `retval` is assigned anew in each round.
  create_streams : Str → List (Str × Str) → Str → World → Texts World
  unfolding after_text save_text
  create_streams db_schema [] retval w = some (ok retval, w)
  create_streams db_schema ((type, id) ∷ ids) retval w =
      after_text (save_text (stream_statement db_schema type id) w)
        (λ r v. create_streams db_schema ids (r ++ codes ";") v)

  unfoldable pub create_stream_id : List (Str × Str) → Str → World → Texts World
  unfolding create_streams
  create_stream_id stream_ids db_schema w = create_streams db_schema stream_ids [] w

-- A method that returned has given back what it borrowed.
abbrev pub Balanced : {World : Type 0} → (World → ℕ) → World → Texts World → Type 0
Balanced lent w none = Unit
Balanced lent w (some (r, v)) = Returned r → lent v ≡ lent w

module _ {Reply : Type 0} (D : Database PgError Reply) (laws : DatabaseLaws D) where
  open D use {World}
  open laws use {lent}

  text_of-Balanced :
      (w : World) (r : Result PgError Saved × World)
      → (Returned r.0 → lent r.1 ≡ lent w)
      → Balanced lent w (some (text_of D r))
  unfolding text_of
  text_of-Balanced w (ok s, v) h = h
  text_of-Balanced w (err x, v) h = λ r. absurd r

  save_text-Balanced : (s : Option Str) (w : World) → Balanced lent w (save_text D s w)
  unfolding save_text
  save_text-Balanced none w = tt
  save_text-Balanced (some sql) w =
      text_of-Balanced w (save D sql none w) (save-lent D laws sql none w)

  after_text-Balanced :
      (w : World) (t : Texts World) (f : Str → World → Texts World)
      → Balanced lent w t
      → ((r : Str) (v : World) → Balanced lent v (f r v))
      → Balanced lent w (after_text D t f)
  unfolding after_text
  after_text-Balanced w none f h k = tt
  after_text-Balanced w (some (err x, v)) f h k = λ r. absurd r
  after_text-Balanced w (some (ok r, v)) f h k = chain (f r v) (k r v)
    where
      chain : (t : Texts World) → Balanced lent v t → Balanced lent w t
      chain none h' = tt
      chain (some (ok a, u)) h' = λ r'. h' tt ∙ h tt
      chain (some (err x, u)) h' = λ r'. absurd r'

  with_prefix-Balanced :
      (w : World) (s : Str) (t : Texts World)
      → Balanced lent w t
      → Balanced lent w (with_prefix D s t)
  unfolding with_prefix
  with_prefix-Balanced w s none h = tt
  with_prefix-Balanced w s (some (err x, v)) h = λ r. absurd r
  with_prefix-Balanced w s (some (ok r, v)) h = h

  create_streams-Balanced :
      (db_schema : Str) (ids : List (Str × Str)) (retval : Str) (w : World)
      → Balanced lent w (create_streams D db_schema ids retval w)
  unfolding create_streams
  create_streams-Balanced db_schema [] retval w = λ r. refl
  create_streams-Balanced db_schema ((type, id) ∷ ids) retval w =
      after_text-Balanced w _ _ (save_text-Balanced (stream_statement db_schema type id) w)
        (λ r v. create_streams-Balanced db_schema ids _ v)

  -- `createStreamId` gives back every connection that it borrows, however many streams there are.
  create_stream_id-Balanced :
      (ids : List (Str × Str)) (db_schema : Str) (w : World)
      → Balanced lent w (create_stream_id D ids db_schema w)
  unfolding create_stream_id
  create_stream_id-Balanced ids db_schema w = create_streams-Balanced db_schema ids [] w

  create_store_with-Balanced :
      (t i : Option Str) (w : World) → Balanced lent w (create_store_with D t i w)
  unfolding create_store_with
  create_store_with-Balanced none i w = tt
  create_store_with-Balanced (some t) none w = tt
  create_store_with-Balanced (some t) (some i) w =
      after_text-Balanced w (save_text D (some t) w)
        (λ r v. with_prefix D (r ++ codes ";") (save_text D (some i) v))
        (save_text-Balanced (some t) w)
        (λ r v.
          with_prefix-Balanced v (r ++ codes ";") (save_text D (some i) v)
            (save_text-Balanced (some i) v))

  -- `createStore` gives back both connections that it borrows.
  create_store-Balanced :
      (schema n : Str) (use_schema : Bool) (w : World)
      → Balanced lent w (create_store D schema n use_schema w)
  unfolding create_store
  create_store-Balanced schema n use_schema w = create_store_with-Balanced _ _ w

  -- When `createStreamId` returns, every connection that it borrowed is given back, however many
  -- streams there are and whichever statement failed.
  create_stream_id-lent :
      (ids : List (Str × Str)) (db_schema : Str) (w v : World) (r : Result PgError Str)
      → create_stream_id D ids db_schema w ≡ some (r, v)
      → Returned r
      → lent v ≡ lent w
  create_stream_id-lent ids db_schema w v r e =
      subst (Balanced lent w) e (create_stream_id-Balanced ids db_schema w)

  -- When `createStore` returns, both connections that it borrowed are given back.
  create_store-lent :
      (schema n : Str) (use_schema : Bool) (w v : World) (r : Result PgError Str)
      → create_store D schema n use_schema w ≡ some (r, v)
      → Returned r
      → lent v ≡ lent w
  create_store-lent schema n use_schema w v r e =
      subst (Balanced lent w) e (create_store-Balanced schema n use_schema w)
