-- ===== src/Cassandra/Resource.antt =====
-- `ca_resource_modified` and the functions that read a row's cells
-- (store.storage.cassandra/src/ca_resource_modified.hpp, ca_resource_common.hpp).
use store_cpp.Base.{◌≡◌, refl, Option, none, some, List, [], ◌∷◌, Str, codes}
use store_cpp.Base.Int.{ℤ, pos}
use store_cpp.Base.Assoc.{Assoc, lookup, insert}
use store_cpp.Cassandra.Driver.{Driver}

pub record Resource : Type 0 where
  pub environment : Str
  pub store : Str
  pub type : Str
  pub start_time : ℤ
  pub id : Str
  pub oid : Str
  pub uid : Str
  pub current : Str

abbrev filled_with :
    {V : Type 0} → Str → Assoc V → Option V → (Assoc V → Option (Assoc V)) → Option (Assoc V)
filled_with k kv none rest = none
filled_with k kv (some v) rest = rest (insert k v kv)

-- `kv[k] = v` for each field in turn. Whether the driver set `v` is not tested, and to read it is
-- undefined where it did not.
unfoldable pub fill_cells : {V : Type 0} → (Str → Option V) → List Str → Assoc V → Option (Assoc V)
fill_cells get [] kv = some kv
fill_cells get (k ∷ ks) kv = filled_with k kv (get k) (fill_cells get ks)

-- `m[k]`: a key that is missing gets the default value.
unfoldable pub cell : {V : Type 0} → V → Str → Assoc V → V
cell default k kv = elim (lookup k kv) [ none ↦ default | some v ↦ v ]

-- The fields that `getString`, `getInt64` and `getUuid` set in turn.
unfoldable pub set_fields :
    Option (Assoc Str) → Option (Assoc ℤ) → Option (Assoc Str) → Option Resource
unfolding cell
set_fields none i u = none
set_fields (some m) none u = none
set_fields (some m) (some i) none = none
set_fields (some m) (some i) (some u) = some (record {
  environment = cell [] (codes "environment") m;
  store = cell [] (codes "store") m;
  type = cell [] (codes "type") m;
  start_time = cell (pos 0) (codes "start_time") i;
  id = cell [] (codes "id") m;
  oid = cell [] (codes "oid") m;
  uid = cell [] (codes "uid") u;
  current = cell [] (codes "current") m;
})

module _ (D : Driver) where
  open D use {Row, get_string, get_int64, get_uuid}

  unfoldable pub get_cell_as_string : Row → List Str → Option (Assoc Str)
  unfolding fill_cells
  get_cell_as_string row fields = fill_cells (get_string row) fields []

  unfoldable pub get_cell_as_int64 : Row → List Str → Option (Assoc ℤ)
  unfolding fill_cells
  get_cell_as_int64 row fields = fill_cells (get_int64 row) fields []

  unfoldable pub get_cell_as_uuid : Row → List Str → Option (Assoc Str)
  unfolding fill_cells
  get_cell_as_uuid row fields = fill_cells (get_uuid row) fields []

  abbrev string_fields : List Str
  string_fields =
      codes "environment"
      ∷ codes "store"
      ∷ codes "type"
      ∷ codes "id"
      ∷ codes "oid"
      ∷ codes "current"
      ∷ []

  unfoldable pub row_to_type : Row → Option Resource
  unfolding set_fields
  row_to_type row =
      set_fields (get_cell_as_string row string_fields)
        (get_cell_as_int64 row (codes "start_time" ∷ [])) (get_cell_as_uuid row (codes "uid" ∷ []))

  abbrev added : Option Resource → Option (List Resource) → Option (List Resource)
  added none rest = none
  added (some c) none = none
  added (some c) (some cs) = some (c ∷ cs)

  -- The rows of an iterator.
  unfoldable pub rows_to_type : List Row → Option (List Resource)
  unfolding row_to_type
  rows_to_type [] = some []
  rows_to_type (row ∷ rows) = added (row_to_type row) (rows_to_type rows)

  -- No cell is null.
  pub record NoNulls : Type 0 where
    pub strings : (row : Row) (k : Str) → (v : Str) × (get_string row k ≡ some v)
    pub int64s : (row : Row) (k : Str) → (v : ℤ) × (get_int64 row k ≡ some v)
    pub uuids : (row : Row) (k : Str) → (v : Str) × (get_uuid row k ≡ some v)

  fill_cells-some :
      {V : Type 0} (get : Str → Option V) (ks : List Str) (kv : Assoc V)
      → ((k : Str) → (v : V) × (get k ≡ some v))
      → (m : Assoc V) × (fill_cells get ks kv ≡ some m)
  unfolding fill_cells
  fill_cells-some get [] kv h = (kv, refl)
  fill_cells-some get (k ∷ ks) kv h =
      let (v, e) = h k in
      let (m, f) = fill_cells-some get ks (insert k v kv) h in (m, rw (e, f) refl)

  set_fields-some :
      (m : Assoc Str) (i : Assoc ℤ) (u : Assoc Str)
      → (c : Resource) × (set_fields (some m) (some i) (some u) ≡ some c)
  unfolding set_fields
  set_fields-some m i u = (_, refl)

  row_to_type-some : NoNulls → (row : Row) → (c : Resource) × (row_to_type row ≡ some c)
  unfolding row_to_type get_cell_as_string get_cell_as_int64 get_cell_as_uuid
  row_to_type-some n row =
      let (m, e) = fill_cells-some (get_string row) string_fields [] (n.strings row) in
      let (i, f) = fill_cells-some (get_int64 row) (codes "start_time" ∷ []) [] (n.int64s row) in
      let (u, g) = fill_cells-some (get_uuid row) (codes "uid" ∷ []) [] (n.uuids row) in
      let (c, s) = set_fields-some m i u in (c, rw (e, f, g) s)

  pub rows_to_type-some :
      NoNulls → (rows : List Row) → (cs : List Resource) × (rows_to_type rows ≡ some cs)
  unfolding rows_to_type
  rows_to_type-some n [] = ([], refl)
  rows_to_type-some n (row ∷ rows) =
      let (c, e) = row_to_type-some n row in
      let (cs, f) = rows_to_type-some n rows in (c ∷ cs, rw (e, f) refl)
