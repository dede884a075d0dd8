-- ===== src/Cassandra/Rounds.antt =====
-- A round of `CaResourceManager` whose constructor has run (ca_resource_manager.hpp): it returns.
use store_cpp.Base.{ℕ, ◌≡◌, Option, none, some, List, Str, drop, ◌<◌}
use store_cpp.Base.Int.{ℤ, pos}
use store_cpp.Library.Grouping.{GroupBy, GroupByLaws}
use store_cpp.Library.Sorting.{Sorting, SortingLaws}
use store_cpp.Cassandra.Driver.{M, Driver}
use store_cpp.Cassandra.Resource.{Resource, NoNulls}
use store_cpp.Cassandra.Registry.{Registry, Manager, register_manager}
use store_cpp.Cassandra.Total.{Total, NoErrors}
use store_cpp.Cassandra.Manager.{processed_fields}

-- A time point from the epoch to the last one.
abbrev pub Dated : ℤ → Type 0
Dated now = (t : ℕ) × (now ≡ pos t) × (t < 9_223_372_036_854_775_808)

-- The handler always returns, and no null pointer.
abbrev pub Handles : {W : Type 0} → (Resource → M W (Option Resource)) → Type 0
Handles {W} handler =
    (c : Resource) (w : W) → (c' : Resource) × (w' : W) × (handler c w ≡ some (some c', w'))

abbrev IsThere : Option Resource → Type 0
IsThere none = ⊥
IsThere (some c) = Unit

-- The names behind the first one.
abbrev later_fields : List Str
later_fields = drop 1 processed_fields

module _ (D : Driver) (fmt_format : Str → List Str → Str) (G : GroupBy) (S : Sorting Resource)
    (clock : D.World → ℤ × D.World) (handler : Resource → M D.World (Option Resource)) (m : Manager)
    (r0 : Registry) (ok : NoErrors D) (groups : GroupByLaws G) (sorts : SortingLaws S)
    (handles : Handles handler) (filled : NoNulls D) (there : D.base_client ≡ some tt)
    (dated : (w : D.World) → Dated (clock w).0) where
  open D use {World, Statement, Future, Row}

  abbrev address : Str
  address = m.address

  abbrev r : Registry
  r = register_manager m r0
