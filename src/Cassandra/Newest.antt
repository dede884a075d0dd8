-- ===== src/Cassandra/Newest.antt =====
-- Which rows `rowToCaResourceModifiedTapFunc` hands to the user's handler (ca_resource_manager.hpp).
use mathlib.Core.List.{Permᴰ}
use mathlib.Core.Logic.{◌⊎◌}
use store_cpp.Base.{
  Option, ◌≡◌, ◌≢◌, refl, ap, ◌∙◌, subst, arith, true, false, inl, inr, some, List, [], ◌∷◌, map,
  Str, All, Within, ltb→ge,
}
use store_cpp.Base.Int.{ℤ, ◌≤ℤ◌}
use store_cpp.Library.Grouping.{GroupBy, GroupByLaws, having, Distinct, has_key}
use store_cpp.Library.Sorting.{Sorting, SortingLaws, IsStrictWeak, All-perm, sort_head}
use store_cpp.Cassandra.Driver.{M, pure, ◌>>=◌, need, Driver}
use store_cpp.Cassandra.Resource.{Resource}
use store_cpp.Cassandra.Registry.{Registry}
use store_cpp.Cassandra.Manager.{newer, first, process_groups}

newer-IsStrictWeak : IsStrictWeak newer
unfolding newer
newer-IsStrictWeak = record {
  irreflexive = λ x. ground arith;
  transitive = λ x y z p q. ground arith;
  cotransitive = λ x y z p q. ground arith;
}

-- The row is one of the given, and none of them is newer.
pub record IsNewest (rows : List Resource) (m : Resource) : Type 0 where
  pub member : Within m rows
  pub newest : All (λ c. c.start_time ≤ℤ m.start_time) rows

-- `ms` holds, for the keys in turn, a newest row of those with that key.
abbrev pub AreNewest : List Resource → List Str → List Resource → Type 0
AreNewest rows [] [] = Unit
AreNewest rows [] (m ∷ ms) = ⊥
AreNewest rows (k ∷ ks) [] = ⊥
AreNewest rows (k ∷ ks) (m ∷ ms) = IsNewest (having (λ c. c.id) k rows) m × AreNewest rows ks ms

not_newer :
    (h : Resource) (cs : List Resource)
    → All (λ c. newer c h ≡ false) cs
    → All (λ c. c.start_time ≤ℤ h.start_time) cs
unfolding newer
not_newer h [] p = tt
not_newer h (c ∷ cs) (p, ps) = (ltb→ge _ _ p, not_newer h cs ps)

no_element : (cs : List Resource) → All (λ c. ⊥) cs → cs ≡ []
no_element [] h = refl
no_element (c ∷ cs) h = absurd h.0

List-cases :
    (cs : List Resource) → (cs ≡ []) ⊎ ((h : Resource) × (t : List Resource) × (cs ≡ h ∷ t))
List-cases [] = inl refl
List-cases (c ∷ cs) = inr (c, cs, refl)

first-IsNewest :
    (S : Sorting Resource)
    → SortingLaws S
    → (cs : List Resource) → cs ≢ []
    → (m : Resource) × (first (S.sort newer cs) ≡ some m) × IsNewest cs m
unfolding first
first-IsNewest S laws cs ne = elim (List-cases (S.sort newer cs)) [
  | inl e ↦ absurd (
      ne (
        no_element cs (
          All-perm (λ c. ⊥) [] cs
            (subst (λ l. Permᴰ l cs) e (laws.permuted newer cs newer-IsStrictWeak)) tt)))
  | inr (h, t, e) ↦
      let (w, a) = sort_head S laws newer cs h t newer-IsStrictWeak e in
      (h, rw e refl, record { member = w; newest = not_newer h cs a })
]

module _ (D : Driver) (fmt_format : Str → List Str → Str) (G : GroupBy) (S : Sorting Resource)
    (clock : D.World → ℤ × D.World) (handler : Resource → M D.World (Option Resource))
    (address : Str) (r : Registry) where
  -- The handler on each row in turn.
  abbrev pub handle_each : List Resource → M D.World (List (Option Resource))
  handle_each [] = pure []
  handle_each (m ∷ ms) = do processed ← handler m; rest ← handle_each ms; pure (processed ∷ rest)

  abbrev process : List (Str × List Resource) → M D.World (List (Option Resource))
  process = process_groups D fmt_format G S clock handler address r

  groups_newest :
      (laws : SortingLaws S) (rows : List Resource) (ks : List Str)
      → All (λ k. having (λ c. c.id) k rows ≢ []) ks
      → (ms : List Resource) × (process (map (λ k. (k, having (λ c. c.id) k rows)) ks)
          ≡ handle_each ms)
        × AreNewest rows ks ms
  unfolding process_groups need ◌>>=◌
  groups_newest laws rows [] h = ([], refl, tt)
  groups_newest laws rows (k ∷ ks) (n, h) =
      let (m, e, newest) = first-IsNewest S laws (having (λ c. c.id) k rows) n in
      let (ms, p, rest) = groups_newest laws rows ks h in (m ∷ ms, rw (e, p) refl, (newest, rest))

  -- The handler is called, one after the other, on one row for each `id`: a row with that id, and none
  -- with it has a later `start_time`. The ids are distinct, and each row has one of them.
  pub process_groups-AreNewest :
      (groups : GroupByLaws G) (laws : SortingLaws S) (rows : List Resource)
      → (ms : List Resource) × (process (G.group_by Resource (λ c. c.id) rows) ≡ handle_each ms)
        × AreNewest rows (G.keys Resource (λ c. c.id) rows) ms
        × Distinct (G.keys Resource (λ c. c.id) rows)
        × All (λ c. has_key c.id (G.keys Resource (λ c. c.id) rows) ≡ true) rows
  process_groups-AreNewest groups laws rows =
      let (ms, e, a) =
        groups_newest laws rows (G.keys Resource (λ c. c.id) rows)
          (groups.inhabited Resource (λ c. c.id) rows) in
      (
        ms,
        ap process (groups.groups Resource (λ c. c.id) rows) ∙ e,
        a,
        groups.distinct Resource (λ c. c.id) rows,
        groups.covered Resource (λ c. c.id) rows,
      )
