-- ===== src/Insert.antt =====
-- The `insertOne` statement that the SQL clients share: two loops over the field names and the
-- values of a tuple (store.common/src/runtime_get_tuple.hpp).
pub mod Shape
use store_cpp.Base.{
  ℕ, zero, suc, ◌+◌, ◌≡◌, Bool, true, false, ◌||◌, List, [], ◌∷◌, ◌++◌, Option, none, some, Str,
  codes, get_elem?, ◌==◌, if◌then◌else◌,
}

-- A tuple's element: `typeid(p).name()`, and what `<<` prints of it.
pub record Value : Type 0 where
  pub type_name : Str
  pub printed : Str

is_prefix : Str → Str → Bool
is_prefix [] s = true
is_prefix (c ∷ p) [] = false
is_prefix (c ∷ p) (d ∷ s) = if c == d then is_prefix p s else false

-- `find(p) != npos`
occurs : Str → Str → Bool
unfolding is_prefix
occurs p [] = is_prefix p []
occurs p (c ∷ s) = is_prefix p (c ∷ s) || occurs p s

-- `name.back()`; of an empty name this is undefined, and a type's name is not empty.
back : Str → ℕ
back [] = 0
back (c ∷ []) = c
back (c ∷ d ∷ s) = back (d ∷ s)

-- `TupleFormatFunc`: strings and types whose mangled name ends in `c` or `s` are quoted.
unfoldable pub format_value : Value → Str
unfolding occurs back
format_value v =
    if occurs (codes "basic_string") v.type_name
      || back v.type_name == b'c'
      || back v.type_name == b's'
    then codes "'" ++ (v.printed ++ codes "'")
    else v.printed

-- `tuples::apply(values, i, f)`: the table of functions has an entry for each element; another index
-- is undefined behaviour, which is `none`.
unfoldable pub apply_found {ℓ} : {A : Type ℓ} → Option Value → (Value → A) → Option A
apply_found none f = none
apply_found (some v) f = some (f v)

unfoldable pub apply_at {ℓ} : {A : Type ℓ} → List Value → ℕ → (Value → A) → Option A
unfolding apply_found
apply_at values i f = apply_found (get_elem? values i) f

-- `while (it != fields.end() - 1) { ss << *it << ","; ++it; } ss << *it;`. The end of an empty list has
-- no position before it.
unfoldable pub write_fields : List Str → Option Str
write_fields [] = none
write_fields (f ∷ []) = some f
write_fields (f ∷ g ∷ fs) = elim (write_fields (g ∷ fs)) [
  | none ↦ none
  | some r ↦ some (f ++ (codes "," ++ r))
]

comma_before : Option Str → Option Str → Option Str
comma_before none r = none
comma_before (some s) none = none
comma_before (some s) (some r) = some (s ++ (codes "," ++ r))

-- `while (i < fields.size() - 1) { apply(values, i, f); ss << ","; ++i; } apply(values, size - 1, f);`
-- with the number of rounds left.
unfoldable pub write_values : List Value → ℕ → ℕ → Option Str
unfolding comma_before apply_at
write_values values zero i = apply_at values i format_value
write_values values (suc n) i =
    comma_before (apply_at values i format_value) (write_values values n (suc i))
