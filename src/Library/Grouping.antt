-- ===== src/Library/Grouping.antt =====
-- `groupBy` of store.common/src/group_by.hpp, a copy of github.com/wo3kie/groupBy: a `std::map` from
-- each key to the elements with that key, in their order.
use store_cpp.Base.{◌≡◌, ◌≢◌, Bool, true, false, ◌||◌, List, [], ◌∷◌, map, Str, seq, All, keep}

unfoldable pub has_key : Str → List Str → Bool
has_key k [] = false
has_key k (j ∷ ks) = seq j k || has_key k ks

abbrev pub Distinct : List Str → Type 0
Distinct [] = Unit
Distinct (k ∷ ks) = (has_key k ks ≡ false) × Distinct ks

-- The elements with a key.
abbrev pub having {ℓ} : {A : Type ℓ} → (A → Str) → Str → List A → List A
having f k xs = keep (λ a. seq (f a) k) xs

pub record GroupBy : Type 1 where
  pub keys : (A : Type 0) → (A → Str) → List A → List Str
  pub group_by : (A : Type 0) → (A → Str) → List A → List (Str × List A)

pub record GroupByLaws (G : GroupBy) : Type 1 where
  pub groups :
      (A : Type 0) (f : A → Str) (xs : List A)
      → G.group_by A f xs ≡ map (λ k. (k, having f k xs)) (G.keys A f xs)
  pub covered :
      (A : Type 0) (f : A → Str) (xs : List A) → All (λ a. has_key (f a) (G.keys A f xs) ≡ true) xs
  pub inhabited :
      (A : Type 0) (f : A → Str) (xs : List A) → All (λ k. having f k xs ≢ []) (G.keys A f xs)
  pub distinct : (A : Type 0) (f : A → Str) (xs : List A) → Distinct (G.keys A f xs)
