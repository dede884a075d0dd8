-- ===== src/Tests/Groups.antt =====
-- A grouping that keeps the keys in the order of their last elements.
use store_cpp.Base.{
  ◌≡◌, ◌≢◌, refl, ap, true, ◌||◌, List, [], ◌∷◌, map, Str, seq, seq_refl, All, if◌then◌else◌,
  Bool-cases, inl, inr, arith,
}
use store_cpp.Library.Grouping.{GroupBy, GroupByLaws, having, Distinct, has_key}

module _ {A : Type 0} (f : A → Str) where
  abbrev add_key : Str → List Str → List Str
  add_key k ks = if has_key k ks then ks else k ∷ ks

  abbrev keys_of : List A → List Str
  keys_of [] = []
  keys_of (x ∷ xs) = add_key (f x) (keys_of xs)

  add_key-Distinct : (k : Str) (ks : List Str) → Distinct ks → Distinct (add_key k ks)
  add_key-Distinct k ks d = elim (Bool-cases (has_key k ks)) [
    | inl e ↦ rw e d
    | inr e ↦ rw e (e, d)
  ]

  distinct : (xs : List A) → Distinct (keys_of xs)
  distinct [] = tt
  distinct (x ∷ xs) = add_key-Distinct (f x) (keys_of xs) (distinct xs)

  has_key-add_key : (k : Str) (ks : List Str) → has_key k (add_key k ks) ≡ true
  unfolding has_key
  has_key-add_key k ks = elim (Bool-cases (has_key k ks)) [
    | inl e ↦ rw e e
    | inr e ↦ rw e (ap (λ b. b || has_key k ks) (seq_refl k))
  ]

  has_key-more : (j k : Str) (ks : List Str) → has_key j ks ≡ true → has_key j (add_key k ks) ≡ true
  unfolding has_key
  has_key-more j k ks h = elim (Bool-cases (has_key k ks)) [
    | inl e ↦ rw e h
    | inr e ↦ rw (e, h) (ground arith)
  ]

  covered_more :
      (k : Str) (ks : List Str) (xs : List A)
      → All (λ a. has_key (f a) ks ≡ true) xs
      → All (λ a. has_key (f a) (add_key k ks) ≡ true) xs
  covered_more k ks [] h = tt
  covered_more k ks (x ∷ xs) (e, h) = (has_key-more (f x) k ks e, covered_more k ks xs h)

  covered : (xs : List A) → All (λ a. has_key (f a) (keys_of xs) ≡ true) xs
  covered [] = tt
  covered (x ∷ xs) =
      (has_key-add_key (f x) (keys_of xs), covered_more (f x) (keys_of xs) xs (covered xs))

  having-more : (k : Str) (x : A) (xs : List A) → having f k xs ≢ [] → having f k (x ∷ xs) ≢ []
  having-more k x xs h = elim (Bool-cases (seq (f x) k)) [ inl e ↦ rw e (λ p. cc) | inr e ↦ rw e h ]

  inhabited_more :
      (x : A) (xs : List A) (ks : List Str)
      → All (λ k. having f k xs ≢ []) ks
      → All (λ k. having f k (x ∷ xs) ≢ []) ks
  inhabited_more x xs [] h = tt
  inhabited_more x xs (k ∷ ks) (n, h) = (having-more k x xs n, inhabited_more x xs ks h)

  having_own : (x : A) (xs : List A) → having f (f x) (x ∷ xs) ≢ []
  having_own x xs = rw (seq_refl (f x)) (λ p. cc)

  inhabited : (xs : List A) → All (λ k. having f k xs ≢ []) (keys_of xs)
  inhabited [] = tt
  inhabited (x ∷ xs) = elim (Bool-cases (has_key (f x) (keys_of xs))) [
    | inl e ↦ rw e (inhabited_more x xs (keys_of xs) (inhabited xs))
    | inr e ↦ rw e (having_own x xs, inhabited_more x xs (keys_of xs) (inhabited xs))
  ]

abbrev pub plain_groups : GroupBy
plain_groups = record {
  keys = λ A f xs. keys_of f xs;
  group_by = λ A f xs. map (λ k. (k, having f k xs)) (keys_of f xs);
}

pub plain_groups_laws : GroupByLaws plain_groups
plain_groups_laws = record {
  groups = λ A f xs. refl;
  covered = λ A f xs. covered f xs;
  inhabited = λ A f xs. inhabited f xs;
  distinct = λ A f xs. distinct f xs;
}
