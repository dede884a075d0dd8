-- ===== src/Tests/Sorted.antt =====
-- A sort by insertion, which does what the library documents.
use mathlib.Core.List.{Permᴰ}
use mathlib.Core.List.Permᴰ
use store_cpp.Base.{
  ◌≡◌, refl, Bool, true, false, List, [], ◌∷◌, All, if◌then◌else◌, Bool-cases, inl, inr,
}
use store_cpp.Library.Sorting.{IsStrictWeak, Ordered, Sorting, SortingLaws, All-perm}

module _ {A : Type 0} (lt : A → A → Bool) where
  abbrev put_in : A → List A → List A
  put_in x [] = x ∷ []
  put_in x (y ∷ ys) = if lt x y then x ∷ y ∷ ys else y ∷ put_in x ys

  abbrev sorted : List A → List A
  sorted [] = []
  sorted (x ∷ xs) = put_in x (sorted xs)

  put_in-perm : (x : A) (ys : List A) → Permᴰ (put_in x ys) (x ∷ ys)
  put_in-perm x [] = Permᴰ.refl (x ∷ [])
  put_in-perm x (y ∷ ys) = elim (Bool-cases (lt x y)) [
    | inl e ↦ rw e (Permᴰ.refl (x ∷ y ∷ ys))
    | inr e ↦ rw e (Permᴰ.trans (Permᴰ.cons refl (put_in-perm x ys)) (Permᴰ.swap refl refl))
  ]

  sorted-perm : (xs : List A) → Permᴰ (sorted xs) xs
  sorted-perm [] = Permᴰ.nil
  sorted-perm (x ∷ xs) = Permᴰ.trans (put_in-perm x (sorted xs)) (Permᴰ.cons refl (sorted-perm xs))

  module _ (w : IsStrictWeak lt) where
    open w use {irreflexive, transitive}

    not_before : (x y z : A) → lt x y ≡ true → lt z y ≡ false → lt z x ≡ false
    not_before x y z e h = elim (Bool-cases (lt z x)) [
      | inl p ↦ absurd (cc (transitive z x y p e, h))
      | inr p ↦ p
    ]

    none_before :
        (x y : A) (zs : List A)
        → lt x y ≡ true
        → All (λ z. lt z y ≡ false) zs
        → All (λ z. lt z x ≡ false) zs
    none_before x y [] e h = tt
    none_before x y (z ∷ zs) e (h, hs) = (not_before x y z e h, none_before x y zs e hs)

    put_in-Ordered : (x : A) (ys : List A) → Ordered lt ys → Ordered lt (put_in x ys)
    put_in-Ordered x [] o = (tt, tt)
    put_in-Ordered x (y ∷ ys) (h, o) = elim (Bool-cases (lt x y)) [
      | inl e ↦ rw e ((not_before x y y e (irreflexive y), none_before x y ys e h), (h, o))
      | inr e ↦ rw e (
        All-perm (λ z. lt z y ≡ false) (x ∷ ys) (put_in x ys) (Permᴰ.symm (put_in-perm x ys))
            (e, h),
        put_in-Ordered x ys o,
      )
    ]

    sorted-Ordered : (xs : List A) → Ordered lt (sorted xs)
    sorted-Ordered [] = tt
    sorted-Ordered (x ∷ xs) = put_in-Ordered x (sorted xs) (sorted-Ordered xs)

abbrev pub by_insertion : (A : Type 0) → Sorting A
by_insertion A = record { sort = λ lt xs. sorted lt xs }

pub by_insertion_laws : (A : Type 0) → SortingLaws (by_insertion A)
by_insertion_laws A = record {
  permuted = λ lt xs w. sorted-perm lt xs;
  ordered = λ lt xs w. sorted-Ordered lt w xs;
}
