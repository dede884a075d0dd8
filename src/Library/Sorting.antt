-- ===== src/Library/Sorting.antt =====
-- `std::sort`: its result for a comparison that is a strict weak order.
use mathlib.Core.List.{Permᴰ}
use store_cpp.Base.{◌≡◌, refl, subst, ◌∙◌, inl, inr, Within, Bool, true, false, List, [], ◌∷◌, All}

-- What the library asks of a comparison; two elements are equivalent when neither is before the other.
pub record IsStrictWeak {A : Type 0} (lt : A → A → Bool) : Type 0 where
  pub irreflexive : (x : A) → lt x x ≡ false
  pub transitive : (x y z : A) → lt x y ≡ true → lt y z ≡ true → lt x z ≡ true
  pub cotransitive : (x y z : A) → lt x y ≡ false → lt y z ≡ false → lt x z ≡ false

-- No element is before one that stands in front of it.
abbrev pub Ordered : {A : Type 0} → (A → A → Bool) → List A → Type 0
Ordered lt [] = Unit
Ordered lt (x ∷ xs) = All (λ y. lt y x ≡ false) xs × Ordered lt xs

pub record Sorting (A : Type 0) : Type 0 where
  pub sort : (A → A → Bool) → List A → List A

pub record SortingLaws {A : Type 0} (S : Sorting A) : Type 0 where
  pub permuted : (lt : A → A → Bool) (xs : List A) → IsStrictWeak lt → Permᴰ (S.sort lt xs) xs
  pub ordered : (lt : A → A → Bool) (xs : List A) → IsStrictWeak lt → Ordered lt (S.sort lt xs)

pub All-perm : {A : Type 0} (P : A → Type 0) (xs ys : List A) → Permᴰ xs ys → All P xs → All P ys
All-perm P _ _ Permᴰ.nil h = tt
All-perm P _ _ (Permᴰ.cons e p) (h, hs) = (subst P e h, All-perm P _ _ p hs)
All-perm P _ _ (Permᴰ.swap e f) (h, r) = (subst P f r.0, (subst P e h, r.1))
All-perm P _ _ (Permᴰ.trans p q) h = All-perm P _ _ q (All-perm P _ _ p h)

Within-perm : {A : Type 0} (a : A) (xs ys : List A) → Permᴰ xs ys → Within a xs → Within a ys
Within-perm a _ _ Permᴰ.nil h = h
Within-perm a _ _ (Permᴰ.cons e p) (inl h) = inl (h ∙ e)
Within-perm a _ _ (Permᴰ.cons e p) (inr h) = inr (Within-perm a _ _ p h)
Within-perm a _ _ (Permᴰ.swap e f) (inl h) = inr (inl (h ∙ e))
Within-perm a _ _ (Permᴰ.swap e f) (inr (inl h)) = inl (h ∙ f)
Within-perm a _ _ (Permᴰ.swap e f) (inr (inr h)) = inr (inr h)
Within-perm a _ _ (Permᴰ.trans p q) h = Within-perm a _ _ q (Within-perm a _ _ p h)

-- A sorted list that has a first element shows one that the given list holds, with no element of that
-- list before it.
pub sort_head :
    {A : Type 0} (S : Sorting A) (laws : SortingLaws S) (lt : A → A → Bool) (xs : List A) (h : A)
    (t : List A)
    → IsStrictWeak lt
    → S.sort lt xs ≡ h ∷ t
    → Within h xs × All (λ y. lt y h ≡ false) xs
sort_head S laws lt xs h t w e =
    let p : Permᴰ (h ∷ t) xs = subst (λ l. Permᴰ l xs) e (laws.permuted lt xs w) in
    let o : Ordered lt (h ∷ t) = subst (Ordered lt) e (laws.ordered lt xs w) in
    (
      Within-perm h (h ∷ t) xs p (inl refl),
      All-perm (λ y. lt y h ≡ false) (h ∷ t) xs p (w.irreflexive h, o.0),
    )
