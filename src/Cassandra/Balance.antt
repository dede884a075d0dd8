-- ===== src/Cassandra/Balance.antt =====
-- What a computation adds to the driver's objects, and how that composes.
use store_cpp.Base.{
  ℕ, suc, ◌+◌, ◌≡◌, refl, sym, ap, subst, ◌∙◌, arith, Option, none, some, some_injective,
}
use store_cpp.Cassandra.Driver.{M, bound, ◌>>=◌, ◌>>◌, pure, call, step, need, stuck}

-- From `a` objects (and any others) to `b`, whenever the computation returns.
pub record Grows {W A : Type 0} (live : W → ℕ) (a : ℕ) (m : M W A) (b : ℕ) : Type 0 where
  pub grows : (w w' : W) (x : A) (n : ℕ) → live w ≡ a + n → m w ≡ some (x, w') → live w' ≡ b + n

abbrev pub Balanced : {W A : Type 0} → (W → ℕ) → M W A → Type 0
Balanced live m = Grows live 0 m 0

-- The world after a computation that returns.
returned_world :
    {W A : Type 0} (live : W → ℕ) (r s : A × W)
    → Option.some r ≡ Option.some s
    → live s.1 ≡ live r.1
returned_world {W} {A} live r s e = ap (λ (t : A × W). live t.1) (sym (some_injective e))

module _ {W : Type 0} {live : W → ℕ} where
  bound-Grows :
      {A B : Type 0} (r : Option (A × W)) (f : A → M W B) (b c : ℕ) (w' : W) (y : B) (n : ℕ)
      → ((x : A) (u : W) → r ≡ some (x, u) → live u ≡ b + n)
      → ((x : A) → Grows live b (f x) c)
      → bound r f ≡ some (y, w')
      → live w' ≡ c + n
  bound-Grows none f b c w' y n h g e = cc
  bound-Grows (some (x, u)) f b c w' y n h g e = (g x).grows u w' y n (h x u refl) e

  pub Grows-bind :
      {A B : Type 0} {a b c : ℕ} {m : M W A} {f : A → M W B}
      → Grows live a m b
      → ((x : A) → Grows live b (f x) c)
      → Grows live a (m >>= f) c
  unfolding ◌>>=◌
  Grows-bind {b} {c} {m} {f} h g = record {
    grows = λ w w' y n l e. bound-Grows (m w) f b c w' y n (λ x u p. h.grows w u x n l p) g e;
  }

  pub Grows-then :
      {B : Type 0} {a b c : ℕ} {m : M W (Unit {0})} {k : M W B}
      → Grows live a m b
      → Grows live b k c
      → Grows live a (m >> k) c
  unfolding ◌>>◌
  Grows-then h g = Grows-bind h (λ _. g)

  pub Grows-pure : {A : Type 0} {a : ℕ} (x : A) → Grows live a (pure x) a
  Grows-pure x =
      unfold pure in record { grows = λ w w' y n l e. returned_world live _ (y, w') e ∙ l }

  pub Grows-stuck : {A : Type 0} {a b : ℕ} → Grows live a (stuck {A = A}) b
  Grows-stuck = unfold stuck in record { grows = λ w w' y n l e. cc }

  pub Grows-need : {A : Type 0} {a : ℕ} (o : Option A) → Grows live a (need o) a
  unfolding need
  Grows-need none = record { grows = λ w w' y n l e. cc }
  Grows-need (some x) = record { grows = λ w w' y n l e. returned_world live _ (y, w') e ∙ l }

  -- A call that keeps, makes or frees one.
  pub Grows-kept :
      {A : Type 0} {a : ℕ} (f : W → A × W)
      → ((w : W) → live (f w).1 ≡ live w)
      → Grows live a (call f) a
  Grows-kept f h =
      unfold call in record { grows = λ w w' y n l e. returned_world live _ (y, w') e ∙ h w ∙ l }

  pub Grows-made :
      {A : Type 0} {a : ℕ} (f : W → A × W)
      → ((w : W) → live (f w).1 ≡ suc (live w))
      → Grows live a (call f) (suc a)
  Grows-made f h =
      unfold call in
      record { grows = λ w w' y n l e. omega (arith, returned_world live _ (y, w') e, h w, l) }

  pub Grows-step : {a : ℕ} (f : W → W) → ((w : W) → live (f w) ≡ live w) → Grows live a (step f) a
  Grows-step f h =
      unfold step in record { grows = λ w w' y n l e. returned_world live _ (y, w') e ∙ h w ∙ l }

  pub Grows-freed :
      {a : ℕ} (f : W → W)
      → ((w : W) (n : ℕ) → live w ≡ suc n → live (f w) ≡ n)
      → Grows live (suc a) (step f) a
  unfolding step
  Grows-freed {a} f h = record {
    grows = λ w w' y n l e. returned_world live _ (y, w') e ∙ h w (a + n) (omega (arith, l));
  }

-- What a computation returns, if it does.
pub record Yields {W A : Type 0} (P : A → Type 0) (m : M W A) : Type 0 where
  pub yields : (w w' : W) (x : A) → m w ≡ some (x, w') → P x

module _ {W : Type 0} where
  bound-Yields :
      {A B : Type 0} (P : B → Type 0) (r : Option (A × W)) (f : A → M W B) (w' : W) (y : B)
      → ((x : A) → Yields P (f x))
      → bound r f ≡ some (y, w')
      → P y
  bound-Yields P none f w' y h e = cc
  bound-Yields P (some (x, u)) f w' y h e = (h x).yields u w' y e

  bound-nothing :
      {A B : Type 0} {P : Type 0} (r : Option (A × W)) (f : A → M W B) (w' : W) (y : B)
      → ((u : W) (x : A) → r ≡ some (x, u) → ⊥)
      → bound r f ≡ some (y, w')
      → P
  bound-nothing none f w' y h e = cc
  bound-nothing (some (x, u)) f w' y h e = absurd (h u x refl)

  pub Yields-bind :
      {A B : Type 0} {P : B → Type 0} (m : M W A) {f : A → M W B}
      → ((x : A) → Yields P (f x))
      → Yields P (m >>= f)
  unfolding ◌>>=◌
  Yields-bind {P} m {f} h = record { yields = λ w w' y e. bound-Yields P (m w) f w' y h e }

  pub Yields-then :
      {B : Type 0} {P : B → Type 0} (m : M W (Unit {0})) {k : M W B}
      → Yields P k
      → Yields P (m >> k)
  unfolding ◌>>◌
  Yields-then m h = Yields-bind m (λ _. h)

  pub Yields-pure : {A : Type 0} {P : A → Type 0} (x : A) → P x → Yields P (pure {W = W} x)
  Yields-pure {P} x p =
      unfold pure in record { yields = λ w w' y e. subst P (ap (λ t. t.0) (some_injective e)) p }

  -- A computation that never returns.
  pub Yields-nothing :
      {A B : Type 0} {P : B → Type 0} (m : M W A) (f : A → M W B)
      → Yields (λ x. ⊥) m
      → Yields P (m >>= f)
  unfolding ◌>>=◌
  Yields-nothing {P} m f h = record {
    yields = λ w w' y e. bound-nothing (m w) f w' y (h.yields w) e;
  }

  -- A step whose result has a property that the rest needs.
  bound-Grows-Yields :
      {A B : Type 0} (live : W → ℕ) (P : A → Type 0) (r : Option (A × W)) (f : A → M W B) (b c : ℕ)
      (w' : W) (y : B) (n : ℕ)
      → ((x : A) (u : W) → r ≡ some (x, u) → (live u ≡ b + n) × P x)
      → ((x : A) → P x → Grows live b (f x) c)
      → bound r f ≡ some (y, w')
      → live w' ≡ c + n
  bound-Grows-Yields live P none f b c w' y n h g e = cc
  bound-Grows-Yields live P (some (x, u)) f b c w' y n h g e =
      let (l, p) = h x u refl in (g x p).grows u w' y n l e

  pub Grows-bind-Yields :
      {A B : Type 0} {live : W → ℕ} {a b c : ℕ} {m : M W A} {f : A → M W B} (P : A → Type 0)
      → Grows live a m b
      → Yields P m
      → ((x : A) → P x → Grows live b (f x) c)
      → Grows live a (m >>= f) c
  unfolding ◌>>=◌
  Grows-bind-Yields {live} {b} {c} {m} {f} P h q g = record {
    grows = λ w w' y n l e.
        bound-Grows-Yields live P (m w) f b c w' y n
          (λ x u p. (h.grows w u x n l p, q.yields w u x p)) g e;
  }

  bound-Yields-Yields :
      {A B : Type 0} (P : A → Type 0) (Q : B → Type 0) (r : Option (A × W)) (f : A → M W B) (w' : W)
      (y : B)
      → ((u : W) (x : A) → r ≡ some (x, u) → P x)
      → ((x : A) → P x → Yields Q (f x))
      → bound r f ≡ some (y, w')
      → Q y
  bound-Yields-Yields P Q none f w' y h g e = cc
  bound-Yields-Yields P Q (some (x, u)) f w' y h g e = (g x (h u x refl)).yields u w' y e

  pub Yields-bind-Yields :
      {A B : Type 0} {P : A → Type 0} {Q : B → Type 0} (m : M W A) {f : A → M W B}
      → Yields P m
      → ((x : A) → P x → Yields Q (f x))
      → Yields Q (m >>= f)
  unfolding ◌>>=◌
  Yields-bind-Yields {P} {Q} m {f} h g = record {
    yields = λ w w' y e. bound-Yields-Yields P Q (m w) f w' y (h.yields w) g e;
  }

-- The counts may be written in another way.
pub Grows-to :
    {W A : Type 0} {live : W → ℕ} {a b c : ℕ} {m : M W A}
    → b ≡ c
    → Grows live a m b
    → Grows live a m c
Grows-to {live} {a} {m} e h = subst (λ k. Grows live a m k) e h

pub Grows-from :
    {W A : Type 0} {live : W → ℕ} {a b c : ℕ} {m : M W A}
    → a ≡ b
    → Grows live a m c
    → Grows live b m c
Grows-from {live} {c} {m} e h = subst (λ k. Grows live k m c) e h
