-- ===== src/Cassandra/Total.antt =====
-- Computations of the Cassandra client that return.
use store_cpp.Base.{
  ℕ, zero, suc, ◌≡◌, ◌≤◌, refl, sym, subst, ap, ◌∙◌, Option, none, some, some_injective, List, [],
  ◌∷◌, Str, take, length,
}
use store_cpp.Cassandra.Driver.{M, bound, ◌>>=◌, ◌>>◌, pure, call, step, need, Driver, Bound}
use store_cpp.Cassandra.Balance.{Yields}
use store_cpp.Cassandra.Client.{
  report_error, tap_if, execute_query, add_statements, insert_sync_batch,
}
use store_cpp.Cassandra.Statements.{
  Param, bound_of, bind_option, bind_cass_parameter, get_insert_statement,
}
use store_cpp.Cassandra.StatementLaws.{bind_each, get_insert_statement-bind_each}

pub record Total {W A : Type 0} (m : M W A) : Type 0 where
  pub total : (w : W) → (x : A) × (w' : W) × (m w ≡ some (x, w'))

module _ {W : Type 0} where
  pub Total-bind-Yields :
      {A B : Type 0} (P : A → Type 0) {m : M W A} {f : A → M W B}
      → Total m
      → Yields P m
      → ((x : A) → P x → Total (f x))
      → Total (m >>= f)
  unfolding ◌>>=◌
  Total-bind-Yields P {m} {f} h q g = record {
    total = λ w.
        let (x, u, e) = h.total w in
        let (y, v, d) = (g x (q.yields w u x e)).total u in (y, v, ap (λ r. bound r f) e ∙ d);
  }

  pub Total-bind :
      {A B : Type 0} {m : M W A} {f : A → M W B}
      → Total m
      → ((x : A) → Total (f x))
      → Total (m >>= f)
  Total-bind h g =
      Total-bind-Yields (λ x. Unit {0}) h (record { yields = λ w w' x e. tt }) (λ x p. g x)

  pub Total-then :
      {B : Type 0} {m : M W (Unit {0})} {k : M W B} → Total m → Total k → Total (m >> k)
  unfolding ◌>>◌
  Total-then h g = Total-bind h (λ _. g)

  pub Total-pure : {A : Type 0} (x : A) → Total (pure {W = W} x)
  Total-pure x = unfold pure in record { total = λ w. (x, w, refl) }

  pub Total-call : {A : Type 0} (f : W → A × W) → Total (call f)
  Total-call f = unfold call in record { total = λ w. ((f w).0, (f w).1, refl) }

  pub Total-step : (f : W → W) → Total (step f)
  Total-step f = unfold step in record { total = λ w. (tt, f w, refl) }

  pub Total-need : {A : Type 0} (o : Option A) (x : A) → o ≡ some x → Total (need {W = W} o)
  Total-need o x e =
      subst (λ p. Total (need {W = W} p)) (sym e)
        (unfold need in record { total = λ w. (x, w, refl) })

module _ (D : Driver) where
  open D use {World, Statement, Future, Batch, future_error_code}

  -- No future that the driver gives has an error.
  abbrev pub NoErrors : Type 0
  NoErrors = (f : Future) (w : World) → (future_error_code f w).0 ≡ 0

  call-Yields : (f : Future) → NoErrors → Yields (λ rc. rc ≡ 0) (call (future_error_code f))
  call-Yields f h =
      unfold call in
      record { yields = λ w w' x e. ap (λ (r : ℕ × World). r.0) (sym (some_injective e)) ∙ h f w }

  report_error-Total : (f : Future) (rc : ℕ) → rc ≡ 0 → Total (report_error D f rc)
  unfolding report_error
  report_error-Total f zero e = Total-pure tt
  report_error-Total f (suc rc) e = cc

  tap_if-Total :
      (f : Future) (rc : ℕ) (tap : Future → M World (Unit {0}))
      → ((f : Future) → Total (tap f))
      → Total (tap_if D rc (some tap) f)
  unfolding tap_if
  tap_if-Total f zero tap h = h f
  tap_if-Total f (suc rc) tap h = Total-pure tt

  pub execute_query-Total :
      (query : Str) (tap : Future → M World (Unit {0}))
      → NoErrors
      → ((f : Future) → Total (tap f))
      → Total (execute_query D query (some tap))
  unfolding execute_query
  execute_query-Total query tap ok h = Total-bind (Total-call _) λ s. Total-bind (Total-call _) λ f.
      Total-then (Total-step _) (
        Total-bind-Yields (λ rc. rc ≡ 0) (Total-call _) (call-Yields f ok)
          λ rc e. Total-then (report_error-Total f rc e) (
            Total-then (tap_if-Total f rc tap h)
              (Total-then (Total-step _) (Total-then (Total-step _) (Total-pure _)))))

  add_statements-Total : (b : Batch) (ss : List Statement) → Total (add_statements D b ss)
  unfolding add_statements
  add_statements-Total b [] = Total-pure tt
  add_statements-Total b (s ∷ ss) =
      Total-then (Total-step _) (Total-then (Total-step _) (add_statements-Total b ss))

  pub insert_sync_batch-Total : (ss : List Statement) → NoErrors → Total (insert_sync_batch D ss)
  unfolding insert_sync_batch
  insert_sync_batch-Total ss ok = Total-bind (Total-call _) λ b.
      Total-then (add_statements-Total b ss) (
        Total-bind (Total-call _) λ f. Total-then (Total-step _) (
          Total-bind-Yields (λ rc. rc ≡ 0) (Total-call _) (call-Yields f ok)
            λ rc e. Total-then (report_error-Total f rc e) (Total-step _)))

  bind_option-Total : (s : Statement) (i : ℕ) (o : Option Bound) → Total (bind_option D s i o)
  unfolding bind_option
  bind_option-Total s i none = Total-pure tt
  bind_option-Total s i (some b) = Total-step _

  bind_each-Total : (s : Statement) (ps : List Param) (i : ℕ) → Total (bind_each D s ps i)
  bind_each-Total s [] i = Total-pure tt
  bind_each-Total s (p ∷ ps) i =
      Total-then (unfold bind_cass_parameter in bind_option-Total s i (bound_of p))
        (bind_each-Total s ps (suc i))

  pub get_insert_statement-Total :
      (table_name f : Str) (fs : List Str) (params : List Param)
      → length (f ∷ fs) ≤ length params
      → Total (get_insert_statement D table_name (f ∷ fs) params)
  get_insert_statement-Total table_name f fs params h =
      subst Total (sym (get_insert_statement-bind_each D table_name f fs params h)) (
        Total-bind (Total-call _)
          λ s. Total-then (bind_each-Total s (take (length (f ∷ fs)) params) 0) (Total-pure s))
