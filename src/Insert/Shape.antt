-- ===== src/Insert/Shape.antt =====
-- What the two loops write.
use store_cpp.Base.{
  ℕ, zero, suc, ◌+◌, ◌≡◌, ◌≢◌, ◌≤◌, ◌<◌, refl, List, [], ◌∷◌, map, some, Str, codes, length, take,
  drop, arith, ap, sym, get_elem?, append-nil,
}
use store_cpp.Extensions.Join.{intercalate, tail_pieces}
use store_cpp.Insert.{Value, format_value, write_fields, write_values}

-- The names with commas between them.
pub write_fields-intercalate :
    (fs : List Str) → fs ≢ [] → write_fields fs ≡ some (intercalate (codes ",") fs)
unfolding write_fields intercalate tail_pieces
write_fields-intercalate [] h = absurd (h refl)
write_fields-intercalate (f ∷ []) h = ap some (sym (append-nil f))
write_fields-intercalate (f ∷ g ∷ fs) h = rw (write_fields-intercalate (g ∷ fs) (λ e. cc))

-- An index in range splits off an element.
pub drop_step {ℓ} :
    {A : Type ℓ} (xs : List A) (i : ℕ)
    → i < length xs
    → (v : A) × (get_elem? xs i ≡ some v) × (drop i xs ≡ v ∷ drop (suc i) xs)
drop_step [] i h = elim h [ ]
drop_step (x ∷ xs) zero h = (x, refl, refl)
drop_step (x ∷ xs) (suc i) h = drop_step xs i (omega arith)

-- Writing `n + 1` values from index `i` on gives their formats with commas between them, if the
-- tuple has that many from there.
pub write_values-intercalate :
    (values : List Value) (n i : ℕ)
    → suc n + i ≤ length values
    → write_values values n i
      ≡ some (intercalate (codes ",") (map format_value (take (suc n) (drop i values))))
unfolding write_values intercalate tail_pieces
write_values-intercalate values zero i h =
    let (v, e, d) = drop_step values i (omega arith) in
    rw (e, d) (ap some (sym (append-nil (format_value v))))
write_values-intercalate values (suc n) i h =
    let (v, e, d) = drop_step values i (omega arith) in
    let (v', e', d') = drop_step values (suc i) (omega arith) in
    rw (write_values-intercalate values n (suc i) (omega arith), e, d, d')
