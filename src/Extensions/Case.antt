-- ===== src/Extensions/Case.antt =====
-- `lower_case`, `upper_case` and `insensitiveCompare`, in the "C" locale of `::tolower`.
use store_cpp.Base.{
  ℕ, ◌+◌, ◌-◌, ◌≡◌, refl, Bool, true, false, ◌&&◌, [], ◌∷◌, map, arith, leb, ◌==◌, if◌then◌else◌,
  Str, seq, ap₂,
}

-- `::tolower` and `::toupper`.
unfoldable pub to_lower : ℕ → ℕ
to_lower c = if leb b'A' c && leb c b'Z' then c + 32 else c

unfoldable pub to_upper : ℕ → ℕ
to_upper c = if leb b'a' c && leb c b'z' then c - 32 else c

unfoldable pub lower_case : Str → Str
unfolding to_lower
lower_case l = map to_lower l

unfoldable pub upper_case : Str → Str
unfolding to_upper
upper_case l = map to_upper l

-- `std::equal` on both ranges with the test on lowered bytes.
unfoldable pub insensitive_compare : Str → Str → Bool
insensitive_compare [] [] = true
insensitive_compare (x ∷ a) (y ∷ b) = to_lower x == to_lower y && insensitive_compare a b
insensitive_compare _ _ = false

to_lower-to_upper : (c : ℕ) → to_lower (to_upper c) ≡ to_lower c
unfolding to_lower to_upper
to_lower-to_upper c = ground arith

to_lower_idem : (c : ℕ) → to_lower (to_lower c) ≡ to_lower c
unfolding to_lower
to_lower_idem c = ground arith

pub lower_case_idem : (s : Str) → lower_case (lower_case s) ≡ lower_case s
unfolding lower_case
lower_case_idem [] = refl
lower_case_idem (c ∷ s) = ap₂ ◌∷◌ (to_lower_idem c) (lower_case_idem s)

-- Lowering forgets an earlier change to upper case.
lower_case-upper_case : (s : Str) → lower_case (upper_case s) ≡ lower_case s
unfolding lower_case upper_case
lower_case-upper_case [] = refl
lower_case-upper_case (c ∷ s) = ap₂ ◌∷◌ (to_lower-to_upper c) (lower_case-upper_case s)

-- Two strings compare equal without regard to case exactly when their lower case forms are equal
-- byte strings.
insensitive_compare-lower_case :
    (a b : Str) → insensitive_compare a b ≡ seq (lower_case a) (lower_case b)
unfolding insensitive_compare lower_case seq
insensitive_compare-lower_case [] [] = refl
insensitive_compare-lower_case [] (y ∷ b) = refl
insensitive_compare-lower_case (x ∷ a) [] = refl
insensitive_compare-lower_case (x ∷ a) (y ∷ b) = ground (arith, insensitive_compare-lower_case a b)
