-- ===== src/Base/Text.antt =====
-- Byte strings (`std::string` holds bytes), their equality test, and decimal print.
use Prim.Native.Nat.{ℕ, zero, suc, ◌+◌, ◌/◌, ◌%◌}
use Prim.Native.Char.{code}
use Prim.Native.String.{String}
use mathlib.Core.Path.{◌≡◌, refl}
use mathlib.Core.Bool.{Bool, true, false, ◌&&◌}
use mathlib.Core.List.{List, [], ◌∷◌, ◌++◌}
use native.Mathlib.Omega.{arith}
use store_cpp.Base.Tests.{ltb, ◌==◌, if◌then◌else◌}

abbrev pub Str : Type 0
Str = List ℕ

-- The bytes of an ASCII literal. It is shut: proofs about statements treat a literal as one value.
unfoldable pub codes : String → Str
codes String.[] = []
codes (String.◌∷◌ c s) = code c ∷ codes s

unfoldable pub seq : Str → Str → Bool
seq [] [] = true
seq (x ∷ xs) (y ∷ ys) = x == y && seq xs ys
seq _ _ = false

pub seq→eq : (s t : Str) → seq s t ≡ true → s ≡ t
unfolding seq
seq→eq [] [] h = refl
seq→eq [] (y ∷ ys) h = ground arith
seq→eq (x ∷ xs) [] h = ground arith
seq→eq (x ∷ xs) (y ∷ ys) h = ground (arith, seq→eq xs ys)

pub seq_refl : (s : Str) → seq s s ≡ true
unfolding seq
seq_refl [] = refl
seq_refl (x ∷ xs) = ground (arith, seq_refl xs)

digits : ℕ → ℕ → Str → Str
digits zero n out = out
digits (suc f) n out =
    let rest = digits f (n / 10) ((48 + n % 10) ∷ out) in if ltb n 10 then (48 + n) ∷ out else rest

-- The decimal print of a number; each round divides by ten, so `n + 1` rounds are enough.
unfoldable pub decimal : ℕ → Str
unfolding digits
decimal n = digits (suc n) n []

-- The lines of a raw string literal, with a newline between any two.
unfoldable pub text_lines : List String → Str
unfolding codes
text_lines [] = []
text_lines (l ∷ []) = codes l
text_lines (l ∷ m ∷ ls) = codes l ++ (10 ∷ text_lines (m ∷ ls))
