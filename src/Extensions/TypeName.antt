-- ===== src/Extensions/TypeName.antt =====
-- `resolve_type_to_string`: the table name of a C++ type. `demangle(typeid(U).name())` is a
-- parameter, the qualified name of the type.
use store_cpp.Base.{
  ℕ, zero, suc, ◌-◌, ◌≡◌, ◌≢◌, refl, Bool, true, false, [], ◌∷◌, ◌++◌, Option, none, some, arith,
  ◌==◌, if◌then◌else◌, Str, All, ap, length, drop, length-append, length-drop, Option-cases, inl,
  inr, append-nil, ◌∙◌,
}
use store_cpp.Extensions.Case.{lower_case}
use store_cpp.Extensions.Format.{c_str}

-- `find_last_of(c)`.
find_last_of : ℕ → Str → Option ℕ
find_last_of c [] = none
find_last_of c (x ∷ s) = elim (find_last_of c s) [
  | some i ↦ some (suc i)
  | none ↦ if x == c then some 0 else none
]

-- `n.substr(n.find_last_of(':') + 1)`; `npos + 1` is 0.
unfoldable pub after_last : ℕ → Str → Str
unfolding find_last_of
after_last c s = elim (find_last_of c s) [ none ↦ s | some i ↦ drop (suc i) s ]

nuls : ℕ → Str
nuls zero = []
nuls (suc n) = 0 ∷ nuls n

-- In lower case the result was resized to the length of the whole name before the short name was
-- written to its front, so NUL bytes are left behind it.
unfoldable pub resolve_type_to_string : Str → Bool → Str
unfolding after_last nuls
resolve_type_to_string n false = after_last b':' n
resolve_type_to_string n true =
    let l = after_last b':' n in lower_case l ++ nuls (length n - length l)

c_str-nuls : (n : ℕ) → c_str (nuls n) ≡ []
unfolding c_str nuls
c_str-nuls zero = refl
c_str-nuls (suc n) = refl

c_str-append : (s t : Str) → All (λ c. c ≢ 0) s → c_str (s ++ t) ≡ s ++ c_str t
unfolding c_str
c_str-append [] t h = refl
c_str-append (c ∷ s) t (h, hs) = ground (arith, c_str-append s t hs)

NoNul : Str → Type 0
NoNul = All (λ c. c ≢ 0)

drop-NoNul : (n : ℕ) (s : Str) → NoNul s → NoNul (drop n s)
unfolding NoNul
drop-NoNul zero s h = h
drop-NoNul (suc n) [] h = tt
drop-NoNul (suc n) (c ∷ s) (h, hs) = drop-NoNul n s hs

lower_case-NoNul : (s : Str) → NoNul s → NoNul (lower_case s)
unfolding NoNul lower_case
lower_case-NoNul [] h = tt
lower_case-NoNul (c ∷ s) (h, hs) = (ground arith, lower_case-NoNul s hs)

length-lower_case : (s : Str) → length (lower_case s) ≡ length s
unfolding lower_case
length-lower_case [] = refl
length-lower_case (c ∷ s) = ap suc (length-lower_case s)

length-nuls : (n : ℕ) → length (nuls n) ≡ n
unfolding nuls
length-nuls zero = refl
length-nuls (suc n) = ap suc (length-nuls n)

after_last_shape : (c : ℕ) (s : Str) → (n : ℕ) × (after_last c s ≡ drop n s)
unfolding after_last
after_last_shape c s = elim (Option-cases (find_last_of c s)) [
  | inl e ↦ (0, rw (e, after_last))
  | inr (i, e) ↦ (suc i, rw (e, after_last))
]

-- For a qualified name without NUL the lower case result has the length of the whole qualified name, and a C reader sees the part
-- behind the last colon, in lower case.
resolve_type_to_string_lem :
    (n : Str)
    → All (λ c. c ≢ 0) n
    → (length (resolve_type_to_string n true) ≡ length n)
      × (c_str (resolve_type_to_string n true) ≡ lower_case (after_last b':' n))
unfolding resolve_type_to_string NoNul
resolve_type_to_string_lem n h =
    let (k, e) = after_last_shape b':' n in
    let l = after_last b':' n in
    let short : NoNul (lower_case l) = lower_case-NoNul l (rw e (drop-NoNul k n h)) in
    (
      omega (
        arith,
        length-append (lower_case l) (nuls (length n - length l)),
        length-lower_case l,
        length-nuls (length n - length l),
        ap length e,
        length-drop k n,
      ),
      c_str-append (lower_case l) (nuls (length n - length l)) short
          ∙ ap (◌++◌ (lower_case l)) (c_str-nuls (length n - length l))
          ∙ append-nil (lower_case l),
    )
