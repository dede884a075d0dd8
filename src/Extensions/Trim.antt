-- ===== src/Extensions/Trim.antt =====
-- `ltrim`, `rtrim`, `trim`, `strip_unicode` and `strip_soh`.
use store_cpp.Base.{
  ℕ, suc, ◌≡◌, refl, ap, ◌≢◌, Bool, true, false, not, ◌||◌, [], ◌∷◌, ◌++◌, arith, ltb, ◌==◌,
  if◌then◌else◌, Str, Option, none, some, take, drop, keep, All, ◌∙◌, ◌<◌, inl, inr, Bool-cases,
  Option-cases, append_assoc,
}

unfoldable pub contains : Str → ℕ → Bool
contains [] c = false
contains (x ∷ chars) c = x == c || contains chars c

-- `find_first_not_of`; `none` is `npos`.
unfoldable pub find_first_not_of : Str → Str → Option ℕ
find_first_not_of chars [] = none
find_first_not_of chars (c ∷ s) =
    if contains chars c
    then (elim (find_first_not_of chars s) [ none ↦ none | some i ↦ some (suc i) ])
    else some 0

-- `find_last_not_of`.
unfoldable pub find_last_not_of : Str → Str → Option ℕ
find_last_not_of chars [] = none
find_last_not_of chars (c ∷ s) = elim (find_last_not_of chars s) [
  | some i ↦ some (suc i)
  | none ↦ if contains chars c then none else some 0
]

-- `str.erase(0, n)`, where `npos` erases all.
unfoldable pub ltrim : Str → Str → Str
ltrim str chars = elim (find_first_not_of chars str) [ none ↦ [] | some n ↦ drop n str ]

-- `str.erase(n + 1)`; `npos + 1` is 0, and all is erased.
unfoldable pub rtrim : Str → Str → Str
rtrim str chars = elim (find_last_not_of chars str) [ none ↦ [] | some n ↦ take (suc n) str ]

unfoldable pub trim : Str → Str → Str
trim str chars = ltrim (rtrim str chars) chars

-- A `char` is signed: the bytes from 128 on are negative.
unfoldable pub invalid_char : ℕ → Bool
invalid_char c = not (ltb c 128)

unfoldable pub strip_unicode : Str → Str
unfolding invalid_char
strip_unicode str = keep (λ c. not (invalid_char c)) str

-- `begin() + 1` of an empty string is undefined behaviour, which is `none`.
unfoldable pub strip_soh : Str → Option Str
strip_soh [] = none
strip_soh (c ∷ str) = if c == 1 then some str else some (c ∷ str)

-- The byte is one that is trimmed.
abbrev In : Str → ℕ → Type 0
In chars c = contains chars c ≡ true

ltrim_in :
    (chars : Str) (c : ℕ) (s : Str) → contains chars c ≡ true → ltrim (c ∷ s) chars ≡ ltrim s chars
unfolding ltrim find_first_not_of
ltrim_in chars c s h = ground arith

ltrim_out : (chars : Str) (c : ℕ) (s : Str) → contains chars c ≡ false → ltrim (c ∷ s) chars ≡ c ∷ s
unfolding ltrim find_first_not_of
ltrim_out chars c s h = ground arith

-- The first byte, if there is one, is not trimmed.
abbrev StartsOut : Str → Str → Type 0
StartsOut chars [] = Unit
StartsOut chars (c ∷ s) = contains chars c ≡ false

abbrev EndsOut : Str → Str → Type 0
EndsOut chars [] = Unit
EndsOut chars (c ∷ []) = contains chars c ≡ false
EndsOut chars (c ∷ d ∷ s) = EndsOut chars (d ∷ s)

EndsOut-tail : (chars : Str) (c : ℕ) (s : Str) → EndsOut chars (c ∷ s) → EndsOut chars s
EndsOut-tail chars c [] h = tt
EndsOut-tail chars c (d ∷ s) h = h

-- What `ltrim` takes away, and what it leaves.
ltrim_lem :
    (s chars : Str)
    → (pre : Str) × All (In chars) pre
      × (s ≡ pre ++ ltrim s chars)
      × StartsOut chars (ltrim s chars)
      × (EndsOut chars s → EndsOut chars (ltrim s chars))
ltrim_lem [] chars = (
  [],
  tt,
  unfold ltrim find_first_not_of in refl,
  unfold ltrim find_first_not_of in tt,
  unfold ltrim find_first_not_of in λ h. tt,
)
ltrim_lem (c ∷ s) chars = elim (Bool-cases (contains chars c)) [
  | inl e ↦
      let (pre, all_in, split, starts, ends) = ltrim_lem s chars in
      rw (ltrim_in chars c s e)
        (c ∷ pre, (e, all_in), ap (◌∷◌ c) split, starts, λ h. ends (EndsOut-tail chars c s h))
  | inr e ↦ rw (ltrim_out chars c s e) ([], tt, refl, e, λ h. h)
]

rtrim-some :
    (chars : Str) (c : ℕ) (s : Str) (i : ℕ)
    → find_last_not_of chars s ≡ some i
    → rtrim (c ∷ s) chars ≡ c ∷ rtrim s chars
unfolding rtrim find_last_not_of
rtrim-some chars c s i h = rw (h, rtrim, find_last_not_of)

rtrim_none :
    (chars : Str) (c : ℕ) (s : Str)
    → find_last_not_of chars s ≡ none
    → rtrim (c ∷ s) chars ≡ (if contains chars c then [] else c ∷ [])
unfolding rtrim find_last_not_of
rtrim_none chars c s h = ground arith

rtrim_empty : (chars s : Str) → find_last_not_of chars s ≡ none → rtrim s chars ≡ []
unfolding rtrim
rtrim_empty chars s h = rw (h, rtrim)

rtrim_full : (chars s : Str) (i : ℕ) → find_last_not_of chars s ≡ some i → rtrim s chars ≢ []
unfolding rtrim find_last_not_of
rtrim_full chars [] i h = cc
rtrim_full chars (c ∷ s) i h = rw (h, rtrim) λ e. cc

EndsOut-cons : (chars : Str) (c : ℕ) (s : Str) → s ≢ [] → EndsOut chars s → EndsOut chars (c ∷ s)
EndsOut-cons chars c [] h e = absurd (h refl)
EndsOut-cons chars c (d ∷ s) h e = e

-- What `rtrim` takes away, and what it leaves.
rtrim_lem :
    (s chars : Str)
    → (post : Str) × All (In chars) post
      × (s ≡ rtrim s chars ++ post)
      × EndsOut chars (rtrim s chars)
rtrim_lem [] chars =
    ([], tt, unfold rtrim find_last_not_of in refl, unfold rtrim find_last_not_of in tt)
rtrim_lem (c ∷ s) chars =
    let (post, all_in, split, ends) = rtrim_lem s chars in
    elim (Option-cases (find_last_not_of chars s)) [
      | inr (i, e) ↦
          rw (rtrim-some chars c s i e)
            (post, all_in, ap (◌∷◌ c) split, EndsOut-cons chars c _ (rtrim_full chars s i e) ends)
      | inl e ↦ rw (rtrim_none chars c s e) (elim (Bool-cases (contains chars c)) [
        | inl hit ↦ rw hit (
          c ∷ post,
          (hit, all_in),
          ap (◌∷◌ c) (split ∙ ap (λ r. r ++ post) (rtrim_empty chars s e)),
          tt,
        )
        | inr miss ↦
            rw miss
              (post, all_in, ap (◌∷◌ c) (split ∙ ap (λ r. r ++ post) (rtrim_empty chars s e)), miss)
      ])
    ]

-- `s` is `r` with bytes of `chars` before and behind it, and `r` begins and ends with no such byte.
pub record Trimmed (s chars r : Str) : Type 0 where
  pub before : Str
  pub behind : Str
  pub before_in : All (In chars) before
  pub behind_in : All (In chars) behind
  pub parts : s ≡ before ++ (r ++ behind)
  pub starts : StartsOut chars r
  pub ends : EndsOut chars r

-- `trim` takes away the bytes of the given set at both ends, all of them, and nothing else.
trim-Trimmed : (s chars : Str) → Trimmed s chars (trim s chars)
unfolding trim
trim-Trimmed s chars =
    let (post, post_in, right, r_ends) = rtrim_lem s chars in
    let (pre, pre_in, left, starts, l_ends) = ltrim_lem (rtrim s chars) chars in
    record {
      before = pre;
      behind = post;
      before_in = pre_in;
      behind_in = post_in;
      parts =
          right ∙ ap (λ r. r ++ post) left ∙ append_assoc pre (ltrim (rtrim s chars) chars) post;
      starts = starts;
      ends = l_ends r_ends;
    }

-- Only ASCII bytes are left, and a text of ASCII bytes is left as it is.
pub strip_unicode_ascii : (s : Str) → All (λ c. c < 128) (strip_unicode s)
unfolding strip_unicode
strip_unicode_ascii [] = tt
strip_unicode_ascii (c ∷ s) = ground (arith, strip_unicode_ascii s)

pub strip_unicode_same : (s : Str) → All (λ c. c < 128) s → strip_unicode s ≡ s
unfolding strip_unicode
strip_unicode_same [] h = refl
strip_unicode_same (c ∷ s) h = ground (arith, strip_unicode_same s)
