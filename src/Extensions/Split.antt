-- ===== src/Extensions/Split.antt =====
-- `split`: `std::getline` over a string stream.
use store_cpp.Base.{
  ℕ, ◌≡◌, ◌≢◌, refl, List, [], ◌∷◌, ◌++◌, arith, ◌==◌, if◌then◌else◌, Str, All, append_assoc,
  append-nil, ap, ◌∙◌, inl, inr, Bool-cases, ==_iff,
}

-- The bytes read so far are a last token, if there are any: `getline` fails at the end of the input
-- when it has read nothing.
last_token : Str → List Str
last_token [] = []
last_token (c ∷ tok) = (c ∷ tok) ∷ []

-- The rounds of `while (getline(iss, tok, delim)) tokens.push_back(tok)`; `tok` is what the current
-- call has read.
getlines : ℕ → Str → Str → List Str
unfolding last_token
getlines delim [] tok = last_token tok
getlines delim (c ∷ s) tok =
    let next = tok ∷ getlines delim s [] in
    let more = getlines delim s (tok ++ c ∷ []) in if c == delim then next else more

unfoldable pub split : Str → ℕ → List Str
unfolding getlines
split s delim = getlines delim s []

-- Every token with the delimiter behind it.
pub terminated : ℕ → List Str → Str
terminated delim [] = []
terminated delim (t ∷ ts) = t ++ (delim ∷ terminated delim ts)

-- The text with a delimiter at its end: one is added unless it is empty or has one there.
pub closed : ℕ → Str → Str
closed delim [] = []
closed delim (c ∷ []) = if c == delim then c ∷ [] else c ∷ delim ∷ []
closed delim (c ∷ d ∷ s) = c ∷ closed delim (d ∷ s)

-- The same from inside a token.
closed_from : ℕ → Str → Str → Str
closed_from delim [] [] = []
closed_from delim (b ∷ tok) [] = (b ∷ tok) ++ delim ∷ []
closed_from delim tok (c ∷ s) = tok ++ closed delim (c ∷ s)

closed_step :
    (delim c : ℕ) (s tok : Str)
    → c ≢ delim
    → closed_from delim (tok ++ c ∷ []) s ≡ tok ++ closed delim (c ∷ s)
unfolding closed_from closed
closed_step delim c [] [] h = ground arith
closed_step delim c [] (b ∷ tok) h = ground (arith, append_assoc tok (c ∷ []) (delim ∷ []))
closed_step delim c (d ∷ s) [] h = refl
closed_step delim c (d ∷ s) (b ∷ tok) h =
    ground (arith, append_assoc tok (c ∷ []) (closed delim (d ∷ s)))

closed_cut :
    (delim : ℕ) (s tok : Str)
    → tok ++ (delim ∷ closed_from delim [] s) ≡ tok ++ closed delim (delim ∷ s)
unfolding closed_from closed
closed_cut delim [] tok = ground arith
closed_cut delim (d ∷ s) tok = refl

terminated-getlines :
    (delim : ℕ) (s tok : Str) → terminated delim (getlines delim s tok) ≡ closed_from delim tok s
unfolding terminated getlines closed_from
terminated-getlines delim [] [] = refl
terminated-getlines delim [] (b ∷ tok) = refl
terminated-getlines delim (c ∷ s) tok = elim (Bool-cases (c == delim)) [
  | inl e ↦ rw e (
      ap (λ r. tok ++ (delim ∷ r)) (terminated-getlines delim s [])
      ∙ rw ((==_iff c delim).0 e) (closed_cut delim s tok))
  | inr e ↦
      rw e (
        terminated-getlines delim s (tok ++ c ∷ []) ∙ closed_step delim c s tok (λ h. ground arith))
]

-- Writing the delimiter behind every token gives the text back, with the delimiter added at its end
-- unless the text is empty or has one there.
terminated-split : (s : Str) (delim : ℕ) → terminated delim (split s delim) ≡ closed delim s
unfolding split closed closed_from
terminated-split [] delim = unfold terminated getlines in refl
terminated-split (c ∷ s) delim = terminated-getlines delim (c ∷ s) []

getlines_token :
    (delim : ℕ) (t rest tok : Str)
    → All (λ c. c ≢ delim) t
    → getlines delim (t ++ (delim ∷ rest)) tok ≡ (tok ++ t) ∷ getlines delim rest []
unfolding getlines
getlines_token delim [] rest tok h = ground (arith, append-nil tok)
getlines_token delim (c ∷ t) rest tok (h, hs) =
    ground (arith, getlines_token delim t rest (tok ++ c ∷ []) hs, append_assoc tok (c ∷ []) t)

-- Tokens that hold no delimiter, written with the delimiter behind each, are read back.
split-terminated :
    (ts : List Str) (delim : ℕ)
    → All (All (λ c. c ≢ delim)) ts
    → split (terminated delim ts) delim ≡ ts
unfolding split terminated
split-terminated [] delim h = refl
split-terminated (t ∷ ts) delim (h, hs) =
    rw (getlines_token delim t _ [] h) (ap (◌∷◌ t) (split-terminated ts delim hs))
