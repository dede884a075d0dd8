-- ===== src/Extensions/Replace.antt =====
-- `string_replace` (extensions.hpp): each place where a text stands gets another text.
use store_cpp.Base.{
  ℕ, zero, suc, ◌≡◌, ◌≢◌, ◌<◌, refl, sym, ap, ◌∙◌, subst, Bool, true, false, Option, none, some,
  some_injective, Str, List, [], ◌∷◌, ◌++◌, if◌then◌else◌, ◌==◌, ◌&&◌, length, drop, All, arith,
  append_assoc, append-nil, length-append, Bool-cases, inl, inr,
}
use store_cpp.Extensions.Join.{intercalate, tail_pieces}

unfoldable pub starts : Str → Str → Bool
starts [] s = true
starts (c ∷ p) [] = false
starts (c ∷ p) (d ∷ s) = c == d && starts p s

cons_found : ℕ → Option (Str × Str) → Option (Str × Str)
cons_found c none = none
cons_found c (some (pre, post)) = some (c ∷ pre, post)

-- `str.find(from, start_pos)` on what stands from `start_pos` on, for a `from` that is not empty:
-- what is in front of the place found, and what is behind it.
unfoldable pub find : Str → Str → Option (Str × Str)
unfolding starts cons_found
find from [] = none
find from (c ∷ s) =
    if starts from (c ∷ s)
    then some ([], drop (length from) (c ∷ s))
    else cons_found c (find from s)

replace_found : (Str → Str → Str) → Str → Str → Str → Option (Str × Str) → Str
replace_found again to front rest none = front ++ rest
replace_found again to front rest (some (pre, post)) = again (front ++ (pre ++ to)) post

-- The loop: `front` is the text up to `start_pos`, which ends behind the text put in.
unfoldable pub replace_loop : ℕ → Str → Str → Str → Str → Str
unfolding find replace_found
replace_loop zero from to front rest = front ++ rest
replace_loop (suc fuel) from to front rest =
    replace_found (replace_loop fuel from to) to front rest (find from rest)

-- Each round shortens what is left, so as many rounds as there are bytes are enough.
unfoldable pub string_replace : Str → Str → Str → Str
unfolding replace_loop
string_replace str [] to = str
string_replace str (c ∷ from) to = replace_loop (suc (length str)) (c ∷ from) to [] str

-- The text does not stand anywhere in the piece.
abbrev pub Lacks : Str → Str → Type 0
Lacks from s = find from s ≡ none

-- Pieces that lack `from` give the text with `from` between them, and the result with `to`.
pub record Replaced (from to str result : Str) : Type 0 where
  pub pieces : List Str
  pub source : str ≡ intercalate from pieces
  pub target : result ≡ intercalate to pieces
  pub lacking : All (Lacks from) pieces

starts-drop : (p s : Str) → starts p s ≡ true → s ≡ p ++ drop (length p) s
unfolding starts
starts-drop [] s h = refl
starts-drop (c ∷ p) [] h = ground arith
starts-drop (c ∷ p) (d ∷ s) h = ground (arith, starts-drop p s)

starts-append : (p s t : Str) → starts p s ≡ true → starts p (s ++ t) ≡ true
unfolding starts
starts-append [] s t h = refl
starts-append (c ∷ p) [] t h = ground arith
starts-append (c ∷ p) (d ∷ s) t h = ground (arith, starts-append p s t)

-- What `find` returns.
record Found (from s pre post : Str) : Type 0 where
  parts : s ≡ pre ++ (from ++ post)
  clean : Lacks from pre

-- A text that does not begin a longer text does not begin its front either.
starts-front : (p s t : Str) → starts p (s ++ t) ≡ false → starts p s ≡ false
starts-front p s t h = elim (Bool-cases (starts p s)) [
  | inl e ↦ absurd (ground (arith, h, starts-append p s t e))
  | inr e ↦ e
]

Found-cons :
    (from s pre post : Str) (d : ℕ)
    → from ≢ []
    → starts from (d ∷ s) ≡ false
    → Found from s pre post
    → Found from (d ∷ s) (d ∷ pre) post
unfolding find cons_found
Found-cons from s pre post d ne h f =
    let parts : d ∷ s ≡ (d ∷ pre) ++ (from ++ post) = ap (◌∷◌ d) f.parts in
    let front =
      starts-front from (d ∷ pre) (from ++ post) (subst (λ t. starts from t ≡ false) parts h) in
    record { parts = parts; clean = rw (front, f.clean) refl }

cons_found-Found :
    (from s pre post : Str) (d : ℕ) (r : Option (Str × Str))
    → from ≢ []
    → ((a z : Str) → r ≡ some (a, z) → Found from s a z)
    → starts from (d ∷ s) ≡ false
    → cons_found d r ≡ some (pre, post)
    → Found from (d ∷ s) pre post
unfolding cons_found
cons_found-Found from s pre post d none ne f b = λ h. cc
cons_found-Found from s pre post d (some (a, z)) ne f b = λ h.
    subst (λ (q : Str × Str). Found from (d ∷ s) q.0 q.1) (some_injective h)
      (Found-cons from s a z d ne b (f a z refl))

find-Found :
    (c : ℕ) (p s pre post : Str) → find (c ∷ p) s ≡ some (pre, post) → Found (c ∷ p) s pre post
unfolding find
find-Found c p [] pre post = λ h. cc
find-Found c p (d ∷ s) pre post = elim (Bool-cases (starts (c ∷ p) (d ∷ s))) [
  | inl e ↦ rw e (λ h.
      subst (λ (q : Str × Str). Found (c ∷ p) (d ∷ s) q.0 q.1) (some_injective h)
        (record { parts = starts-drop (c ∷ p) (d ∷ s) e; clean = refl }))
  | inr e ↦ rw e (
      cons_found-Found (c ∷ p) s pre post d (find (c ∷ p) s) (λ x. cc)
        (λ a z h. find-Found c p s a z h) e)
]

-- The pieces of what is left, at least one, and the result behind `front`.
record Looped (from to front rest result : Str) : Type 0 where
  piece : Str
  pieces : List Str
  source : rest ≡ intercalate from (piece ∷ pieces)
  target : result ≡ front ++ intercalate to (piece ∷ pieces)
  lacking : Lacks from piece × All (Lacks from) pieces

shorter :
    (c : ℕ) (p pre post : Str) (n : ℕ) → length (pre ++ ((c ∷ p) ++ post)) < suc n → length post < n
shorter c p pre post n h =
    omega (arith, h, length-append pre ((c ∷ p) ++ post), length-append p post)

replace_loop-Looped :
    (fuel c : ℕ) (p to front rest : Str)
    → length rest < fuel
    → Looped (c ∷ p) to front rest (replace_loop fuel (c ∷ p) to front rest)
unfolding replace_loop replace_found intercalate tail_pieces
replace_loop-Looped zero c p to front rest h = absurd (omega (arith, h))
replace_loop-Looped (suc fuel) c p to front rest h = round (find (c ∷ p) rest) refl (λ pre post e.
    replace_loop-Looped fuel c p to (front ++ (pre ++ to)) post (
      shorter c p pre post fuel
        (subst (λ r. length r < suc fuel) (find-Found c p rest pre post e).parts h)))
  where
    round :
        (r : Option (Str × Str))
        → find (c ∷ p) rest ≡ r
        → ((pre post : Str)
            → find (c ∷ p) rest ≡ some (pre, post)
            → Looped
                (c ∷ p)
                to
                (front ++ (pre ++ to))
                post
                (replace_loop fuel (c ∷ p) to (front ++ (pre ++ to)) post))
        → Looped
            (c ∷ p)
            to
            front
            rest
            (replace_found (replace_loop fuel (c ∷ p) to) to front rest r)
    round none e again = record {
      piece = rest;
      pieces = [];
      source = sym (append-nil rest);
      target = ap (◌++◌ front) (sym (append-nil rest));
      lacking = (e, tt);
    }
    round (some (pre, post)) e again =
        let f = find-Found c p rest pre post e in
        let l = again pre post e in
        record {
          piece = pre;
          pieces = l.piece ∷ l.pieces;
          source = f.parts ∙ ap (λ t. pre ++ ((c ∷ p) ++ t)) l.source;
          target =
              l.target ∙ append_assoc front (pre ++ to) _ ∙ ap (◌++◌ front) (append_assoc pre to _);
          lacking = (f.clean, l.lacking);
        }

-- `string_replace` of a text that is not empty cuts the string at the places where the text stands,
-- into pieces that lack it, and puts the other text in each of these places and nowhere else.
string_replace-Replaced :
    (str from to : Str) → from ≢ [] → Replaced from to str (string_replace str from to)
unfolding string_replace
string_replace-Replaced str [] to ne = absurd (ne refl)
string_replace-Replaced str (c ∷ from) to ne =
    let l = replace_loop-Looped (suc (length str)) c from to [] str (omega arith) in
    record {
      pieces = l.piece ∷ l.pieces;
      source = l.source;
      target = l.target;
      lacking = l.lacking;
    }
