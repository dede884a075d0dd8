-- ===== src/Extensions/Join.antt =====
-- `join` and `wrapString`.
use store_cpp.Base.{
  ℕ, ◌≡◌, ◌≢◌, refl, Bool, true, false, List, [], ◌∷◌, ◌++◌, map, append_assoc, append-nil,
  if◌then◌else◌, Str, All,
}

is_empty : Str → Bool
is_empty [] = true
is_empty (c ∷ s) = false

-- One round of the loop: the separator is written only if something stands before it.
add : Str → Str → Str → Str
unfolding is_empty
add t result s = (if is_empty result then result else result ++ t) ++ s

join_loop : Str → List Str → Str → Str
unfolding add
join_loop t [] result = result
join_loop t (s ∷ ss) result = join_loop t ss (add t result s)

unfoldable pub join : List Str → Str → Str
unfolding join_loop
join ss t = join_loop t ss []

unfoldable pub wrap_string : Str → Str → Str
wrap_string s ch = (ch ++ s) ++ ch

-- Every later piece behind a separator.
unfoldable pub tail_pieces : Str → List Str → Str
tail_pieces t [] = []
tail_pieces t (s ∷ ss) = t ++ (s ++ tail_pieces t ss)

-- The pieces with the separator between any two.
unfoldable pub intercalate : Str → List Str → Str
unfolding tail_pieces
intercalate t [] = []
intercalate t (s ∷ ss) = s ++ tail_pieces t ss

unfoldable pub drop_empty : List Str → List Str
drop_empty [] = []
drop_empty ([] ∷ ss) = drop_empty ss
drop_empty ((c ∷ s) ∷ ss) = (c ∷ s) ∷ ss

join_loop-tail :
    (t : Str) (ss : List Str) (c : ℕ) (r : Str)
    → join_loop t ss (c ∷ r) ≡ c ∷ (r ++ tail_pieces t ss)
unfolding join_loop tail_pieces
join_loop-tail t [] c r = rw append-nil
join_loop-tail t (s ∷ ss) c r = simp (join_loop-tail t ss, append_assoc)

join_loop-drop_empty : (t : Str) (ss : List Str) → join_loop t ss [] ≡ intercalate t (drop_empty ss)
unfolding join_loop intercalate drop_empty
join_loop-drop_empty t [] = refl
join_loop-drop_empty t ([] ∷ ss) = join_loop-drop_empty t ss
join_loop-drop_empty t ((c ∷ s) ∷ ss) = join_loop-tail t ss c s

-- `join` writes the separator between any two pieces, after it has left out the empty pieces at the
-- front (later empty pieces are kept).
join-intercalate : (ss : List Str) (t : Str) → join ss t ≡ intercalate t (drop_empty ss)
unfolding join
join-intercalate ss t = join_loop-drop_empty t ss

drop_empty_full : (ss : List Str) → All (λ s. s ≢ []) ss → drop_empty ss ≡ ss
unfolding drop_empty
drop_empty_full [] h = refl
drop_empty_full ([] ∷ ss) (h, _) = absurd (h refl)
drop_empty_full ((c ∷ s) ∷ ss) h = refl

-- With no empty piece, `join` is the plain join.
pub join_full : (ss : List Str) (t : Str) → All (λ s. s ≢ []) ss → join ss t ≡ intercalate t ss
join_full ss t h = rw (join-intercalate ss t, drop_empty_full ss h)

wrap_string-ne-nil : (s ch : Str) → ch ≢ [] → wrap_string s ch ≢ []
unfolding wrap_string
wrap_string-ne-nil s [] h = absurd (h refl)
wrap_string-ne-nil s (c ∷ ch) h = λ e. cc

All-wrap_string :
    (ch : Str) (ss : List Str) → ch ≢ [] → All (λ s. s ≢ []) (map (λ s. wrap_string s ch) ss)
All-wrap_string ch [] h = tt
All-wrap_string ch (s ∷ ss) h = (wrap_string-ne-nil s ch h, All-wrap_string ch ss h)

-- Values that are quoted by a text that is not empty are joined with no value lost, also where a
-- value is empty.
join-wrap_string :
    (ch : Str) (ss : List Str) (t : Str)
    → ch ≢ []
    → join (map (λ s. wrap_string s ch) ss) t ≡ intercalate t (map (λ s. wrap_string s ch) ss)
join-wrap_string ch ss t h = join_full _ t (All-wrap_string ch ss h)
