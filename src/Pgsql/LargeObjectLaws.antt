-- ===== src/Pgsql/LargeObjectLaws.antt =====
-- What the loops of `LargeObjectHandler` write and read.
use store_cpp.Base.{
  ℕ, zero, suc, ◌≡◌, ◌≢◌, none, ◌≤◌, ◌<◌, refl, sym, ap, ◌∙◌, true, false, codes, some, Str, [],
  ◌∷◌, ◌++◌, ◌==◌, take, drop, length, arith, append_assoc, append-nil, take-append-drop,
  length-drop, Bool-cases, inl, inr,
}
use store_cpp.Base.Int.{ℤ, pos, ltb_ℤ}
use store_cpp.Pgsql.LargeObject.{
  LoLib, download_open, read_sized, finish_read, finish_download, double_quotes, write_loop,
  read_loop, read_more,
}

-- An open large object is the bytes before its cursor and those behind. A write that succeeds at the
-- end appends; a read that succeeds takes what is there, up to the size asked for; a seek moves the
-- cursor.
pub record LoLaws (L : LoLib) : Type 0 where
  pub before : ℤ → L.World → Str
  pub behind : ℤ → L.World → Str
  pub written :
      (pg : L.Pg) (fd : ℤ) (s : Str) (w : L.World)
      → behind fd w ≡ []
      → (L.write pg fd s w).0 ≡ true
      → (before fd (L.write pg fd s w).1 ≡ before fd w ++ s)
        × (behind fd (L.write pg fd s w).1 ≡ [])
  pub read-piece :
      (pg : L.Pg) (fd : ℤ) (n : ℕ) (w : L.World)
      → (L.read pg fd n w).0 ≢ none
      → (L.read pg fd n w).0 ≡ some (take n (behind fd w))
  pub read-behind :
      (pg : L.Pg) (fd : ℤ) (n : ℕ) (w : L.World)
      → (L.read pg fd n w).0 ≢ none
      → behind fd (L.read pg fd n w).1 ≡ drop n (behind fd w)
  pub seek_start-behind :
      (pg : L.Pg) (fd : ℤ) (w : L.World)
      → behind fd (L.seek_start pg fd w) ≡ before fd w ++ behind fd w
  pub seek_end-before :
      (pg : L.Pg) (fd : ℤ) (w : L.World)
      → before fd (L.seek_end pg fd w) ≡ before fd w ++ behind fd w
  pub seek_end-behind : (pg : L.Pg) (fd : ℤ) (w : L.World) → behind fd (L.seek_end pg fd w) ≡ []

double_quotes-append : (s t : Str) → double_quotes (s ++ t) ≡ double_quotes s ++ double_quotes t
unfolding double_quotes
double_quotes-append [] t = refl
double_quotes-append (c ∷ s) t = elim (Bool-cases (c == 39)) [
  | inl e ↦ rw (e, double_quotes-append s t) refl
  | inr e ↦ rw (e, double_quotes-append s t) refl
]

double_quotes_nil : double_quotes [] ≡ []
unfolding double_quotes
double_quotes_nil = refl

module _ (L : LoLib) (laws : LoLaws L) where
  open laws use {before, behind, written, read-piece, read-behind}

  -- If no write fails, the loop appends the whole text with each quote doubled, whatever the size of
  -- the pieces, and ends by itself: as many rounds as there are bytes are enough.
  pub write_loop-before :
      (size fuel : ℕ) (pg : L.Pg) (fd : ℤ) (text : Str) (w : L.World)
      → ((s : Str) (v : L.World) → (L.write pg fd s v).0 ≡ true)
      → length text ≤ fuel
      → behind fd w ≡ []
      → before fd (write_loop L (suc size) fuel pg fd text w) ≡ before fd w ++ double_quotes text
  unfolding write_loop
  write_loop-before size zero pg fd [] w all le e =
      sym (ap (◌++◌ (before fd w)) double_quotes_nil ∙ append-nil _)
  write_loop-before size zero pg fd (c ∷ s) w all le e = absurd (omega (arith, le))
  write_loop-before size (suc fuel) pg fd [] w all le e =
      sym (ap (◌++◌ (before fd w)) double_quotes_nil ∙ append-nil _)
  write_loop-before size (suc fuel) pg fd (c ∷ s) w all le e =
      let chunk = double_quotes (take (suc size) (c ∷ s)) in
      let rest = drop (suc size) (c ∷ s) in
      let wr = written pg fd chunk w e (all chunk w) in
      rw (all chunk w) (
        write_loop-before size fuel pg fd rest (L.write pg fd chunk w).1 all
          (omega (arith, le, length-drop size s)) (wr.1)
        ∙ ap (λ b. b ++ double_quotes rest) (wr.0)
        ∙ append_assoc (before fd w) chunk (double_quotes rest)
        ∙ ap (◌++◌ (before fd w)) (
            sym (double_quotes-append (take (suc size) (c ∷ s)) rest)
            ∙ ap double_quotes (take-append-drop (suc size) (c ∷ s))))

  -- No read of the large object fails.
  abbrev pub ReadsAll : L.Pg → ℤ → Type 0
  ReadsAll pg fd = (n : ℕ) (v : L.World) → (L.read pg fd n v).0 ≢ none

  read_loop_from :
      (size fuel : ℕ) (pg : L.Pg) (fd : ℤ) (retval b : Str) (w : L.World)
      → ReadsAll pg fd
      → behind fd w ≡ b
      → length b < fuel
      → (v : L.World) × (read_loop L (suc size) fuel pg fd retval w ≡ some (retval ++ b, v))
  unfolding read_loop read_more
  read_loop_from size zero pg fd retval b w all e lt = absurd (omega (arith, lt))
  read_loop_from size (suc fuel) pg fd retval [] w all e lt =
      let piece = read-piece pg fd (suc size) w (all _ w) ∙ ap (λ t. some (take (suc size) t)) e in
      ((L.read pg fd (suc size) w).1, rw piece (ap (λ t. some (t, _)) (sym (append-nil retval))))
  read_loop_from size (suc fuel) pg fd retval (c ∷ s) w all e lt =
      let piece = read-piece pg fd (suc size) w (all _ w) ∙ ap (λ t. some (take (suc size) t)) e in
      let w1 = (L.read pg fd (suc size) w).1 in
      let r =
        read_loop_from size fuel pg fd (retval ++ take (suc size) (c ∷ s)) (drop size s) w1 all
          (read-behind pg fd (suc size) w (all _ w) ∙ ap (drop (suc size)) e)
          (omega (arith, lt, length-drop size s)) in
      (
        r.0,
        rw piece (
            r.1
            ∙ ap (λ t. some (t, r.0))
                (append_assoc retval (take (suc size) (c ∷ s)) (drop size s)
                  ∙ ap (◌++◌ retval) (take-append-drop (suc size) (c ∷ s)))),
      )

  -- If no read fails, the read loop returns what is behind the cursor, all of it, once it has one round more than
  -- there are bytes, whatever the size of the pieces.
  read_loop-behind :
      (size fuel : ℕ) (pg : L.Pg) (fd : ℤ) (retval : Str) (w : L.World)
      → ReadsAll pg fd
      → length (behind fd w) < fuel
      → (v : L.World) × (read_loop L (suc size) fuel pg fd retval w
          ≡ some (retval ++ behind fd w, v))
  read_loop-behind size fuel pg fd retval w all lt =
      read_loop_from size fuel pg fd retval (behind fd w) w all refl lt

  -- Where the large object is open, its size can be told and no read of it fails, `download` returns all its bytes, from
  -- the first to the last wherever the cursor was, once it may take one round more than there are.
  pub download_open_lem :
      (fuel : ℕ) (pg : L.Pg) (fd : ℤ) (w : L.World)
      → ltb_ℤ fd (pos 0) ≡ false
      → ltb_ℤ (L.tell pg fd (L.seek_end pg fd w)) (pos 0) ≡ false
      → ReadsAll pg fd
      → length (before fd w ++ behind fd w) < fuel
      → (v : L.World) × (download_open L fuel pg fd w ≡ some (before fd w ++ behind fd w, v))
  unfolding download_open read_sized finish_read finish_download
  download_open_lem fuel pg fd w opened told reads enough =
      let at_end = L.seek_end pg fd w in
      let start = L.seek_start pg fd at_end in
      let all : behind fd start ≡ before fd w ++ behind fd w =
        laws.seek_start-behind pg fd at_end
        ∙ ap (◌++◌ (before fd at_end)) (laws.seek_end-behind pg fd w)
        ∙ append-nil (before fd at_end)
        ∙ laws.seek_end-before pg fd w in
      let r =
        read_loop_from 32767 fuel pg fd [] (before fd w ++ behind fd w) start reads all enough in
      (
        L.finish pg (L.exec pg (codes "COMMIT") (L.close pg fd (r.0))),
        rw (opened, told) (ap (finish_read L pg fd) (r.1)),
      )
