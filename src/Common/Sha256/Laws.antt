-- ===== src/Common/Sha256/Laws.antt =====
-- The hash of a text that is fed by pieces
-- (store.common/src/sha256.hpp).
use store_cpp.Base.{
  ℕ, zero, suc, ◌+◌, ◌-◌, ◌≤◌, ◌<◌, ◌≡◌, refl, ap, ◌∙◌, sym, subst, arith, true, false, inl, inr,
  some, Str, List, [], ◌∷◌, ◌++◌, ltb, ltb→lt, ltb→ge, length, take, drop, Bool-cases,
}
use store_cpp.Extensions.Hex.{str_to_hex}
use store_cpp.Common.Sha256.{
  Digests, piece, next_round, update_loop, finish_hash, after_updates, after_init, with_context,
  compute_sha256_hash,
}

take_nil {ℓ} : {A : Type ℓ} (n : ℕ) → take {A = A} n [] ≡ []
take_nil zero = refl
take_nil (suc n) = refl

take-add {ℓ} :
    {A : Type ℓ} (a b : ℕ) (xs : List A) → take (a + b) xs ≡ take a xs ++ take b (drop a xs)
take-add zero b xs = let e : 0 + b ≡ b = omega arith in ap (λ k. take k xs) e
take-add (suc a) b [] = take_nil (suc a + b) ∙ sym (take_nil b)
take-add (suc a) b (x ∷ xs) =
    let e : suc a + b ≡ suc (a + b) = omega arith in
    ap (λ k. take k (x ∷ xs)) e ∙ ap (◌∷◌ x) (take-add a b xs)

take_all {ℓ} : {A : Type ℓ} (n : ℕ) (xs : List A) → length xs ≤ n → take n xs ≡ xs
take_all n [] h = take_nil n
take_all zero (x ∷ xs) h = absurd (omega arith)
take_all (suc n) (x ∷ xs) h = ap (◌∷◌ x) (take_all n xs (omega arith))

pub piece_pos : (n : ℕ) → 0 < n → 0 < piece n
unfolding piece
piece_pos n h = ground arith

piece-le : (n : ℕ) → piece n ≤ n
unfolding piece
piece-le n = ground arith

-- Documented behaviour where nothing fails: a context holds what it was fed since it was begun, and
-- its digest is the hash of that.
pub record DigestLaws (E : Digests) (sha256 : Str → Str) : Type 1 where
  pub Fed : E.Context → Str → E.World → Type 0
  pub makes : (w : E.World) → (c : E.Context) × (w' : E.World) × (E.ctx_new w ≡ (some c, w'))
  pub begins :
      (c : E.Context) (w : E.World)
      → (w' : E.World) × (E.digest_init c w ≡ (true, w')) × Fed c [] w'
  pub feeds :
      (c : E.Context) (x y : Str) (w : E.World)
      → Fed c x w
      → (w' : E.World) × (E.digest_update c y w ≡ (true, w')) × Fed c (x ++ y) w'
  pub ends :
      (c : E.Context) (x : Str) (w : E.World)
      → Fed c x w
      → (w' : E.World) × (E.digest_final c w ≡ (some (sha256 x), w'))

pub not_below : (a b : ℕ) → b ≤ a → ltb a b ≡ false
not_below a b h = ground arith

module _ (E : Digests) where
  -- One more round, and the end.
  pub update_loop-more :
      (fuel : ℕ) (c : E.Context) (s : Str) (n : ℕ) (w : E.World)
      → ltb n (length s) ≡ true
      → update_loop E (suc fuel) c s n w
        ≡ next_round E
            (update_loop E fuel c s (n + piece (length s - n)))
            (E.digest_update c (take (piece (length s - n)) (drop n s)) w)
  unfolding update_loop
  update_loop-more fuel c s n w e = rw (e, update_loop) refl

  pub update_loop-done :
      (fuel : ℕ) (c : E.Context) (s : Str) (n : ℕ) (w : E.World)
      → ltb n (length s) ≡ false
      → update_loop E fuel c s n w ≡ some w
  unfolding update_loop
  update_loop-done zero c s n w e = rw (e, update_loop) refl
  update_loop-done (suc fuel) c s n w e = rw (e, update_loop) refl

module _ (E : Digests) (sha256 : Str → Str) (L : DigestLaws E sha256) where
  open E use {World, Context}

  update_loop-Fed :
      (fuel : ℕ) (c : Context) (s : Str) (n : ℕ) (w : World)
      → n ≤ length s
      → length s ≤ n + fuel
      → L.Fed c (take n s) w
      → (w' : World) × (update_loop E fuel c s n w ≡ some w') × L.Fed c s w'
  unfolding next_round
  update_loop-Fed zero c s n w h k f = elim (Bool-cases (ltb n (length s))) [
    | inl more ↦ absurd (omega (arith, ltb→lt n (length s) more))
    | inr done ↦ (
      w,
      update_loop-done E zero c s n w done,
      subst (λ t. L.Fed c t w) (take_all n s (omega arith)) f,
    )
  ]
  update_loop-Fed (suc fuel) c s n w h k f = elim (Bool-cases (ltb n (length s))) [
    | inl more ↦
        let m = piece (length s - n) in
        let below : n < length s = ltb→lt n (length s) more in
        let (w', fed, f') = L.feeds c (take n s) (take m (drop n s)) w f in
        let le : m ≤ length s - n = piece-le (length s - n) in
        let some_more : 0 < m = piece_pos (length s - n) (omega (arith, below)) in
        let (w'', e, f'') =
          update_loop-Fed fuel c s (n + m) w' (omega (arith, below, le)) (omega (arith, some_more))
            (subst (λ t. L.Fed c t w') (sym (take-add n m s)) f') in
        (
          w'',
          update_loop-more E fuel c s n w more
              ∙ ap (next_round E (update_loop E fuel c s (n + m))) fed
              ∙ e,
          f'',
        )
    | inr done ↦ (
      w,
      update_loop-done E (suc fuel) c s n w done,
      subst (λ t. L.Fed c t w) (take_all n s (ltb→ge n (length s) done)) f,
    )
  ]

  -- By the laws of OpenSSL: the hash that is fed by pieces is returned, and it is the print of the
  -- hash of the whole text.
  pub compute_sha256_hash_lem :
      (s : Str) (w : World)
      → (w' : World) × (compute_sha256_hash E s w ≡ some (str_to_hex (sha256 s), w'))
  unfolding compute_sha256_hash with_context after_init after_updates finish_hash
  compute_sha256_hash_lem s w =
      let (c, w1, made) = L.makes w in
      let (w2, begun, f) = L.begins c w1 in
      let (w3, fed, f') = update_loop-Fed (length s) c s 0 w2 (omega arith) (omega arith) f in
      let (w4, ended) = L.ends c s w3 f' in (E.ctx_free c w4, rw (made, begun, fed, ended) refl)
