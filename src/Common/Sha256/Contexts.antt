-- ===== src/Common/Sha256/Contexts.antt =====
-- The contexts of OpenSSL that a hash makes and frees (store.common/src/sha256.hpp).
use store_cpp.Base.{
  ℕ, zero, suc, ◌+◌, ◌-◌, ◌≤◌, ◌<◌, ◌≡◌, refl, ◌∙◌, arith, Bool, true, false, inl, inr, Option,
  none, some, Str, [], ltb, ltb→lt, length, take, drop, Bool-cases,
}
use store_cpp.Common.Sha256.{
  Digests, piece, next_round, update_loop, finish_hash, after_updates, after_init, with_context,
  compute_sha256_hash,
}
use store_cpp.Common.Sha256.Laws.{piece_pos, update_loop-more, update_loop-done, not_below}

-- How many contexts there are that are not freed; any call may fail.
pub record ContextLaws (E : Digests) : Type 0 where
  pub live : E.World → ℕ
  pub made : (w w' : E.World) (c : E.Context) → E.ctx_new w ≡ (some c, w') → live w' ≡ suc (live w)
  pub not_made : (w w' : E.World) → E.ctx_new w ≡ (none, w') → live w' ≡ live w
  pub kept_init : (c : E.Context) (w : E.World) → live (E.digest_init c w).1 ≡ live w
  pub kept_update :
      (c : E.Context) (x : Str) (w : E.World) → live (E.digest_update c x w).1 ≡ live w
  pub kept_final : (c : E.Context) (w : E.World) → live (E.digest_final c w).1 ≡ live w
  pub freed : (c : E.Context) (w : E.World) (n : ℕ) → live w ≡ suc n → live (E.ctx_free c w) ≡ n

module _ (E : Digests) (L : ContextLaws E) where
  open E use {World, Context}
  open L use {live}

  -- A run that returns leaves so many contexts.
  abbrev Leaves : {A : Type 0} → ℕ → (A → World) → Option A → Type 0
  Leaves {A} n world r = (x : A) × (r ≡ some x) × (live (world x) ≡ n)

  next_round-live :
      (k : World → Option World) (r : Bool × World)
      → ((w : World) → Leaves (live w) (λ u. u) (k w))
      → Leaves (live r.1) (λ u. u) (next_round E k r)
  unfolding next_round
  next_round-live k (false, w) h = (w, refl, refl)
  next_round-live k (true, w) h = h w

  update_loop-live :
      (fuel : ℕ) (c : Context) (s : Str) (n : ℕ) (w : World)
      → length s ≤ n + fuel
      → Leaves (live w) (λ u. u) (update_loop E fuel c s n w)
  update_loop-live zero c s n w h =
      (w, update_loop-done E zero c s n w (not_below n (length s) (omega arith)), refl)
  update_loop-live (suc fuel) c s n w h = elim (Bool-cases (ltb n (length s))) [
    | inl more ↦
        let below : n < length s = ltb→lt n (length s) more in
        let some_more : 0 < piece (length s - n) =
          piece_pos (length s - n) (omega (arith, below)) in
        let (u, e, l) =
          next_round-live (update_loop E fuel c s (n + piece (length s - n)))
            (E.digest_update c (take (piece (length s - n)) (drop n s)) w)
            (λ v.
              update_loop-live fuel c s (n + piece (length s - n)) v
                (omega (arith, h, some_more))) in
        (u, update_loop-more E fuel c s n w more ∙ e, l ∙ L.kept_update c _ w)
    | inr done ↦ (w, update_loop-done E (suc fuel) c s n w done, refl)
  ]

  finish_hash-live :
      (c : Context) (r : Option Str × World) (n : ℕ)
      → live r.1 ≡ suc n
      → live (finish_hash E c r).1 ≡ n
  unfolding finish_hash
  finish_hash-live c (none, w) n h = L.freed c w n h
  finish_hash-live c (some x, w) n h = L.freed c w n h

  after_updates-live :
      (c : Context) (r : Option World) (n : ℕ)
      → Leaves (suc n) (λ u. u) r
      → Leaves n (λ t. t.1) (after_updates E c r)
  unfolding after_updates
  after_updates-live c r n (w, e, h) = (
    finish_hash E c (E.digest_final c w),
    rw e refl,
    finish_hash-live c (E.digest_final c w) n (L.kept_final c w ∙ h),
  )

  after_init-live :
      (c : Context) (s : Str) (r : Bool × World) (n : ℕ)
      → live r.1 ≡ suc n
      → Leaves n (λ t. t.1) (after_init E c s r)
  unfolding after_init
  after_init-live c s (false, w) n h = (([], E.ctx_free c w), refl, L.freed c w n h)
  after_init-live c s (true, w) n h =
      let (w', e, l) = update_loop-live (length s) c s 0 w (omega arith) in
      after_updates-live c _ n (w', e, l ∙ h)

  with_context-live :
      (s : Str) (w : World) (r : Option Context × World)
      → E.ctx_new w ≡ r
      → Leaves (live w) (λ t. t.1) (with_context E s r)
  unfolding with_context
  with_context-live s w (none, w') e = (([], w'), refl, L.not_made w w' e)
  with_context-live s w (some c, w') e =
      after_init-live c s (E.digest_init c w') (live w) (L.kept_init c w' ∙ L.made w w' c e)

  -- Whichever calls of OpenSSL fail, the loop ends, a text is returned, and every context that was
  -- made is freed.
  pub compute_sha256_hash-live :
      (s : Str) (w : World)
      → (r : Str × World) × (compute_sha256_hash E s w ≡ some r) × (live r.1 ≡ live w)
  unfolding compute_sha256_hash
  compute_sha256_hash-live s w = with_context-live s w (E.ctx_new w) refl
