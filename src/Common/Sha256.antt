-- ===== src/Common/Sha256.antt =====
-- `computeSha256Hash` (store.common/src/sha256.hpp). OpenSSL is a parameter: its calls may fail.
pub mod Laws
pub mod Contexts
use store_cpp.Base.{
  ℕ, zero, suc, ◌+◌, ◌-◌, ◌≤◌, ◌<◌, ◌≡◌, refl, ap, ◌∙◌, sym, subst, arith, Bool, true, false, inl,
  inr, Option, none, some, Str, List, [], ◌∷◌, ◌++◌, ltb, ltb→lt, length, take, drop, if◌then◌else◌,
  Bool-cases,
}
use store_cpp.Extensions.Hex.{str_to_hex}

-- The `EVP_` calls on a context: making one, and what returns whether it succeeded.
pub record Digests : Type 1 where
  pub World : Type 0
  pub Context : Type 0
  pub ctx_new : World → Option Context × World
  pub digest_init : Context → World → Bool × World
  pub digest_update : Context → Str → World → Bool × World
  pub digest_final : Context → World → Option Str × World
  pub ctx_free : Context → World → World

abbrev pub buf_size : ℕ
buf_size = 32768

-- `remainder < buf_size ? remainder : buf_size`
unfoldable pub piece : ℕ → ℕ
piece remainder = if ltb remainder buf_size then remainder else buf_size

module _ (E : Digests) where
  open E use {World, Context, ctx_new, digest_init, digest_update, digest_final, ctx_free}

  -- A failing update is a `break`.
  unfoldable pub next_round : (World → Option World) → Bool × World → Option World
  next_round k (false, w) = some w
  next_round k (true, w) = k w

  -- The loop `while (len > len_read)`; `none` means that the fuel ran out.
  unfoldable pub update_loop : ℕ → Context → Str → ℕ → World → Option World
  unfolding piece next_round
  update_loop zero c unhashed len_read w = if ltb len_read (length unhashed) then none else some w
  update_loop (suc fuel) c unhashed len_read w =
      let len_end = piece (length unhashed - len_read) in
      elim (ltb len_read (length unhashed)) [
        | false ↦ some w
        | true ↦
            next_round (update_loop fuel c unhashed (len_read + len_end))
              (digest_update c (take len_end (drop len_read unhashed)) w)
      ]

  -- The print of the hash, two digits for each byte; the context is freed on both branches.
  unfoldable pub finish_hash : Context → Option Str × World → Str × World
  finish_hash c (none, w) = ([], ctx_free c w)
  finish_hash c (some hash, w) = (str_to_hex hash, ctx_free c w)

  unfoldable pub after_updates : Context → Option World → Option (Str × World)
  unfolding finish_hash
  after_updates c none = none
  after_updates c (some w) = some (finish_hash c (digest_final c w))

  unfoldable pub after_init : Context → Str → Bool × World → Option (Str × World)
  unfolding update_loop after_updates
  after_init c unhashed (false, w) = some ([], ctx_free c w)
  after_init c unhashed (true, w) = after_updates c (update_loop (length unhashed) c unhashed 0 w)

  unfoldable pub with_context : Str → Option Context × World → Option (Str × World)
  unfolding after_init
  with_context unhashed (none, w) = some ([], w)
  with_context unhashed (some c, w) = after_init c unhashed (digest_init c w)

  unfoldable pub compute_sha256_hash : Str → World → Option (Str × World)
  unfolding with_context
  compute_sha256_hash unhashed w = with_context unhashed (ctx_new w)
