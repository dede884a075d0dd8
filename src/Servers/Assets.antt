-- ===== src/Servers/Assets.antt =====
-- `getRequestBody` and `fetchAsset` (store.servers/src/util.hpp): the body of a request, and a file as a
-- reply. Files and libevent are parameters.
use store_cpp.Base.{ℕ, suc, ◌≡◌, Option, none, some, Str, codes, [], ◌∷◌}
use store_cpp.Extensions.Format.{c_str}
use store_cpp.Servers.Http.{EvHttp, EvHttpLaws}
use store_cpp.Servers.Http.Types.{guess_file_type}

-- What the functions call beside `EvHttp`; `none` is a negative result.
pub record Assets (H : EvHttp) : Type 1 where
  pub Fd : Type 0
  pub Buffer : Type 0
  -- The bytes in the request's input buffer.
  pub input : H.Request → H.World → Str
  pub open_file : Str → H.World → Option Fd × H.World
  pub file_size : Fd → H.World → Option ℕ × H.World
  pub close_file : Fd → H.World → H.World
  pub evbuffer_new : H.World → Buffer × H.World
  pub add_file : Buffer → Fd → ℕ → H.World → H.World
  pub send_buffer : H.Request → ℕ → Str → Buffer → H.World → H.World
  pub evbuffer_free : Buffer → H.World → H.World

module _ (H : EvHttp) (A : Assets H) where
  open H use {World, Request, add_header, send_error}
  open A use {
    Fd, input, open_file, file_size, close_file, evbuffer_new, add_file, send_buffer, evbuffer_free,
  }

  -- The copy is read as a C string.
  unfoldable pub body_of : Request → Str → World → Str × World
  body_of req [] w = ([], send_error req 400 (some (codes "Bad Request")) w)
  body_of req (c ∷ s) w = (c_str (c ∷ s), w)

  unfoldable pub get_request_body : Request → World → Str × World
  unfolding body_of
  get_request_body req w = body_of req (input req w) w

  unfoldable pub send_file : Request → Str → Fd → Option ℕ × World → World
  send_file req path fd (none, w) = close_file fd (send_error req 404 (some (codes "Not Found")) w)
  send_file req path fd (some size, w) =
      let (resp, w1) = evbuffer_new w in
      let w2 = add_header req (codes "Content-Type") (c_str (guess_file_type path)) w1 in
      let w3 = add_file resp fd size w2 in
      evbuffer_free resp (send_buffer req 200 (codes "OK") resp w3)

  unfoldable pub with_file : Request → Str → Option Fd × World → World
  unfolding send_file
  with_file req path (none, w) = send_error req 404 (some (codes "Not Found")) w
  with_file req path (some fd, w) = send_file req path fd (file_size fd w)

  unfoldable pub fetch_asset : Request → Str → World → World
  unfolding with_file
  fetch_asset req path w = with_file req path (open_file (c_str path) w)

-- How many replies were sent, and how many files and buffers the program has to close or free: a
-- buffer that a file is added to closes it.
pub record AssetLaws (H : EvHttp) (A : Assets H) (L : EvHttpLaws H) : Type 0 where
  pub owned : H.World → ℕ
  pub owned-add_header :
      (q : H.Request) (k v : Str) (w : H.World) → owned (H.add_header q k v w) ≡ owned w
  pub owned-send_error :
      (q : H.Request) (n : ℕ) (r : Option Str) (w : H.World)
      → owned (H.send_error q n r w) ≡ owned w
  pub opened :
      (p : Str) (w w' : H.World) (fd : A.Fd)
      → A.open_file p w ≡ (some fd, w')
      → (owned w' ≡ suc (owned w)) × (L.sent w' ≡ L.sent w)
  pub not_opened :
      (p : Str) (w w' : H.World)
      → A.open_file p w ≡ (none, w')
      → (owned w' ≡ owned w) × (L.sent w' ≡ L.sent w)
  pub sized :
      (fd : A.Fd) (w : H.World)
      → (owned (A.file_size fd w).1 ≡ owned w) × (L.sent (A.file_size fd w).1 ≡ L.sent w)
  pub closed :
      (fd : A.Fd) (w : H.World) (n : ℕ)
      → owned w ≡ suc n
      → (owned (A.close_file fd w) ≡ n) × (L.sent (A.close_file fd w) ≡ L.sent w)
  pub made :
      (w : H.World)
      → (owned (A.evbuffer_new w).1 ≡ suc (owned w)) × (L.sent (A.evbuffer_new w).1 ≡ L.sent w)
  pub added :
      (b : A.Buffer) (fd : A.Fd) (size : ℕ) (w : H.World) (n : ℕ)
      → owned w ≡ suc n
      → (owned (A.add_file b fd size w) ≡ n) × (L.sent (A.add_file b fd size w) ≡ L.sent w)
  pub replied :
      (q : H.Request) (n : ℕ) (r : Str) (b : A.Buffer) (w : H.World)
      → (owned (A.send_buffer q n r b w) ≡ owned w)
        × (L.sent (A.send_buffer q n r b w) ≡ suc (L.sent w))
  pub freed :
      (b : A.Buffer) (w : H.World) (n : ℕ)
      → owned w ≡ suc n
      → (owned (A.evbuffer_free b w) ≡ n) × (L.sent (A.evbuffer_free b w) ≡ L.sent w)

module _ (H : EvHttp) (A : Assets H) (L : EvHttpLaws H) (K : AssetLaws H A L) where
  open H use {World, Request}
  open A use {Fd}
  open L use {sent}
  open K use {owned}

  -- One reply, and nothing of the program's own left over.
  abbrev Answered : ℕ → ℕ → World → Type 0
  Answered n s w = (owned w ≡ n) × (sent w ≡ suc s)
