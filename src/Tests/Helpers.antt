-- ===== src/Tests/Helpers.antt =====
-- The theorems on the helpers at concrete texts, threads and hosts.
use store_cpp.Base.{
  ℕ, suc, pred, arith, ◌≡◌, refl, sym, ap, true, none, some, Str, codes, List, [], ◌∷◌, ◌++◌,
}
use store_cpp.Extensions.Hex.{str_to_hex}
use store_cpp.Common.Sha256.{Digests, compute_sha256_hash}
use store_cpp.Common.Sha256.Laws.{DigestLaws, compute_sha256_hash_lem}
use store_cpp.Common.Sha256.Contexts.{ContextLaws, compute_sha256_hash-live}
use store_cpp.Common.Process.{Processes, output, exec_process, exec_process_lem}
use store_cpp.Common.Worker.{start_many, join, destroy, last_joined, start_many-join}

-- The world is how many contexts there are and what the context was fed; its digest is that text.
abbrev echoing : Digests
echoing = record {
  World = ℕ × Str;
  Context = Unit {0};
  ctx_new = λ w. (some tt, (suc (w.0), w.1));
  digest_init = λ c w. (true, (w.0, []));
  digest_update = λ c s w. (true, (w.0, w.1 ++ s));
  digest_final = λ c w. (some (w.1), w);
  ctx_free = λ c w. (pred (w.0), w.1);
}

abbrev echoing_laws : DigestLaws echoing (λ s. s)
echoing_laws = record {
  Fed = λ c s w. w.1 ≡ s;
  makes = λ w. (tt, (suc (w.0), w.1), refl);
  begins = λ c w. ((w.0, []), refl, refl);
  feeds = λ c x y w e. ((w.0, w.1 ++ y), refl, ap (λ t. t ++ y) e);
  ends = λ c x w e. (w, ap (λ t. (some t, w)) e);
}

compute_sha256_hash_lem_example :
    (w' : ℕ × Str) × (compute_sha256_hash echoing (codes "abc") (0, [])
      ≡ some (str_to_hex (codes "abc"), w'))
compute_sha256_hash_lem_example =
    compute_sha256_hash_lem echoing (λ s. s) echoing_laws (codes "abc") (0, [])

abbrev context_laws : ContextLaws echoing
context_laws = record {
  live = λ w. w.0;
  made = λ w w' c e. ap (λ t. t.1.0) (sym e);
  not_made = λ w w' e. cc;
  kept_init = λ c w. refl;
  kept_update = λ c x w. refl;
  kept_final = λ c w. refl;
  freed = λ c w n e. ap pred e;
}

compute_sha256_hash-live_example :
    (r : Str × (ℕ × Str)) × (compute_sha256_hash echoing (codes "abc") (4, []) ≡ some r)
    × (r.1.0 ≡ 4)
compute_sha256_hash-live_example =
    compute_sha256_hash-live echoing context_laws (codes "abc") (4, [])

-- A command prints itself; the world counts the pipes that were closed.
abbrev repeating : Processes
repeating = record { World = ℕ; popen = λ s w. (some s, w); pclose = λ w. suc w }

exec_process_lem_example :
    exec_process repeating (1 ∷ 10 ∷ 2 ∷ []) 3 ≡ some (output (1 ∷ 10 ∷ 2 ∷ []) 4)
exec_process_lem_example =
    exec_process_lem repeating (1 ∷ 10 ∷ 2 ∷ []) (1 ∷ 10 ∷ 2 ∷ []) 3 refl (omega arith)

abbrev pair : List ℕ
pair = 7 ∷ 8 ∷ []

start_many-join_example :
    (join (start_many pair []) ≡ some (last_joined pair)) × (destroy (last_joined pair) ≡ none)
start_many-join_example = start_many-join pair
