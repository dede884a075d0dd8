-- ===== src/Base/Assoc.antt =====
-- Maps from byte strings (`std::map<std::string, V>`) as association lists; a later entry of one
-- key is never reached, and no operation writes one.
use mathlib.Core.Path.{◌≡◌, refl}
use mathlib.Core.List.{List, [], ◌∷◌}
use mathlib.Core.Option.{Option, none, some}
use native.Mathlib.Omega.{arith}
use store_cpp.Base.Tests.{if◌then◌else◌}
use store_cpp.Base.Text.{Str, seq, seq→eq, seq_refl}

abbrev pub Assoc {ℓ} : Type ℓ → Type ℓ
Assoc V = List (Str × V)

module _ {ℓ} {V : Type ℓ} where
  unfoldable pub lookup : Str → Assoc V → Option V
  lookup k [] = none
  lookup k ((j, v) ∷ m) = if seq j k then some v else lookup k m

  unfoldable pub insert : Str → V → Assoc V → Assoc V
  insert k v [] = (k, v) ∷ []
  insert k v ((j, w) ∷ m) = if seq j k then (k, v) ∷ m else (j, w) ∷ insert k v m

  pub lookup-insert :
      (k j : Str) (v : V) (m : Assoc V)
      → lookup j (insert k v m) ≡ (if seq k j then some v else lookup j m)
  unfolding lookup insert
  lookup-insert k j v [] = refl
  lookup-insert k j v ((i, w) ∷ m) = ground (
    arith,
    lookup-insert k j v m,
    seq→eq i k,
    seq→eq i j,
    seq→eq k j,
    seq_refl i,
    seq_refl k,
    seq_refl j,
  )

  pub lookup-nil : (k : Str) → (let found : Option V = lookup k [] in found) ≡ none
  unfolding lookup
  lookup-nil k = refl
