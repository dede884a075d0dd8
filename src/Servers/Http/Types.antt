-- ===== src/Servers/Http/Types.antt =====
-- The content type of a path (`fileTypes` and `guessFileType` of util.hpp).
use store_cpp.Base.{
  All, ℕ, ◌≡◌, ◌≢◌, refl, Bool, true, false, Option, none, some, Str, codes, [], ◌∷◌, ◌++◌,
  if◌then◌else◌, ◌∙◌, ap, arith, ◌==◌,
}
use store_cpp.Base.Assoc.{Assoc, lookup}

abbrev pub file_types : Assoc Str
file_types =
    (codes "txt", codes "text/plain")
    ∷ (codes "js", codes "application/javascript")
    ∷ (codes "json", codes "application/json")
    ∷ (codes "xml", codes "text/xml")
    ∷ (codes "html", codes "text/html")
    ∷ (codes "htm", codes "text/htm")
    ∷ (codes "css", codes "text/css")
    ∷ (codes "gif", codes "image/gif")
    ∷ (codes "jpg", codes "image/jpeg")
    ∷ (codes "jpeg", codes "image/jpeg")
    ∷ (codes "png", codes "image/png")
    ∷ (codes "svg", codes "image/svg+xml")
    ∷ (codes "pdf", codes "application/pdf")
    ∷ []

-- `.` of the pattern matches no line end.
unfoldable pub plain? : ℕ → Bool
plain? c = if c == 10 then false else if c == 13 then false else true

-- The pattern `.*(\..+)$` is searched from each start; `.*` takes as much as it can, so the group
-- begins at the last dot that has a byte behind it. Behind the group nothing but the end may stand.
unfoldable pub all_plain : Str → Bool
unfolding plain?
all_plain [] = true
all_plain (c ∷ s) = if plain? c then all_plain s else false

-- The text behind the last dot of the line that ends the path, if that text is not empty.
unfoldable pub later : Option Str → ℕ → Str → Option Str
unfolding all_plain
later (some e) c rest = some e
later none c [] = none
later none c (d ∷ rest) =
    if c == 46 then (if all_plain (d ∷ rest) then some (d ∷ rest) else none) else none

unfoldable pub extension : Str → Option Str
unfolding later
extension [] = none
extension (c ∷ rest) = later (extension rest) c rest

unfoldable pub type_of : Option Str → Str
type_of none = codes "application/octet-stream"
type_of (some t) = t

unfoldable pub guess : Option Str → Str
unfolding type_of
guess none = codes "application/octet-stream"
guess (some ext) = type_of (lookup ext file_types)

unfoldable pub guess_file_type : Str → Str
unfolding guess extension
guess_file_type path = guess (extension path)

-- A byte that may stand in an extension: neither a dot nor a line end.
pub data Ordinary (c : ℕ) : Type 0 where
  ordinary : plain? c ≡ true → c ≢ 46 → Ordinary c

Ordinary-all_plain : (s : Str) → All Ordinary s → all_plain s ≡ true
unfolding all_plain
Ordinary-all_plain [] h = refl
Ordinary-all_plain (c ∷ s) (ordinary p d, h) = rw (p, Ordinary-all_plain s h)

later_ordinary : (c : ℕ) (s : Str) → c ≢ 46 → later none c s ≡ none
unfolding later
later_ordinary c [] d = refl
later_ordinary c (x ∷ s) d = ground arith

Ordinary-extension : (s : Str) → All Ordinary s → extension s ≡ none
unfolding extension
Ordinary-extension [] h = refl
Ordinary-extension (c ∷ s) (ordinary p d, h) = rw (Ordinary-extension s h, later_ordinary c s d)

dot-later : (e : ℕ) (s : Str) → All Ordinary (e ∷ s) → later none 46 (e ∷ s) ≡ some (e ∷ s)
unfolding later
dot-later e s h = rw (Ordinary-all_plain (e ∷ s) h)

dot-extension : (e : ℕ) (s : Str) → All Ordinary (e ∷ s) → extension (46 ∷ e ∷ s) ≡ some (e ∷ s)
unfolding extension
dot-extension e s h = ap (λ o. later o 46 (e ∷ s)) (Ordinary-extension (e ∷ s) h) ∙ dot-later e s h

-- The extension of a path is what stands behind its last dot.
extension-append :
    (stem : Str) (e : ℕ) (ext : Str)
    → All Ordinary (e ∷ ext)
    → extension (stem ++ (46 ∷ e ∷ ext)) ≡ some (e ∷ ext)
unfolding extension later
extension-append [] e ext h = dot-extension e ext h
extension-append (c ∷ stem) e ext h = rw (extension-append stem e ext h)

-- A path that ends in a dot and a known extension, of bytes that are neither dots nor line ends,
-- has the type that the table gives for it.
guess_file_type-append :
    (stem : Str) (e : ℕ) (ext type : Str)
    → All Ordinary (e ∷ ext)
    → lookup (e ∷ ext) file_types ≡ some type
    → guess_file_type (stem ++ (46 ∷ e ∷ ext)) ≡ type
unfolding guess_file_type guess type_of
guess_file_type-append stem e ext type h found = rw (extension-append stem e ext h, found)

-- A path without a dot has the type of plain bytes.
pub guess_file_type_none :
    (path : Str) → All Ordinary path → guess_file_type path ≡ codes "application/octet-stream"
unfolding guess_file_type guess
guess_file_type_none path h = rw (Ordinary-extension path h)
