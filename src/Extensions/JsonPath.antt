-- ===== src/Extensions/JsonPath.antt =====
-- `getPathValueFromJson` (store.models/src/extensions.hpp). `j->at(pointer)` with the conversion to a type
-- is a parameter, which is `none` where one of them throws, and so is the parsing of the pointer.
use store_cpp.Base.{◌≡◌, refl, Option, none, some, Bool, true, false, List, [], ◌∷◌, ◌++◌, Str}

-- `path << "/" << e` for each parameter.
unfoldable pub path_of : List Str → Str
path_of [] = []
path_of (e ∷ es) = (b'/' ∷ e) ++ path_of es

-- `R r; try { r = j->at(pt); } catch (...) {} return r;`: `r` keeps what it was declared with.
unfoldable pub assigned : {R : Type 0} → R → Option R → R
assigned r none = r
assigned r (some v) = v

-- The pointer is parsed before the `try` block: `none` is its exception.
unfoldable pub get_path_value :
    {R : Type 0} → (Str → Bool) → (Str → Option R) → R → List Str → Option R
unfolding path_of assigned
get_path_value is_pointer at r params = elim (is_pointer (path_of params)) [
  | true ↦ some (assigned r (at (path_of params)))
  | false ↦ none
]

-- The value at the path, if the path is a pointer.
pub get_path_value-assigned :
    {R : Type 0} (is_pointer : Str → Bool) (at : Str → Option R) (r : R) (params : List Str)
    → is_pointer (path_of params) ≡ true
    → get_path_value is_pointer at r params ≡ some (assigned r (at (path_of params)))
unfolding get_path_value
get_path_value-assigned is_pointer at r params h = rw (h, get_path_value) refl
