-- ===== src/Extensions/Format.antt =====
-- `string_format`: `snprintf` with the directives that the program uses, `%s`, `%d` and `%lld`.
use store_cpp.Base.{
  ℕ, ◌≡◌, ◌≢◌, refl, Bool, true, false, List, [], ◌∷◌, ◌++◌, Option, none, some, arith, ◌==◌,
  if◌then◌else◌, Str, decimal, All, codes, ◌+◌,
}
use store_cpp.Base.Int.{ℤ, pos, negsuc}

-- `s.c_str()` as a C function reads it: up to the first NUL byte.
unfoldable pub c_str : Str → Str
c_str [] = []
c_str (c ∷ s) = let rest = c ∷ c_str s in if c == 0 then [] else rest

-- The variadic arguments: `const char*`, and integers.
pub data Arg : Type 0 where
  str : Str → Arg
  int : ℤ → Arg

pub print_int : ℤ → Str
print_int (pos n) = decimal n
print_int (negsuc n) = b'-' ∷ decimal (n + 1)

take_str : List Arg → Option (Str × List Arg)
take_str [] = none
take_str (str s ∷ args) = some (s, args)
take_str (int z ∷ args) = none

take_int : List Arg → Option (Str × List Arg)
unfolding print_int
take_int [] = none
take_int (str s ∷ args) = none
take_int (int z ∷ args) = some (print_int z, args)

abbrev pub put : Str → Option Str → Option Str
put s none = none
put s (some r) = some (s ++ r)

-- The Boolean says that a directive has been opened. A directive without an argument of its type is
-- undefined behaviour, which is `none`; arguments that are left over are ignored.
format_loop : Bool → Str → List Arg → Option Str
unfolding take_str take_int
format_loop false [] args = some []
format_loop false (c ∷ f) args =
    let opened = format_loop true f args in
    let copied = put (c ∷ []) (format_loop false f args) in
    if c == 0 then some [] else if c == b'%' then opened else copied
format_loop true [] args = none
format_loop true (c ∷ f) args =
    let long = format_loop true f args in
    let percent = put (c ∷ []) (format_loop false f args) in
    let text : Option Str = elim (take_str args) [
      | none ↦ none
      | some (s, rest) ↦ put s (format_loop false f rest)
    ] in
    let number : Option Str = elim (take_int args) [
      | none ↦ none
      | some (s, rest) ↦ put s (format_loop false f rest)
    ] in
    if c == b'l'
    then long
    else if c == b's'
    then text
    else if c == b'd'
    then number
    else if c == b'%'
    then percent
    else none

unfoldable pub string_format : Str → List Arg → Option Str
unfolding format_loop
string_format format args = format_loop false format args

-- A format with no `%` is printed as it is, up to its first NUL byte, whatever the arguments.
pub string_format_plain :
    (f : Str) (args : List Arg) → All (λ c. c ≢ b'%') f → string_format f args ≡ some (c_str f)
unfolding string_format c_str
string_format_plain [] args h = refl
string_format_plain (c ∷ f) args (h, hs) = ground (arith, string_format_plain f args hs)

-- No byte of the text is a `%` or a NUL.
abbrev pub IsPlain : Str → Type 0
IsPlain = All (λ c. (c ≢ b'%') × (c ≢ 0))

put-put : (c : ℕ) (f : Str) (r : Option Str) → put (c ∷ []) (put f r) ≡ put (c ∷ f) r
put-put c f none = refl
put-put c f (some r) = refl

put-nil : (r : Option Str) → r ≡ put [] r
put-nil none = refl
put-nil (some r) = refl

-- Text without `%` and NUL in front of a format is printed in front of what the rest prints, and
-- takes none of the arguments.
pub string_format-append :
    (f g : Str) (args : List Arg)
    → IsPlain f
    → string_format (f ++ g) args ≡ put f (string_format g args)
unfolding string_format
string_format-append [] g args h = put-nil (format_loop false g args)
string_format-append (c ∷ f) g args ((p, z), hs) =
    ground (arith, string_format-append f g args hs, put-put c f (format_loop false g args))

-- `%s` prints its argument, and takes it from the arguments.
pub string_format_text :
    (g s : Str) (args : List Arg)
    → string_format (codes "%s" ++ g) (str s ∷ args) ≡ put s (string_format g args)
unfolding string_format codes
string_format_text g s args = refl

print_twice :
    string_format (codes "%s.%d%%") (str (codes "ab") ∷ int (negsuc 11) ∷ [])
    ≡ some (codes "ab.-12%")
unfolding string_format codes decimal print_int
print_twice = refl
