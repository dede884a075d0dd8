-- ===== src/Extensions/Hex.antt =====
-- `str_to_hex` and `base64_to_hex`. The base64 decoder is a copy of Boost.Beast's and a parameter.
use store_cpp.Base.{
  ℕ, ◌+◌, ◌-◌, ◌*◌, ◌/◌, ◌%◌, ◌<◌, ◌≡◌, refl, [], ◌∷◌, ◌++◌, arith, ltb, if◌then◌else◌, Str, All,
  length, ap₂,
}
use store_cpp.Extensions.Case.{to_upper, upper_case}

hex_digit : ℕ → ℕ
hex_digit d = if ltb d 10 then b'0' + d else b'a' + (d - 10)

-- `hex << setw(2) << setfill('0') << (c & 0xff)`
hex_byte : ℕ → Str
unfolding hex_digit
hex_byte c = hex_digit (c % 256 / 16) ∷ hex_digit (c % 16) ∷ []

unfoldable pub str_to_hex : Str → Str
unfolding hex_byte
str_to_hex [] = []
str_to_hex (c ∷ s) = hex_byte c ++ str_to_hex s

unfoldable pub base64_to_hex : (Str → Str) → Str → Str
base64_to_hex base64_decode k = upper_case (str_to_hex (base64_decode k))

-- A reader of hexadecimal text in either case, to state that the print loses nothing.
digit_value : ℕ → ℕ
digit_value h = if ltb h b'A' then h - b'0' else if ltb h b'a' then h - b'A' + 10 else h - b'a' + 10

pub unhex : Str → Str
unfolding digit_value
unhex [] = []
unhex (h ∷ []) = []
unhex (h ∷ l ∷ s) = (digit_value h * 16 + digit_value l) ∷ unhex s

digit_value-hex_digit : (d : ℕ) → d < 16 → digit_value (hex_digit d) ≡ d
unfolding digit_value hex_digit
digit_value-hex_digit d h = ground arith

-- Two hexadecimal digits for each byte.
length-str_to_hex : (s : Str) → length (str_to_hex s) ≡ 2 * length s
unfolding str_to_hex
length-str_to_hex [] = refl
length-str_to_hex (c ∷ s) = omega (arith, length-str_to_hex s)

digit_value-to_upper : (d : ℕ) → d < 16 → digit_value (to_upper (hex_digit d)) ≡ d
unfolding digit_value hex_digit to_upper
digit_value-to_upper d h = ground arith

two_digits : (c : ℕ) → c < 256 → c % 256 / 16 * 16 + c % 16 ≡ c
two_digits c h = omega arith

-- The bytes are read back from their hexadecimal print.
unhex-str_to_hex : (s : Str) → All (λ c. c < 256) s → unhex (str_to_hex s) ≡ s
unfolding str_to_hex unhex
unhex-str_to_hex [] h = refl
unhex-str_to_hex (c ∷ s) (h, hs) =
    rw
      (
        digit_value-hex_digit (c % 256 / 16) (omega arith),
        digit_value-hex_digit (c % 16) (omega arith),
      )
      (ap₂ ◌∷◌ (two_digits c h) (unhex-str_to_hex s hs))

unhex-upper_case : (s : Str) → All (λ c. c < 256) s → unhex (upper_case (str_to_hex s)) ≡ s
unfolding str_to_hex unhex upper_case
unhex-upper_case [] h = refl
unhex-upper_case (c ∷ s) (h, hs) =
    rw
      (
        digit_value-to_upper (c % 256 / 16) (omega arith),
        digit_value-to_upper (c % 16) (omega arith),
      )
      (ap₂ ◌∷◌ (two_digits c h) (unhex-upper_case s hs))

-- The hexadecimal text that `base64_to_hex` returns holds the decoded bytes, whatever the decoder,
-- if it returns bytes.
unhex-base64_to_hex :
    (base64_decode : Str → Str) (k : Str)
    → All (λ c. c < 256) (base64_decode k)
    → unhex (base64_to_hex base64_decode k) ≡ base64_decode k
unfolding base64_to_hex
unhex-base64_to_hex base64_decode k h = unhex-upper_case (base64_decode k) h
