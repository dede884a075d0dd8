-- ===== src/Library/Json.antt =====
-- nlohmann::json, as far as the program uses it. An operation that throws returns `none`.
use store_cpp.Base.{◌≡◌, Bool, true, false, Option, none, some, Str}
use store_cpp.Base.Int.{ℤ, to_int32}
use store_cpp.Base.Assoc.{Assoc, lookup}

pub record JsonLib : Type 1 where
  pub Json : Type 0
  pub null : Json
  pub str : Str → Json
  pub int : ℤ → Json
  pub bool : Bool → Json
  -- `json{ {key, value}, … }`
  pub object : Assoc Json → Json
  -- `j.value(key, default)` at a `std::string`, an `int` and a `json` default
  pub value_str : Json → Str → Str → Option Str
  pub value_int : Json → Str → ℤ → Option ℤ
  pub value_json : Json → Str → Json → Option Json
  -- `j.find(key) != j.end()`, `j[key]` on a constant object, and `j.is_object()`
  pub has : Json → Str → Bool
  pub at : Json → Str → Json
  pub is_object : Json → Bool
  pub is_null : Json → Bool
  -- `j[key]` on a value that may change, `j.get<int64_t>()`, and `json::parse(text)`
  pub index : Json → Str → Option Json
  pub get_int64 : Json → Option ℤ
  pub parse : Str → Option Json

-- `value` of an object literal: the entry, converted to the type of the default (an integer is cast
-- to `int`), an exception where the entry has another type, and the default where there is none.
pub record JsonLaws (J : JsonLib) : Type 0 where
  pub value_str_found :
      (m : Assoc J.Json) (k s d : Str)
      → lookup k m ≡ some (J.str s)
      → J.value_str (J.object m) k d ≡ some s
  pub value_str_missing :
      (m : Assoc J.Json) (k d : Str) → lookup k m ≡ none → J.value_str (J.object m) k d ≡ some d
  pub value_int_found :
      (m : Assoc J.Json) (k : Str) (z d : ℤ)
      → lookup k m ≡ some (J.int z)
      → J.value_int (J.object m) k d ≡ some (to_int32 z)
  pub value_int_text :
      (m : Assoc J.Json) (k s : Str) (d : ℤ)
      → lookup k m ≡ some (J.str s)
      → J.value_int (J.object m) k d ≡ none
  pub value_json_found :
      (m : Assoc J.Json) (k : Str) (j d : J.Json)
      → lookup k m ≡ some j
      → J.value_json (J.object m) k d ≡ some j
  pub has_found :
      (m : Assoc J.Json) (k : Str) (j : J.Json) → lookup k m ≡ some j → J.has (J.object m) k ≡ true
  pub has_missing : (m : Assoc J.Json) (k : Str) → lookup k m ≡ none → J.has (J.object m) k ≡ false
  pub at_found :
      (m : Assoc J.Json) (k : Str) (j : J.Json) → lookup k m ≡ some j → J.at (J.object m) k ≡ j
  pub is_object-object : (m : Assoc J.Json) → J.is_object (J.object m) ≡ true
