-- ===== src/Tests/Plain.antt =====
-- A JSON library that keeps its values as they are, and one for tokens.
use store_cpp.Base.{
  ◌≡◌, refl, ◌∙◌, ap, Bool, true, false, Option, none, some, Str, codes, seq, [], ◌∷◌, length,
  if◌then◌else◌,
}
use store_cpp.Base.Int.{ℤ, pos, to_int32}
use store_cpp.Base.Assoc.{Assoc, lookup}
use store_cpp.Library.Json.{JsonLib, JsonLaws}
use store_cpp.Library.Database.{ok, err}
use store_cpp.WebToken.{JwtLib, verification_error}

mutual
  pub data Value : Type 0 where
    null_value : Value
    text_value : Str → Value
    number_value : ℤ → Value
    truth_value : Bool → Value
    object_value : Fields → Value

  pub data Fields : Type 0 where
    no_fields : Fields
    field_then : Str → Value → Fields → Fields

abbrev fields_of : Assoc Value → Fields
fields_of [] = no_fields
fields_of ((k, v) ∷ m) = field_then k v (fields_of m)

abbrev find_field : Str → Fields → Option Value
find_field k no_fields = none
find_field k (field_then j v m) = if seq j k then some v else find_field k m

find-fields_of : (k : Str) (m : Assoc Value) → find_field k (fields_of m) ≡ lookup k m
unfolding lookup
find-fields_of k [] = refl
find-fields_of k ((j, v) ∷ m) = ap (λ o. if seq j k then some v else o) (find-fields_of k m)

abbrev find : Value → Str → Option Value
find (object_value m) k = find_field k m
find _ k = none

abbrev as_text : Str → Option Value → Option Str
as_text d none = some d
as_text d (some (text_value s)) = some s
as_text d (some _) = none

abbrev as_int : ℤ → Option Value → Option ℤ
as_int d none = some d
as_int d (some (number_value z)) = some (to_int32 z)
as_int d (some _) = none

abbrev or_else : Value → Option Value → Value
or_else d none = d
or_else d (some v) = v

abbrev found : Option Value → Bool
found none = false
found (some v) = true

abbrev object? : Value → Bool
object? (object_value m) = true
object? _ = false

abbrev null? : Value → Bool
null? null_value = true
null? _ = false

abbrev number : Value → Option ℤ
number (number_value z) = some z
number _ = none

-- `parse` reads every text as an object that expires at the text's length.
abbrev pub plain_json : JsonLib
plain_json = record {
  Json = Value;
  null = null_value;
  str = text_value;
  int = number_value;
  bool = truth_value;
  object = λ m. object_value (fields_of m);
  value_str = λ j k d. as_text d (find j k);
  value_int = λ j k d. as_int d (find j k);
  value_json = λ j k d. some (or_else d (find j k));
  has = λ j k. found (find j k);
  at = λ j k. or_else null_value (find j k);
  is_object = object?;
  is_null = null?;
  index = λ j k. some (or_else null_value (find j k));
  get_int64 = number;
  parse =
      λ s. some (object_value (field_then (codes "exp") (number_value (pos (length s))) no_fields));
}

pub plain_json_laws : JsonLaws plain_json
plain_json_laws = record {
  value_str_found = λ m k s d e. ap (as_text d) (find-fields_of k m ∙ e);
  value_str_missing = λ m k d e. ap (as_text d) (find-fields_of k m ∙ e);
  value_int_found = λ m k z d e. ap (as_int d) (find-fields_of k m ∙ e);
  value_int_text = λ m k s d e. ap (as_int d) (find-fields_of k m ∙ e);
  value_json_found = λ m k j d e. ap (λ o. some (or_else d o)) (find-fields_of k m ∙ e);
  has_found = λ m k j e. ap found (find-fields_of k m ∙ e);
  has_missing = λ m k e. ap found (find-fields_of k m ∙ e);
  at_found = λ m k j e. ap (or_else null_value) (find-fields_of k m ∙ e);
  is_object-object = λ m. refl;
}

-- A token is verified by the key that it spells.
abbrev pub plain_jwt : JwtLib
plain_jwt = record {
  Token = Str;
  decode = λ algorithms key token.
      if seq key token then ok token else err (verification_error (codes "signature"));
  header = λ t. t;
  payload = λ t. t;
}
