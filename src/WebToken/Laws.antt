-- ===== src/WebToken/Laws.antt =====
-- The answer of `isRS256Authenticated` (store.common/src/web_token.hpp).
use store_cpp.Base.{
  ◌≡◌, refl, sym, ap, ◌∙◌, arith, inl, inr, Bool, Bool-cases, true, false, Option, none, some,
  some_injective, subst, Str, codes, seq, [], ◌∷◌, if◌then◌else◌,
}
use store_cpp.Base.Int.{ℤ, pos, ltb_ℤ, ◌≤ℤ◌}
use store_cpp.Base.Assoc.{Assoc, lookup}
use store_cpp.Library.Json.{JsonLib, JsonLaws}
use store_cpp.Library.Database.{Result, ok, err}
use store_cpp.WebToken.{
  JwtLib, JwtError, accepted, decrypt_jwt, jwt_object_to_json, token_expired,
  is_rs256_authenticated, checked, judge_json, judge, finish_decrypt, what, joined_parts, exp_of,
  payload_exp, is_after,
}

-- The time that a payload ends at: its `exp`, or 0 where that or the payload is null.
pub data Expires (J : JsonLib) (p : J.Json) : ℤ → Type 0 where
  at_exp :
      (e : J.Json) (z : ℤ)
      → J.is_null p ≡ false
      → J.index p (codes "exp") ≡ some e
      → J.is_null e ≡ false
      → J.get_int64 e ≡ some z
      → Expires J p z
  without_exp :
      (e : J.Json)
      → J.is_null p ≡ false
      → J.index p (codes "exp") ≡ some e
      → J.is_null e ≡ true
      → Expires J p (pos 0)
  without_payload : J.is_null p ≡ true → Expires J p (pos 0)

-- A token that the library verifies, whose two printed parts are the result, and whose end has not
-- passed.
pub record Verified (T : JwtLib) (J : JsonLib) (now : ℤ) (key token : Str) (j : J.Json)
    : Type 0 where
  pub object : T.Token
  pub header : J.Json
  pub payload : J.Json
  pub deadline : ℤ
  pub decoded : T.decode accepted key token ≡ ok object
  pub header_parsed : J.parse (T.header object) ≡ some header
  pub payload_parsed : J.parse (T.payload object) ≡ some payload
  pub result : j ≡ J.object ((codes "header", header) ∷ (codes "payload", payload) ∷ [])
  pub expires : Expires J payload deadline
  pub in_time : now ≤ℤ deadline

module _ (T : JwtLib) (J : JsonLib) (JL : JsonLaws J) where
  judge-alive :
      (i j : J.Json) (r : Option Bool) → judge T J i r ≡ some (true, j) → (r ≡ some false) × (i ≡ j)
  unfolding judge
  judge-alive i j none h = cc
  judge-alive i j (some true) h = cc
  judge-alive i j (some false) h = (refl, ap (λ p. p.1) (some_injective h))

  judge_json-parts :
      (now : ℤ) (r : Option J.Json) (j : J.Json)
      → judge_json T J now r ≡ some (true, j)
      → (r ≡ some j) × (token_expired T J now j ≡ some false)
  unfolding judge_json
  judge_json-parts now none j h = cc
  judge_json-parts now (some i) j h =
      let a = judge-alive i j (token_expired T J now i) h in
      (ap some (a.1), subst (λ k. token_expired T J now k ≡ some false) (a.1) (a.0))

  exp_of-Expires :
      (p : J.Json) (o : Option J.Json) (z : ℤ)
      → J.is_null p ≡ false
      → J.index p (codes "exp") ≡ o
      → exp_of T J o ≡ some z
      → Expires J p z
  unfolding exp_of
  exp_of-Expires p none z n i h = cc
  exp_of-Expires p (some e) z n i h = elim (Bool-cases (J.is_null e)) [
    | inl b ↦
        subst (Expires J p)
          (some_injective (sym (ap (λ c. if c then some (pos 0) else J.get_int64 e) b) ∙ h))
          (without_exp e n i b)
    | inr b ↦ at_exp e z n i b (sym (ap (λ c. if c then some (pos 0) else J.get_int64 e) b) ∙ h)
  ]

  payload_exp-Expires : (p : J.Json) (z : ℤ) → payload_exp T J (some p) ≡ some z → Expires J p z
  unfolding payload_exp
  payload_exp-Expires p z h =
      let exp = exp_of T J (J.index p (codes "exp")) in
      elim (Bool-cases (J.is_null p)) [
        | inl b ↦
            subst (Expires J p)
              (some_injective (sym (ap (λ c. if c then some (pos 0) else exp) b) ∙ h))
              (without_payload b)
        | inr b ↦
            exp_of-Expires p _ z b refl (sym (ap (λ c. if c then some (pos 0) else exp) b) ∙ h)
      ]

  is_after-in_time :
      (now : ℤ) (o : Option ℤ)
      → is_after T J now o ≡ some false
      → (z : ℤ) × (o ≡ some z) × (now ≤ℤ z)
  unfolding is_after
  is_after-in_time now none h = cc
  is_after-in_time now (some z) h =
      let e : ltb_ℤ z now ≡ false = some_injective h in (z, refl, ground arith)

  -- The object that `jwtObjectToJson` made, once the test has let it through.
  joined_parts-Verified :
      (now : ℤ) (key token : Str) (j : J.Json) (t : T.Token) (h p : Option J.Json)
      → T.decode accepted key token ≡ ok t
      → J.parse (T.header t) ≡ h
      → J.parse (T.payload t) ≡ p
      → joined_parts T J h p ≡ some j
      → token_expired T J now j ≡ some false
      → Verified T J now key token j
  unfolding joined_parts token_expired lookup codes seq
  joined_parts-Verified now key token j t none p d e f r a = cc
  joined_parts-Verified now key token j t (some h) none d e f r a = cc
  joined_parts-Verified now key token j t (some h) (some p) d e f r a =
      let parts : Assoc J.Json = (codes "header", h) ∷ (codes "payload", p) ∷ [] in
      let found = JL.value_json_found parts (codes "payload") p J.null refl in
      let value : J.value_json j (codes "payload") J.null ≡ some p =
        subst (λ k. J.value_json k (codes "payload") J.null ≡ some p) (some_injective r) found in
      let (z, y, l) =
        is_after-in_time now (payload_exp T J (some p))
          (ap (λ v. is_after T J now (payload_exp T J v)) (sym value) ∙ a) in
      record {
        object = t;
        header = h;
        payload = p;
        deadline = z;
        decoded = d;
        header_parsed = e;
        payload_parsed = f;
        result = sym (some_injective r);
        expires = payload_exp-Expires p z y;
        in_time = l;
      }

  checked_none :
      (now : ℤ) (j0 j : J.Json) (e : Str) → checked T J now j0 e none ≡ some (true, j) → ⊥
  unfolding checked
  checked_none now j0 j [] h = cc
  checked_none now j0 j (x ∷ e) h = cc

  checked-Verified :
      (now : ℤ) (key token : Str) (j0 j : J.Json) (r : Result JwtError T.Token)
      → T.decode accepted key token ≡ r
      → checked T J now j0 (finish_decrypt T J r).error (finish_decrypt T J r).dec ≡ some (true, j)
      → Verified T J now key token j
  unfolding checked finish_decrypt
  checked-Verified now key token j0 j (ok t) e h =
      let (r, a) = judge_json-parts now (jwt_object_to_json T J t) j h in
      joined_parts-Verified now key token j t _ _ e refl refl (unfold jwt_object_to_json in r) a
  checked-Verified now key token j0 j (err x) e h = absurd (checked_none now j0 j (what x) h)

  -- If the answer is yes, the library verified the token with the public key, the result is made of
  -- its header and its payload, and the clock is not past the `exp` of that payload, which counts as
  -- 0 where there is none.
  pub is_rs256_authenticated-Verified :
      (now : ℤ) (key token : Str) (j0 j : J.Json)
      → is_rs256_authenticated T J now key token j0 ≡ some (true, j)
      → Verified T J now key token j
  unfolding is_rs256_authenticated decrypt_jwt
  is_rs256_authenticated-Verified now key token j0 j h =
      checked-Verified now key token j0 j (T.decode accepted key token) refl h
