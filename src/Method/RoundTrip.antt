-- ===== src/Method/RoundTrip.antt =====
-- A method and its name.
use telling.Layout.{max_method_length}
use telling.Method.{
  MethodCode, is_valid, to_string, parse, parse_two, is_safe, is_idempotent, allow_no_response,
}
use telling.Prelude.{
  ℕ, ◌≤◌, ◌≡◌, ◌↔◌, refl, sym, ap, ◌∙◌, true, false, [], ◌∷◌, Bytes, codes, same_text,
  same_text_iff, length, arith,
}

-- Every valid method is read back from its name.
pub parse-to_string : (m : MethodCode) → is_valid m ≡ true → parse (to_string m) ≡ m
unfolding parse to_string is_valid same_text
parse-to_string MethodCode.unknown h = cc
parse-to_string MethodCode.none h = cc
parse-to_string MethodCode.end_of_valid_methods h = cc
parse-to_string _ h = refl

parse_two-name :
    (a b : ℕ) (v : Bytes) → is_valid (parse_two a b v) ≡ true → to_string (parse_two a b v) ≡ v
unfolding parse_two to_string is_valid
parse_two-name a b v h = ground (
  arith,
  same_text_iff v (codes "GET"),
  same_text_iff v (codes "HEAD"),
  same_text_iff v (codes "POST"),
  same_text_iff v (codes "PUT"),
  same_text_iff v (codes "DELETE"),
  same_text_iff v (codes "PATCH"),
  same_text_iff v (codes "OPTIONS"),
  same_text_iff v (codes "TRACE"),
  same_text_iff v (codes "CONNECT"),
)

-- What is read as a valid method is exactly the name of that method: letter case counts, and
-- nothing may follow.
pub to_string-parse : (v : Bytes) → is_valid (parse v) ≡ true → to_string (parse v) ≡ v
unfolding parse
to_string-parse [] h = unfold is_valid in cc
to_string-parse (a ∷ []) h = unfold is_valid in cc
to_string-parse (a ∷ b ∷ v) h = parse_two-name a b (a ∷ b ∷ v) h

-- A text is read as a given valid method exactly when it is that method's name.
pub parse_method_iff :
    (v : Bytes) (m : MethodCode) → is_valid m ≡ true → (parse v ≡ m) ↔ (v ≡ to_string m)
parse_method_iff v m h = (
  λ e. sym (ap to_string (sym e) ∙ to_string-parse v (rw e h)),
  λ e. ap parse e ∙ parse-to_string m h,
)

-- The name of every method fits the guideline for a start line.
pub length-to_string :
    (m : MethodCode) → is_valid m ≡ true → length (to_string m) ≤ max_method_length
unfolding to_string
length-to_string MethodCode.get h = omega arith
length-to_string _ h = omega arith

-- A safe method is idempotent, and is not allowed to go without a response.
pub is_safe-is_idempotent :
    (m : MethodCode) → is_safe m ≡ true → (is_idempotent m ≡ true) × (allow_no_response m ≡ false)
unfolding is_safe is_idempotent allow_no_response
is_safe-is_idempotent m h = ground arith
