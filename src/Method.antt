-- ===== src/Method.antt =====
-- include/telling/msg_method.h, class Method.
pub mod RoundTrip
pub mod Mask
pub mod MaskLaws
use telling.Prelude.{
  ℕ, Bool, true, false, ◌&&◌, List, [], ◌∷◌, Bytes, codes, same_text, ◌==◌, if◌then◌else◌,
}

-- `enum class MethodCode`, in its order: Unknown is -1 and None is 0.
pub data MethodCode : Type 0 where
  unknown none get head post put delete patch : MethodCode
  options connect trace end_of_valid_methods : MethodCode

-- `explicit operator bool`
unfoldable pub is_valid : MethodCode → Bool
is_valid unknown = false
is_valid none = false
is_valid end_of_valid_methods = false
is_valid _ = true

unfoldable pub is_safe : MethodCode → Bool
is_safe get = true
is_safe head = true
is_safe options = true
is_safe trace = true
is_safe _ = false

unfoldable pub is_idempotent : MethodCode → Bool
is_idempotent get = true
is_idempotent head = true
is_idempotent put = true
is_idempotent delete = true
is_idempotent options = true
is_idempotent trace = true
is_idempotent _ = false

unfoldable pub is_cacheable : MethodCode → Bool
is_cacheable get = true
is_cacheable head = true
is_cacheable post = true
is_cacheable _ = false

unfoldable pub allow_request_body : MethodCode → Bool
allow_request_body head = false
allow_request_body delete = false
allow_request_body trace = false
allow_request_body _ = true

unfoldable pub allow_response_body : MethodCode → Bool
allow_response_body head = false
allow_response_body _ = true

unfoldable pub allow_no_response : MethodCode → Bool
allow_no_response get = false
allow_no_response head = false
allow_no_response options = false
allow_no_response connect = false
allow_no_response trace = false
allow_no_response _ = true

unfoldable pub to_string : MethodCode → Bytes
to_string get = codes "GET"
to_string head = codes "HEAD"
to_string post = codes "POST"
to_string put = codes "PUT"
to_string delete = codes "DELETE"
to_string patch = codes "PATCH"
to_string options = codes "OPTIONS"
to_string trace = codes "TRACE"
to_string connect = codes "CONNECT"
to_string none = codes "NoMethod"
to_string _ = codes "UnknownMethod"

-- One `case CC2(#NAME[0], #NAME[1])`; the first case whose two letters fit decides.
abbrev parse_case : ℕ → ℕ → Bytes → ℕ → ℕ → Bytes → MethodCode → MethodCode → MethodCode
parse_case a b v n0 n1 name code otherwise =
    if a == n0 && b == n1 then (if same_text v name then code else unknown) else otherwise

unfoldable pub parse_two : ℕ → ℕ → Bytes → MethodCode
parse_two a b v = parse_case a b v b'G' b'E' (codes "GET") get (
    parse_case a b v b'H' b'E' (codes "HEAD") head (
      parse_case a b v b'P' b'O' (codes "POST") post (
        parse_case a b v b'P' b'U' (codes "PUT") put (
          parse_case a b v b'D' b'E' (codes "DELETE") delete (
            parse_case a b v b'P' b'A' (codes "PATCH") patch (
              parse_case a b v b'O' b'P' (codes "OPTIONS") options (
                parse_case a b v b'T' b'R' (codes "TRACE") trace
                  (parse_case a b v b'C' b'O' (codes "CONNECT") connect unknown))))))))

-- `Method::Parse`
unfoldable pub parse : Bytes → MethodCode
unfolding parse_two
parse [] = none
parse (a ∷ []) = unknown
parse (a ∷ b ∷ v) = parse_two a b (a ∷ b ∷ v)
