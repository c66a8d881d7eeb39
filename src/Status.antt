-- ===== src/Status.antt =====
-- include/telling/msg_status.h and the tables of include/telling/util/HttpStatusCodes_C++11.h.
-- A status is its integer, which no code of the library makes negative.
pub mod RoundTrip
pub mod Reasons
pub mod StatusCode
use telling.Prelude.{
  ℕ, ◌+◌, ◌-◌, ◌*◌, ◌/◌, ◌%◌, Bool, true, false, ◌&&◌, ◌||◌, Option, none, some, List, [], ◌∷◌,
  Bytes, codes, ◌==◌, ltb, leb, if◌then◌else◌,
}

-- `Status::toString`
unfoldable pub to_string : ℕ → Bytes
to_string n =
    if n == 0 || ltb 999 n
    then codes "N/A"
    else (b'0' + n / 100 % 10) ∷ (b'0' + n / 10 % 10) ∷ (b'0' + n % 10) ∷ []

abbrev pub is_digit : ℕ → Bool
is_digit c = leb b'0' c && leb c b'9'

-- `Status::Parse`; the status 0 is the one that is not valid.
unfoldable pub parse : Bytes → ℕ
parse (a ∷ b ∷ c ∷ []) =
    if is_digit a && is_digit b && is_digit c
    then c - b'0' + 10 * (b - b'0') + 100 * (a - b'0')
    else 0
parse _ = 0

unfoldable pub is_informational : ℕ → Bool
is_informational code = leb 100 code && ltb code 200

unfoldable pub is_successful : ℕ → Bool
is_successful code = leb 200 code && ltb code 300

unfoldable pub is_redirection : ℕ → Bool
is_redirection code = leb 300 code && ltb code 400

unfoldable pub is_client_error : ℕ → Bool
is_client_error code = leb 400 code && ltb code 500

unfoldable pub is_server_error : ℕ → Bool
is_server_error code = leb 500 code && ltb code 600

unfoldable pub is_error : ℕ → Bool
is_error code = leb 400 code

-- The `switch` of `HttpStatus::reasonPhrase`, as a table.
unfoldable pub reason_phrases : List (ℕ × Bytes)
reason_phrases =
    (100, codes "Continue")
    ∷ (101, codes "Switching Protocols")
    ∷ (102, codes "Processing")
    ∷ (103, codes "Early Hints")
    ∷ (200, codes "OK")
    ∷ (201, codes "Created")
    ∷ (202, codes "Accepted")
    ∷ (203, codes "Non-Authoritative Information")
    ∷ (204, codes "No Content")
    ∷ (205, codes "Reset Content")
    ∷ (206, codes "Partial Content")
    ∷ (207, codes "Multi-Status")
    ∷ (208, codes "Already Reported")
    ∷ (226, codes "IM Used")
    ∷ (300, codes "Multiple Choices")
    ∷ (301, codes "Moved Permanently")
    ∷ (302, codes "Found")
    ∷ (303, codes "See Other")
    ∷ (304, codes "Not Modified")
    ∷ (305, codes "Use Proxy")
    ∷ (307, codes "Temporary Redirect")
    ∷ (308, codes "Permanent Redirect")
    ∷ (400, codes "Bad Request")
    ∷ (401, codes "Unauthorized")
    ∷ (402, codes "Payment Required")
    ∷ (403, codes "Forbidden")
    ∷ (404, codes "Not Found")
    ∷ (405, codes "Method Not Allowed")
    ∷ (406, codes "Not Acceptable")
    ∷ (407, codes "Proxy Authentication Required")
    ∷ (408, codes "Request Timeout")
    ∷ (409, codes "Conflict")
    ∷ (410, codes "Gone")
    ∷ (411, codes "Length Required")
    ∷ (412, codes "Precondition Failed")
    ∷ (413, codes "Payload Too Large")
    ∷ (414, codes "URI Too Long")
    ∷ (415, codes "Unsupported Media Type")
    ∷ (416, codes "Range Not Satisfiable")
    ∷ (417, codes "Expectation Failed")
    ∷ (418, codes "I'm a teapot")
    ∷ (422, codes "Unprocessable Entity")
    ∷ (423, codes "Locked")
    ∷ (424, codes "Failed Dependency")
    ∷ (426, codes "Upgrade Required")
    ∷ (428, codes "Precondition Required")
    ∷ (429, codes "Too Many Requests")
    ∷ (431, codes "Request Header Fields Too Large")
    ∷ (451, codes "Unavailable For Legal Reasons")
    ∷ (500, codes "Internal Server Error")
    ∷ (501, codes "Not Implemented")
    ∷ (502, codes "Bad Gateway")
    ∷ (503, codes "Service Unavailable")
    ∷ (504, codes "Gateway Time-out")
    ∷ (505, codes "HTTP Version Not Supported")
    ∷ (506, codes "Variant Also Negotiates")
    ∷ (507, codes "Insufficient Storage")
    ∷ (508, codes "Loop Detected")
    ∷ (510, codes "Not Extended")
    ∷ (511, codes "Network Authentication Required")
    ∷ []

unfoldable pub find_phrase : ℕ → List (ℕ × Bytes) → Bytes
find_phrase code [] = []
find_phrase code ((c, phrase) ∷ table) = if c == code then phrase else find_phrase code table

-- `Status::reasonPhrase`
unfoldable pub or_undefined : Bytes → Bytes
or_undefined [] = codes "(Undefined Status)"
or_undefined phrase = phrase

unfoldable pub reason_phrase : ℕ → Bytes
unfolding reason_phrases find_phrase or_undefined
reason_phrase code = or_undefined (find_phrase code reason_phrases)
