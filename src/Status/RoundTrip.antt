-- ===== src/Status/RoundTrip.antt =====
-- A status and its three digits.
use telling.Prelude.{ℕ, ◌≤◌, ◌<◌, ◌≡◌, ◌↔◌, sym, ap, ◌∙◌, ◌⊎◌, true, [], ◌∷◌, Bytes, arith}
use telling.Status.{to_string, parse, is_client_error, is_server_error, is_error}

-- Each status from 1 to 999 is read back from what is written for it.
pub parse-to_string : (n : ℕ) → 0 < n → n ≤ 999 → parse (to_string n) ≡ n
unfolding parse to_string
parse-to_string n pos small = ground arith

-- A text that is read as a valid status is what is written for that status.
pub to_string-parse : (s : Bytes) → 0 < parse s → to_string (parse s) ≡ s
unfolding parse to_string
to_string-parse (a ∷ b ∷ c ∷ []) h = ground arith
to_string-parse [] h = ground arith
to_string-parse (a ∷ []) h = ground arith
to_string-parse (a ∷ b ∷ []) h = ground arith
to_string-parse (a ∷ b ∷ c ∷ d ∷ rest) h = ground arith

-- A text is read as a given status from 1 to 999 exactly when it is what is written for it.
pub parse_status_iff : (s : Bytes) (n : ℕ) → 0 < n → n ≤ 999 → (parse s ≡ n) ↔ (s ≡ to_string n)
parse_status_iff s n pos small = (
  λ e. sym (ap to_string (sym e) ∙ to_string-parse s (rw e pos)),
  λ e. ap parse e ∙ parse-to_string n pos small,
)

-- A status that is an error but no client error is a server error, or lies above all classes.
pub is_error_classes :
    (n : ℕ)
    → is_error n ≡ true
    → (is_client_error n ≡ true) ⊎ (is_server_error n ≡ true) ⊎ (600 ≤ n)
unfolding is_error is_client_error is_server_error
is_error_classes n h = ground arith
