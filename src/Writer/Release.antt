-- ===== src/Writer/Release.antt =====
-- MsgWriter::release, writeHeader_Length and writeHeader_Allow of src/telling/msg_writer.cpp.
use telling.Method.Mask.{contains}
use telling.Method.{MethodCode}
use telling.Method
use telling.MsgError.{Result, ok, nospc, undefined, ◌>>=◌}
use telling.Prelude.{
  ℕ, zero, suc, ◌+◌, ◌-◌, ◌/◌, ◌%◌, ◌^◌, Bool, true, false, not, Option, none, some, List, [], ◌∷◌,
  ◌++◌, Bytes, codes, ◌==◌, ltb, if◌then◌else◌, length,
}
use telling.Writer.{MsgWriter, append, newline, write_header, auto_close_headers}

-- `NumDigits`: a `do` loop, at most `fuel` rounds.
unfoldable pub num_digits_from : ℕ → ℕ → ℕ
num_digits_from zero value = 0
num_digits_from (suc fuel) value =
    let rest = num_digits_from fuel (value / 10) in if value / 10 == 0 then 1 else 1 + rest

unfoldable pub num_digits : ℕ → ℕ
unfolding num_digits_from
num_digits value = num_digits_from (suc value) value

unfoldable pub set {ℓ} : {A : Type ℓ} → List A → ℕ → A → List A
set [] i v = []
set (x ∷ xs) zero v = v ∷ xs
set (x ∷ xs) (suc i) v = x ∷ set xs i v

-- The loop of `release` that writes the digits of the body's size in front of `pos`.
unfoldable pub write_digits : ℕ → ℕ → ℕ → Bytes → Bytes
unfolding set
write_digits zero pos value text = text
write_digits (suc fuel) pos value text =
    let text' = set text (pos - 1) (b'0' + value % 10) in
    let rest = write_digits fuel (pos - 1) (value / 10) text' in
    if value / 10 == 0 then text' else rest

unfoldable pub spaces : ℕ → Bytes
spaces zero = []
spaces (suc n) = b' ' ∷ spaces n

-- `writeHeader_Length`
unfoldable pub write_header_length : ℕ → MsgWriter → Result MsgWriter
unfolding num_digits spaces append
write_header_length max_length w = if not (w.length_size == 0) then nospc else (do
  let digits = num_digits max_length
  w ← append (codes "Content-Length:") w
  elim w.msg [
    | none ↦ undefined
    | some m ↦
        append (spaces digits ++ newline w)
          (record w { length_offset = length m % 2 ^ 16; length_size = digits })
  ])

-- The names of the methods that a mask contains, in the order of their codes.
unfoldable pub allowed_names : Bool → List MethodCode → ℕ → Bytes
unfolding contains
allowed_names first [] mask = []
allowed_names first (m ∷ ms) mask =
    let taken =
      (if first then [] else codes ", ") ++ (Method.to_string m ++ allowed_names false ms mask) in
    let skipped = allowed_names first ms mask in
    if (elim (contains m mask) [ none ↦ false | some b ↦ b ]) then taken else skipped

abbrev pub valid_methods : List MethodCode
valid_methods =
    MethodCode.get ∷ MethodCode.head ∷ MethodCode.post ∷ MethodCode.put ∷ MethodCode.delete
    ∷ MethodCode.patch ∷ MethodCode.options ∷ MethodCode.connect ∷ MethodCode.trace ∷ []

-- `writeHeader_Allow`
unfoldable pub write_header_allow : ℕ → MsgWriter → Result MsgWriter
unfolding allowed_names write_header
write_header_allow methods w =
    write_header (codes "Allow") (allowed_names true valid_methods methods) w

-- The part of `release` under `if (head.lengthSize)`.
unfoldable pub complete_length : MsgWriter → Bytes → Result Bytes
unfolding num_digits write_digits
complete_length w m =
    if w.length_size == 0
    then ok m
    else (let body_size = length m - w.layout.p_body in
        let digits = num_digits body_size in
        if ltb w.length_size digits
        then nospc
        else ok (write_digits (suc body_size) (w.length_offset + digits) body_size m))

-- `release`: the message, null if the writer has none, and the writer without it.
unfoldable pub release : MsgWriter → Result (Option Bytes × MsgWriter)
unfolding auto_close_headers complete_length
release w = do
  w ← auto_close_headers w
  let w' = record w { msg = none; length_offset = 0; length_size = 0 }
  elim w.msg [
    | none ↦ if w.length_size == 0 then ok (none, w') else undefined
    | some m ↦ do m ← complete_length w m; ok (some m, w')
  ]
