-- ===== src/Headers/Block.antt =====
-- Reading back the headers that the writer wrote.
use telling.Headers.{MsgHeader, find_name, value_of, parse_header, read_headers}
use telling.Layout.Accept.{Newline, lf, crlf, lines_text, consume_line-Newline}
use telling.Lines.{consume_line}
use telling.Lines.Split.{consume_line-shorter}
use telling.Prelude.{
  ℕ, zero, suc, ◌+◌, ◌≤◌, ◌<◌, ◌≡◌, ◌≢◌, refl, sym, ap, ◌∙◌, false, none, some, List, [], ◌∷◌, ◌++◌,
  Bytes, arith, length, subst, length-append, append-nil,
}
use telling.Layout.{headers_range}
use telling.View.{MsgView, remove_last, string, headers_string}
use telling.Writer.Compose.{AreWritable, header_lines, header_line, header_lines-AreHeaders}
use telling.Writer.{bad_name}

-- With a round for each byte and one more, the iterator reaches the end of any text.
pub read_headers-enough : (fuel : ℕ) (p : Bytes) → length p < fuel → read_headers fuel p ≢ none
unfolding read_headers
read_headers-enough zero p h = omega arith
read_headers-enough (suc fuel) [] h = λ e. cc
read_headers-enough (suc fuel) (c ∷ cs) h =
    let shorter = consume_line-shorter (c ∷ cs) (λ e. cc) in
    let ih = read_headers-enough fuel (consume_line (c ∷ cs)).1 (omega arith) in ground arith

find_name-bad_name :
    (name value : Bytes)
    → bad_name name ≡ false
    → find_name (name ++ (b':' ∷ value)) ≡ some (name, value)
unfolding find_name bad_name
find_name-bad_name [] value h = refl
find_name-bad_name (c ∷ name) value h = ground (arith, find_name-bad_name name value)

-- What a header reads as.
abbrev pub header_read : Bytes × Bytes → MsgHeader
header_read (name, value) = record { name = name; value = value_of value }

abbrev pub headers_read : List (Bytes × Bytes) → List MsgHeader
headers_read [] = []
headers_read (h ∷ hs) = header_read h ∷ headers_read hs

read_headers-cons :
    (fuel : ℕ) (text : Bytes)
    → text ≢ []
    → (headers : List MsgHeader) → read_headers fuel (consume_line text).1 ≡ some headers
    → read_headers (suc fuel) text ≡ some (parse_header (consume_line text).0 ∷ headers)
unfolding read_headers
read_headers-cons fuel [] ne headers r = elim (ne refl) [ ]
read_headers-cons fuel (c ∷ cs) ne headers r = rw r refl

read_headers-line :
    (fuel : ℕ) (text line rest : Bytes)
    → text ≢ []
    → consume_line text ≡ (line, rest)
    → (headers : List MsgHeader) → read_headers fuel rest ≡ some headers
    → read_headers (suc fuel) text ≡ some (parse_header line ∷ headers)
read_headers-line fuel text line rest ne e headers r =
    read_headers-cons fuel text ne headers (ap (λ x. read_headers fuel x.1) e ∙ r)
    ∙ ap (λ x. some (parse_header x.0 ∷ headers)) e

nl-cons : (nl rest : Bytes) → Newline nl → nl ++ rest ≢ []
nl-cons _ rest lf = λ e. cc
nl-cons _ rest crlf = λ e. cc

append-not_nil : (xs ys : Bytes) → xs ≢ [] → xs ++ ys ≢ []
append-not_nil [] ys h = elim (h refl) [ ]
append-not_nil (x ∷ xs) ys h = λ e. cc

parse_header-line :
    (h : Bytes × Bytes) → bad_name h.0 ≡ false → parse_header (header_line h) ≡ header_read h
unfolding parse_header
parse_header-line (name, value) b = let e = find_name-bad_name name value b in ground arith

remove_last-append : (c : ℕ) (s t : Bytes) → t ≢ [] → remove_last c (s ++ t) ≡ s ++ remove_last c t
unfolding remove_last
remove_last-append c [] t ne = refl
remove_last-append c (x ∷ []) [] ne = elim (ne refl) [ ]
remove_last-append c (x ∷ []) (d ∷ t) ne = refl
remove_last-append c (x ∷ y ∷ s) t ne = ap (◌∷◌ x) (remove_last-append c (y ∷ s) t ne)

remove_last-cons : (s : Bytes) → remove_last b'\r' s ≡ s → remove_last b'\r' (b'\n' ∷ s) ≡ b'\n' ∷ s
unfolding remove_last
remove_last-cons [] h = refl
remove_last-cons (x ∷ s) h = ap (◌∷◌ b'\n') h

remove_last-lf :
    (lines : List Bytes)
    → remove_last b'\r' (lines_text (b'\n' ∷ []) lines) ≡ lines_text (b'\n' ∷ []) lines
unfolding remove_last
remove_last-lf [] = refl
remove_last-lf (line ∷ lines) =
    remove_last-append b'\r' line (b'\n' ∷ lines_text (b'\n' ∷ []) lines) (λ e. cc)
    ∙ ap (λ t. line ++ t) (remove_last-cons _ (remove_last-lf lines))

-- `_string_rem_nl` takes the empty line off the headers that it closes.
remove_last-headers :
    (nl : Bytes) (lines : List Bytes)
    → Newline nl
    → remove_last b'\r' (remove_last b'\n' (lines_text nl lines ++ nl)) ≡ lines_text nl lines
unfolding remove_last
remove_last-headers _ lines lf =
    let text = lines_text (b'\n' ∷ []) lines in
    rw (remove_last-append b'\n' text (b'\n' ∷ []) (λ e. cc), append-nil text)
      (remove_last-lf lines)
remove_last-headers _ lines crlf =
    let text = lines_text (b'\r' ∷ b'\n' ∷ []) lines in
    rw (remove_last-append b'\n' text (b'\r' ∷ b'\n' ∷ []) (λ e. cc))
      (remove_last-append b'\r' text (b'\r' ∷ []) (λ e. cc) ∙ append-nil text)

length-Newline : (nl : Bytes) → Newline nl → 1 ≤ length nl
length-Newline _ lf = omega arith
length-Newline _ crlf = omega arith

module _ (nl : Bytes) (n : Newline nl) where
  read_headers-fuel :
      (fuel : ℕ) (hs : List (Bytes × Bytes))
      → length hs + 1 ≤ fuel
      → AreWritable hs
      → read_headers fuel (lines_text nl (header_lines hs)) ≡ some (headers_read hs)
  unfolding read_headers
  read_headers-fuel zero hs h w = ground arith
  read_headers-fuel (suc fuel) [] h w = refl
  read_headers-fuel (suc fuel) ((name, value) ∷ hs) h w =
      let line = header_line (name, value) in
      let after = lines_text nl (header_lines hs) in
      let (no_newline, ne, rest) = header_lines-AreHeaders ((name, value) ∷ hs) w in
      read_headers-line fuel _ line after (append-not_nil line (nl ++ after) ne)
        (consume_line-Newline line after n no_newline) (headers_read hs)
        (read_headers-fuel fuel hs (omega arith) w.1)
      ∙ ap (λ x. some (x ∷ headers_read hs)) (parse_header-line (name, value) w.0.0)

  length-nl : 1 ≤ length nl
  length-nl = length-Newline nl n

  length-lines : (hs : List (Bytes × Bytes)) → length hs ≤ length (lines_text nl (header_lines hs))
  length-lines [] = omega arith
  length-lines ((name, value) ∷ hs) =
      let line = header_line (name, value) in
      let after = lines_text nl (header_lines hs) in
      omega (
        arith,
        length-nl,
        length-lines hs,
        length-append line (nl ++ after),
        length-append nl after,
      )

  -- The iterator reads from the headers that the writer wrote each of them in its order, its value
  -- without the blanks around it.
  read_headers-header_lines :
      (hs : List (Bytes × Bytes))
      → AreWritable hs
      → let text = lines_text nl (header_lines hs) in
        read_headers (suc (length text)) text ≡ some (headers_read hs)
  read_headers-header_lines hs w = read_headers-fuel _ hs (omega (arith, length-lines hs)) w

  -- The same of a view whose headers, with their empty line, were written so.
  pub read_headers-view :
      (v : MsgView) (hs : List (Bytes × Bytes))
      → AreWritable hs
      → string v (headers_range v.layout) ≡ lines_text nl (header_lines hs) ++ nl
      → let text = headers_string v in
        read_headers (suc (length text)) text ≡ some (headers_read hs)
  unfolding headers_string
  read_headers-view v hs w e =
      let kept =
        ap (λ t. remove_last b'\r' (remove_last b'\n' t)) e
        ∙ remove_last-headers nl (header_lines hs) n in
      subst (λ t. read_headers (suc (length t)) t ≡ some (headers_read hs)) (sym kept)
        (read_headers-header_lines hs w)
