-- ===== src/Layout/StartLine.antt =====
-- The start line with its end, as `_setStartLine` measures it.
use telling.Layout.Bounds.{SetElements, set_elements_lem}
use telling.Layout.Parse.{parse_start_line, choose_type, line_parts}
use telling.Layout.Parts.{line_parts-Elements}
use telling.Layout.{MsgType, MsgLayout, line_length, check_size, set_elements, set_start_line}
use telling.Lines.Split.{NoNewline, Eol, lf, crlf, cr, eof}
use telling.MsgError.{ok, err, start_line_malformed}
use telling.Prelude.{
  ℕ, zero, suc, ◌+◌, ◌-◌, ◌%◌, ◌^◌, ◌≤◌, ◌<◌, ◌≡◌, ◌≢◌, refl, Option, [], ◌∷◌, ◌++◌, Bytes, sym,
  ◌∙◌, subst, length, get_or, get_or-append, get_or-append_left, length-append, arith,
}

get_or-NoNewline :
    (line : Bytes) (i : ℕ) → NoNewline line → i < length line → get_or line i 0 ≢ b'\r'
get_or-NoNewline [] i h lt = elim lt [ ]
get_or-NoNewline (c ∷ cs) zero h lt = h.1
get_or-NoNewline (c ∷ cs) (suc i) h lt = get_or-NoNewline cs i h.2 (omega arith)

-- The byte at the end of `xs ++ y ∷ ys`, and the one before it.
get_or-last : (line end : Bytes) → get_or (line ++ end) (length line) 0 ≡ get_or end 0 0
get_or-last line end =
    let e : length line + 0 ≡ length line = omega arith in
    subst (λ n. get_or (line ++ end) n 0 ≡ get_or end 0 0) e (get_or-append line end 0 0)

pub line_length-lf :
    (line : Bytes)
    → NoNewline line
    → line ≢ []
    → line_length (line ++ (b'\n' ∷ [])) ≡ ok (length line)
unfolding line_length
line_length-lf [] h ne = absurd (ne refl)
line_length-lf (c ∷ cs) h ne =
    let line : Bytes = c ∷ cs in
    ground (
      arith,
      length-append line (b'\n' ∷ []),
      get_or-last line (b'\n' ∷ []),
      get_or-append_left line (b'\n' ∷ []) (length cs) 0,
      get_or-NoNewline line (length cs) h,
    )

pub line_length-crlf :
    (line : Bytes) → line_length (line ++ (b'\r' ∷ b'\n' ∷ [])) ≡ ok (length line)
unfolding line_length
line_length-crlf line = ground (
  arith,
  length-append line (b'\r' ∷ b'\n' ∷ []),
  get_or-last line (b'\r' ∷ b'\n' ∷ []),
  get_or-append line (b'\r' ∷ b'\n' ∷ []) 1 0,
)

line_length-cr : (line : Bytes) → line_length (line ++ (b'\r' ∷ [])) ≡ err start_line_malformed
unfolding line_length
line_length-cr line = ground (arith, length-append line (b'\r' ∷ []), get_or-last line (b'\r' ∷ []))

-- The layout once the line is measured.
abbrev pub measured : MsgLayout → Bytes → Bytes → MsgLayout
measured l line eol = record l { sl_len = length line; sl_nl = length eol }

pub set_start_line-measured :
    (l : MsgLayout) (line eol : Bytes) (kind : MsgType) (s t f : Option ℕ)
    → line_length (line ++ eol) ≡ ok (length line)
    → length line ≤ 65535
    → length eol ≤ 2
    → set_start_line l (line ++ eol) kind s t f
      ≡ set_elements kind (length line) (measured l line eol) s t f
unfolding set_start_line
set_start_line-measured l line eol kind s t f h small end =
    let fits : check_size (length line) 65535 ≡ ok (length line) = ground arith in
    let len : length line % 2 ^ 16 ≡ length line = omega arith in
    let end : (length (line ++ eol) - length line) % 2 ^ 8 ≡ length eol =
      omega (arith, length-append line eol) in
    rw (h, fits, len, end)

-- What the start line of a parsed message makes of the layout.
pub record StartLine (line eol : Bytes) (kind : MsgType) (l r : MsgLayout) : Type 0 where
  pub len : r.sl_len ≡ length line
  pub nl : r.sl_nl ≡ length eol
  pub elements : SetElements kind (measured l line eol) r

parse_measured :
    (l : MsgLayout) (given : MsgType) (line eol : Bytes) {r : MsgLayout}
    → line_length (line ++ eol) ≡ ok (length line)
    → length line ≤ 65535
    → length eol ≤ 2
    → parse_start_line l given line (line ++ eol) ≡ ok r
    → StartLine line eol (choose_type given (line_parts line)) l r
unfolding parse_start_line
parse_measured l given line eol {r} h small end e =
    let set =
      set_elements_lem (measured l line eol) small (choose_type given (line_parts line)) _ _ _
        (line_parts-Elements line)
        (sym (set_start_line-measured l line eol _ _ _ _ h small end) ∙ e) in
    record { len = set.same_len; nl = set.same_nl; elements = set }

parse_malformed :
    (l : MsgLayout) (given : MsgType) (line text : Bytes)
    → line_length text ≡ err start_line_malformed
    → parse_start_line l given line text ≡ err start_line_malformed
unfolding parse_start_line set_start_line
parse_malformed l given line text h = rw h

-- A start line that is accepted ends in `\n` or `\r\n`.
pub parse_start_line_lem :
    (l : MsgLayout) (given : MsgType) (line eol rest : Bytes) {r : MsgLayout}
    → NoNewline line
    → Eol rest eol
    → rest ≢ []
    → length line ≤ 65535
    → parse_start_line l given line (line ++ eol) ≡ ok r
    → StartLine line eol (choose_type given (line_parts line)) l r
parse_start_line_lem l given [] eol rest h lf ne small e =
    let bad = parse_malformed l given [] (b'\n' ∷ []) (unfold line_length in refl) in cc
parse_start_line_lem l given (c ∷ cs) eol rest h lf ne small e =
    parse_measured l given (c ∷ cs) (b'\n' ∷ []) (line_length-lf (c ∷ cs) h (λ e. cc)) small
      (omega arith) e
parse_start_line_lem l given line eol rest h crlf ne small e =
    parse_measured l given line _ (line_length-crlf line) small (omega arith) e
parse_start_line_lem l given line eol rest h cr ne small e =
    let bad = parse_malformed l given line (line ++ (b'\r' ∷ [])) (line_length-cr line) in cc
parse_start_line_lem l given line eol rest h (eof done) ne small e = absurd (ne done)
