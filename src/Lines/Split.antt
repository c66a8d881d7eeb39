-- ===== src/Lines/Split.antt =====
-- What `ConsumeLine` splits off.
use telling.Prelude.{
  ℕ, ◌<◌, [], ◌∷◌, ◌++◌, ◌≡◌, ◌≢◌, refl, ap, inl, inr, Bytes, ◌==◌, Bool-cases, arith, length,
}
use telling.Lines.{consume_line, skip_newline}

-- No byte that ends a line.
abbrev pub NoNewline : Bytes → Type 0
NoNewline [] = Unit {0}
NoNewline (c ∷ cs) = (c ≢ b'\n') × (c ≢ b'\r') × NoNewline cs

-- The end of a line that another byte may follow, and the end of the text.
pub data Eol (rest : Bytes) : Bytes → Type 0 where
  lf : Eol rest (b'\n' ∷ [])
  crlf : Eol rest (b'\r' ∷ b'\n' ∷ [])
  cr : Eol rest (b'\r' ∷ [])
  eof : rest ≡ [] → Eol rest []

pub record LineOf (text line rest : Bytes) : Type 0 where
  pub eol : Bytes
  pub splits : text ≡ line ++ (eol ++ rest)
  pub no_newline : NoNewline line
  pub ends : Eol rest eol

LineOf-cons :
    (c : ℕ) {text line rest : Bytes}
    → c ≢ b'\n'
    → c ≢ b'\r'
    → LineOf text line rest
    → LineOf (c ∷ text) (c ∷ line) rest
LineOf-cons c n r l = record {
  eol = l.eol;
  splits = ap (◌∷◌ c) l.splits;
  no_newline = (n, r, l.no_newline);
  ends = l.ends;
}

LineOf-cr : (cs : Bytes) → LineOf (b'\r' ∷ cs) [] (skip_newline cs)
unfolding skip_newline
LineOf-cr [] = record { eol = b'\r' ∷ []; splits = refl; no_newline = tt; ends = cr }
LineOf-cr (c ∷ cs) = elim (Bool-cases (c == b'\n')) [
  | inl h ↦
      rw h
        (record { eol = b'\r' ∷ b'\n' ∷ []; splits = ground arith; no_newline = tt; ends = crlf })
  | inr h ↦ rw h (record { eol = b'\r' ∷ []; splits = refl; no_newline = tt; ends = cr })
]

-- The line, an end of line and the rest make up the text, and the line holds no end of line.
pub consume_line-LineOf : (text : Bytes) → LineOf text (consume_line text).0 (consume_line text).1
unfolding consume_line
consume_line-LineOf [] = record { eol = []; splits = refl; no_newline = tt; ends = eof refl }
consume_line-LineOf (c ∷ cs) = elim (Bool-cases (c == b'\n')) [
  | inl h ↦ rw h (record { eol = b'\n' ∷ []; splits = ground arith; no_newline = tt; ends = lf })
  | inr n ↦ elim (Bool-cases (c == b'\r')) [
    | inl h ↦ let e : c ≡ b'\r' = ground arith in rw (n, h) (rw e (LineOf-cr cs))
    | inr r ↦ rw (n, r) (LineOf-cons c (ground arith) (ground arith) (consume_line-LineOf cs))
  ]
]

-- A line followed by its end is read back, whatever stands behind a `\n`.
pub consume_line-lf :
    (line rest : Bytes) → NoNewline line → consume_line (line ++ (b'\n' ∷ rest)) ≡ (line, rest)
unfolding consume_line
consume_line-lf [] rest h = refl
consume_line-lf (c ∷ line) rest h = ground (arith, consume_line-lf line rest h.2)

pub consume_line-crlf :
    (line rest : Bytes)
    → NoNewline line
    → consume_line (line ++ (b'\r' ∷ b'\n' ∷ rest)) ≡ (line, rest)
unfolding consume_line
consume_line-crlf [] rest h = refl
consume_line-crlf (c ∷ line) rest h = ground (arith, consume_line-crlf line rest h.2)

-- Each call makes progress while there is text.
pub consume_line-shorter : (text : Bytes) → text ≢ [] → length (consume_line text).1 < length text
unfolding consume_line skip_newline
consume_line-shorter [] h = absurd (h refl)
consume_line-shorter (c ∷ []) h = ground arith
consume_line-shorter (c ∷ d ∷ cs) h = ground (arith, consume_line-shorter (d ∷ cs))
