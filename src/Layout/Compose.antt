-- ===== src/Layout/Compose.antt =====
-- Start lines put together from their elements, and the layout that they get.
use telling.Layout.Accept.{Newline, lf, crlf}
use telling.Layout.Parse.{
  take_word, parts_from, line_parts, offsets, get_elem?, choose_type, parse_start_line,
}
use telling.Layout.StartLine.{measured, set_start_line-measured, line_length-lf, line_length-crlf}
use telling.Layout.{MsgType, reply, report, request, MsgLayout, line_length, set_elements}
use telling.Lines.Split.{NoNewline}
use telling.MsgError.{ok}
use telling.Prelude.{
  ℕ, suc, ◌+◌, ◌≤◌, ◌≡◌, ◌≢◌, refl, Option, none, some, List, [], ◌∷◌, ◌++◌, Bytes, ◌∙◌, length,
  arith,
}

abbrev pub NoSpace : Bytes → Type 0
NoSpace [] = Unit {0}
NoSpace (c ∷ cs) = (c ≢ b' ') × NoSpace cs

-- Elements joined by a space.
infixr 66 ◌␣◌
abbrev pub ◌␣◌ : Bytes → Bytes → Bytes
a ␣ b = a ++ (b' ' ∷ b)

take_word-word : (w rest : Bytes) → NoSpace w → take_word (w ␣ rest) ≡ (w, b' ' ∷ rest)
unfolding take_word
take_word-word [] rest h = refl
take_word-word (c ∷ w) rest h = ground (arith, take_word-word w rest h.1)

take_word-end : (w : Bytes) → NoSpace w → take_word w ≡ (w, [])
unfolding take_word
take_word-end [] h = refl
take_word-end (c ∷ w) h = ground (arith, take_word-end w h.1)

parts_from-word :
    (slots : ℕ) (w rest : Bytes)
    → NoSpace w
    → parts_from (suc (suc slots)) (w ␣ rest) ≡ w ∷ parts_from (suc slots) rest
unfolding parts_from
parts_from-word slots w rest h = rw (take_word-word w rest h)

parts_from-end : (slots : ℕ) (w : Bytes) → NoSpace w → parts_from (suc (suc slots)) w ≡ w ∷ []
unfolding parts_from
parts_from-end slots w h = rw (take_word-end w h)

line_parts-space : (a b : Bytes) → line_parts (a ␣ b) ≡ parts_from 4 (a ␣ b)
unfolding line_parts
line_parts-space [] b = refl
line_parts-space (c ∷ a) b = refl

-- Three elements with no space in them.
pub line_parts-three :
    (a b c : Bytes) → NoSpace a → NoSpace b → NoSpace c → line_parts (a ␣ b ␣ c) ≡ a ∷ b ∷ c ∷ []
line_parts-three a b c ha hb hc =
    line_parts-space a (b ␣ c)
    ∙ rw (parts_from-word 2 a (b ␣ c) ha, parts_from-word 1 b c hb, parts_from-end 0 c hc)

-- Two elements, and what the rest is delimited into.
pub line_parts-two :
    (a b rest : Bytes)
    → NoSpace a
    → NoSpace b
    → line_parts (a ␣ b ␣ rest) ≡ a ∷ b ∷ parts_from 2 rest
line_parts-two a b rest ha hb =
    line_parts-space a (b ␣ rest)
    ∙ rw (parts_from-word 2 a (b ␣ rest) ha, parts_from-word 1 b rest hb)

-- Three elements and a fourth that may hold spaces.
pub line_parts-four :
    (a b c d : Bytes)
    → NoSpace a
    → NoSpace b
    → NoSpace c
    → line_parts (a ␣ b ␣ c ␣ d) ≡ a ∷ b ∷ c ∷ d ∷ []
unfolding parts_from
line_parts-four a b c d ha hb hc =
    line_parts-space a (b ␣ c ␣ d)
    ∙ rw (
      parts_from-word 2 a (b ␣ c ␣ d) ha,
      parts_from-word 1 b (c ␣ d) hb,
      parts_from-word 0 c d hc,
    )

-- The layout of a start line, by its parts.
pub line_length-Newline :
    (line nl : Bytes)
    → Newline nl
    → NoNewline line
    → line ≢ []
    → line_length (line ++ nl) ≡ ok (length line)
line_length-Newline line nl lf h ne = line_length-lf line h ne
line_length-Newline line nl crlf h ne = line_length-crlf line

length-Newline : (nl : Bytes) → Newline nl → length nl ≤ 2
length-Newline nl lf = omega arith
length-Newline nl crlf = omega arith

pub parse_start_line-parts :
    (l : MsgLayout) (given : MsgType) (line nl : Bytes) (parts : List Bytes)
    → Newline nl
    → NoNewline line
    → line ≢ []
    → length line ≤ 65535
    → line_parts line ≡ parts
    → let at = offsets 0 parts in
      parse_start_line l given line (line ++ nl)
      ≡ set_elements
          (choose_type given parts)
          (length line)
          (measured l line nl)
          (get_elem? at 1)
          (get_elem? at 2)
          (get_elem? at 3)
unfolding parse_start_line
parse_start_line-parts l given line nl parts n h ne small e = rw e (
    set_start_line-measured l line nl _ _ _ _ (line_length-Newline line nl n h ne) small
      (length-Newline nl n))

-- The layout of `METHOD URI PROTOCOL`.
pub request_layout :
    (l : MsgLayout) (n m u p : ℕ)
    → n ≡ m + 1 + u + 1 + p
    → m ≤ 14
    → p ≤ 149
    → set_elements request n l (some (0 + m + 1)) (some (0 + m + 1 + u + 1)) none
      ≡ ok (record l { uri_pos = m + 1; prt_rpos = p; sts_rpos = 0 })
unfolding set_elements
request_layout l n m u p e hm hp = ground arith

-- The layout of `PROTOCOL STATUS REASON`, where the status has three bytes.
pub reply_layout :
    (l : MsgLayout) (n p s r : ℕ) (fourth : Option ℕ)
    → n ≡ p + 1 + s + 1 + r
    → s ≡ 3
    → r ≤ 128
    → p ≤ 16
    → set_elements reply n l (some (0 + p + 1)) (some (0 + p + 1 + s + 1)) fourth
      ≡ ok (record l { uri_pos = 0; prt_rpos = n; sts_rpos = 4 + r })
unfolding set_elements
reply_layout l n p s r fourth e three hr hp = ground arith

-- The layout of `URI PROTOCOL STATUS REASON`.
pub report_layout :
    (l : MsgLayout) (n u p s r : ℕ)
    → n ≡ u + 1 + p + 1 + s + 1 + r
    → s ≡ 3
    → r ≤ 128
    → p ≤ 16
    → set_elements report n l
        (some (0 + u + 1))
        (some (0 + u + 1 + p + 1))
        (some (0 + u + 1 + p + 1 + s + 1))
      ≡ ok (record l { uri_pos = 0; prt_rpos = p + 1 + 3 + 1 + r; sts_rpos = 4 + r })
unfolding set_elements
report_layout l n u p s r e three hr hp = ground arith
