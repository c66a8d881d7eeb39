-- ===== src/Status/Reasons.antt =====
-- Every reason phrase fits a start line.
use telling.Lines.Split.{NoNewline}
use telling.Prelude.{ℕ, ◌≤◌, List, [], ◌∷◌, Bytes, length, arith}
use telling.Status.{reason_phrases, find_phrase, or_undefined, reason_phrase}

abbrev pub Fits : Bytes → Type 0
Fits phrase = NoNewline phrase × (length phrase ≤ 128)

abbrev AllFit : List (ℕ × Bytes) → Type 0
AllFit [] = Unit {0}
AllFit ((c, phrase) ∷ table) = Fits phrase × AllFit table

find_phrase-Fits :
    (code : ℕ) (table : List (ℕ × Bytes)) → AllFit table → Fits (find_phrase code table)
unfolding find_phrase
find_phrase-Fits code [] h = (tt, omega arith)
find_phrase-Fits code ((c, phrase) ∷ table) h = ground (arith, find_phrase-Fits code table h.1)

reason_phrases-AllFit : AllFit reason_phrases
unfolding reason_phrases
reason_phrases-AllFit = omega arith

or_undefined-Fits : (phrase : Bytes) → Fits phrase → Fits (or_undefined phrase)
unfolding or_undefined
or_undefined-Fits [] h = omega arith
or_undefined-Fits (c ∷ cs) h = h

-- Whatever the status, its reason phrase holds no end of line and is at most 128 bytes long, the
-- longest that a layout takes.
pub reason_phrase-Fits : (code : ℕ) → Fits (reason_phrase code)
unfolding reason_phrase
reason_phrase-Fits code =
    or_undefined-Fits (find_phrase code reason_phrases)
      (find_phrase-Fits code reason_phrases reason_phrases-AllFit)
