-- ===== src/ErrorReply/Phrases.antt =====
-- No reason phrase begins with the name of a protocol.
use telling.Layout.Parse.{take_word}
use telling.Prelude.{ℕ, refl, List, [], ◌∷◌, Bytes, arith, same_text}
use telling.Protocol
use telling.Status.{reason_phrases, find_phrase, or_undefined, reason_phrase}
use telling.View.Replies.{NotProtocol}

abbrev AllNotProtocol : List (ℕ × Bytes) → Type 0
AllNotProtocol [] = Unit {0}
AllNotProtocol ((c, phrase) ∷ table) = NotProtocol phrase × AllNotProtocol table

empty-NotProtocol : NotProtocol []
unfolding take_word Protocol.parse Protocol.is_valid
empty-NotProtocol = refl

find_phrase-NotProtocol :
    (code : ℕ) (table : List (ℕ × Bytes))
    → AllNotProtocol table
    → NotProtocol (find_phrase code table)
unfolding find_phrase
find_phrase-NotProtocol code [] h = empty-NotProtocol
find_phrase-NotProtocol code ((c, phrase) ∷ table) h =
    ground (arith, find_phrase-NotProtocol code table h.1)

reason_phrases-AllNotProtocol : AllNotProtocol reason_phrases
unfolding reason_phrases take_word Protocol.parse Protocol.is_valid same_text
reason_phrases-AllNotProtocol = ground arith

or_undefined-NotProtocol : (phrase : Bytes) → NotProtocol phrase → NotProtocol (or_undefined phrase)
unfolding or_undefined take_word Protocol.parse Protocol.is_valid same_text
or_undefined-NotProtocol [] h = refl
or_undefined-NotProtocol (c ∷ cs) h = h

pub reason_phrase-NotProtocol : (code : ℕ) → NotProtocol (reason_phrase code)
unfolding reason_phrase
reason_phrase-NotProtocol code =
    or_undefined-NotProtocol (find_phrase code reason_phrases)
      (find_phrase-NotProtocol code reason_phrases reason_phrases-AllNotProtocol)
