-- ===== src/Lines.antt =====
-- include/telling/msg_util.h, namespace detail: lines, white space and words of a buffer.
-- A pair of pointers `pos`, `end` is the text between them; `pos` moves by returning the rest.
pub mod Split
use telling.Prelude.{
  ℕ, ◌+◌, ◌-◌, ◌/◌, ◌%◌, ◌^◌, Bool, true, false, ◌&&◌, ◌||◌, List, [], ◌∷◌, Bytes, ◌==◌, leb,
  if◌then◌else◌,
}

-- `if (pos != end && *pos == '\n') ++pos;`
unfoldable pub skip_newline : Bytes → Bytes
skip_newline [] = []
skip_newline (c ∷ rest) = if c == b'\n' then rest else c ∷ rest

-- `ConsumeLine`: the line and what is left behind its end.
unfoldable pub consume_line : Bytes → Bytes × Bytes
unfolding skip_newline
consume_line [] = ([], [])
consume_line (c ∷ cs) =
    let (line, rest) = consume_line cs in
    if c == b'\n' then ([], cs) else if c == b'\r' then ([], skip_newline cs) else (c ∷ line, rest)

-- `IsWhitespace`, on uint32_t: `--cp` wraps at 0, and the mask is shifted.
-- A shift of a uint32_t by 32 or more is masked out by the first factor.
unfoldable pub is_whitespace : ℕ → Bool
is_whitespace cp =
    let cp' = (cp + 2 ^ 32 - 1) % 2 ^ 32 in leb cp' 31 && (0x80001F00 / 2 ^ cp') % 2 == 1

unfoldable pub consume_whitespace : Bytes → Bytes
unfolding is_whitespace
consume_whitespace [] = []
consume_whitespace (c ∷ cs) = if is_whitespace c then consume_whitespace cs else c ∷ cs

-- The loop of `ConsumeWord`.
unfoldable pub word_from : Bytes → Bytes × Bytes
unfolding is_whitespace
word_from [] = ([], [])
word_from (c ∷ cs) =
    let (word, rest) = word_from cs in if is_whitespace c then ([], c ∷ cs) else (c ∷ word, rest)

unfoldable pub consume_word : Bytes → Bytes × Bytes
unfolding consume_whitespace word_from
consume_word text = word_from (consume_whitespace text)
