-- ===== src/Headers.antt =====
-- include/telling/msg_headers.h: the headers of a message. A header's views point into its line, so
-- the address of its name, which the iterator steps from, is the start of the line.
pub mod Value
pub mod Block
pub mod Written
pub mod Number
use telling.Lines.{consume_line}
use telling.Prelude.{
  ℕ, zero, suc, ◌+◌, ◌-◌, Bool, true, false, ◌&&◌, ◌||◌, Option, none, some, List, [], ◌∷◌, Bytes,
  ◌==◌, leb, if◌then◌else◌, take,
}

-- `MsgHeaderView`
pub record MsgHeader : Type 0 where
  pub name : Bytes
  pub value : Bytes

-- The first loop of `parse_header`: the name and what stands behind its colon, if there is one
-- before the end of the line.
unfoldable pub find_name : Bytes → Option (Bytes × Bytes)
find_name [] = none
find_name (c ∷ cs) =
    let later = find_name cs in
    if c == b'\r' || c == b'\n'
    then none
    else if c == b':'
    then some ([], cs)
    else elim later [ none ↦ none | some (name, rest) ↦ some (c ∷ name, rest) ]

unfoldable pub is_blank : ℕ → Bool
is_blank c = c == b' ' || c == b'\t'

-- "Consume spaces/tabs before value"
unfoldable pub skip_blanks : Bytes → Bytes
unfolding is_blank
skip_blanks [] = []
skip_blanks (c ∷ cs) = if is_blank c then skip_blanks cs else c ∷ cs

-- "Consume value", at offset `i` from `v_first`: the offset of `v_last`.
unfoldable pub value_last : ℕ → ℕ → Bytes → ℕ
unfolding is_blank
value_last i v_last [] = v_last
value_last i v_last (c ∷ cs) = value_last (i + 1) (if is_blank c then v_last else i + 1) cs

unfoldable pub value_of : Bytes → Bytes
unfolding skip_blanks value_last
value_of i = let v_first = skip_blanks i in take (value_last 0 0 v_first) v_first

-- `parse_header`
unfoldable pub parse_header : Bytes → MsgHeader
unfolding find_name value_of
parse_header line = elim (find_name line) [
  | none ↦ record { name = []; value = value_of line }
  | some (name, rest) ↦ record { name = name; value = value_of rest }
]

-- Stepping `MsgHeaders::iterator` from `begin()` to `end()`; none if the rounds do not suffice.
unfoldable pub read_headers : ℕ → Bytes → Option (List MsgHeader)
unfolding parse_header
read_headers zero p = none
read_headers (suc fuel) [] = some []
read_headers (suc fuel) (c ∷ cs) =
    let (line, rest) = consume_line (c ∷ cs) in
    let others = read_headers fuel rest in
    elim others [ none ↦ none | some headers ↦ some (parse_header line ∷ headers) ]

-- `std::tolower` of a byte, in the "C" locale.
unfoldable pub to_lower : ℕ → ℕ
to_lower c = if leb b'A' c && leb c b'Z' then c + 32 else c

-- `MsgHeaderView::is`
unfoldable pub is_named : Bytes → Bytes → Bool
unfolding to_lower
is_named [] [] = true
is_named (c ∷ name) (d ∷ header_name) = to_lower c == to_lower d && is_named name header_name
is_named _ _ = false
