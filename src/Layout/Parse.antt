-- ===== src/Layout/Parse.antt =====
-- MsgLayout::_parse_msg of src/telling/msg_view.cpp.
use telling.Layout.{MsgType, unknown, reply, report, request, MsgLayout, no_layout, set_start_line}
use telling.Lines.{consume_line}
use telling.MsgError.{header_incomplete, header_too_big, Result, ok, err, no_fuel, ◌>>=◌}
use telling.Prelude.{
  ℕ, zero, suc, ◌+◌, ◌-◌, ◌%◌, ◌^◌, Bool, true, false, ◌||◌, Option, none, some, List, [], ◌∷◌,
  Bytes, has_byte, ◌==◌, ltb, if◌then◌else◌, length, take,
}
use telling.Protocol.{parse, is_valid}

abbrev pub is_empty : Bytes → Bool
is_empty [] = true
is_empty (c ∷ cs) = false

-- The loop over the header lines, up to an empty one: what is left behind it.
unfoldable pub skip_headers : ℕ → Bytes → Result Bytes
skip_headers zero pos = no_fuel
skip_headers (suc fuel) pos =
    let (line, rest) = consume_line pos in
    let next = skip_headers fuel rest in
    if is_empty line then ok rest else if is_empty rest then err header_incomplete else next

-- `while (i < end && *i != ' ') ++i;`
unfoldable pub take_word : Bytes → Bytes × Bytes
take_word [] = ([], [])
take_word (c ∷ cs) =
    let (word, rest) = take_word cs in if c == b' ' then ([], c ∷ cs) else (c ∷ word, rest)

-- The loop that delimits the start line, with `slots` = MAX_PARTS - part_count parts to fill. The
-- last part takes the rest. A line that ends in a space has an empty last element.
unfoldable pub parts_from : ℕ → Bytes → List Bytes
unfolding take_word
parts_from zero i = []
parts_from (suc zero) i = i ∷ []
parts_from (suc (suc slots)) i =
    let (word, rest) = take_word i in
    word ∷ elim rest [ [] ↦ [] | space ∷ rest' ↦ parts_from (suc slots) rest' ]

-- No part where the line is empty.
unfoldable pub line_parts : Bytes → List Bytes
unfolding parts_from
line_parts [] = []
line_parts (c ∷ cs) = parts_from 4 (c ∷ cs)

-- Where the parts stand in the line, from offset `o` on.
unfoldable pub offsets : ℕ → List Bytes → List ℕ
offsets o [] = []
offsets o (part ∷ parts) = o ∷ offsets (o + length part + 1) parts

-- `parts[n].data()`: null where there is no such part.
abbrev pub get_elem? {ℓ} : {A : Type ℓ} → List A → ℕ → Option A
get_elem? [] n = none
get_elem? (x ∷ xs) zero = some x
get_elem? (x ∷ xs) (suc n) = get_elem? xs n

-- `case 2` and what `default` falls through to.
unfoldable pub detect_two : Bytes → Bytes → MsgType
unfolding parse is_valid has_byte
detect_two first second =
    if is_valid (parse second)
    then report
    else if length first == 0 || has_byte b'/' first
    then reply
    else request

-- `if (_type < TYPE(0)) switch (part_count)`
unfoldable pub detect : List Bytes → MsgType
unfolding detect_two
detect [] = unknown
detect (uri ∷ []) = report
detect (first ∷ second ∷ []) = detect_two first second
detect (first ∷ second ∷ third ∷ parts) =
    if is_valid (parse third) then request else detect_two first second

unfoldable pub choose_type : MsgType → List Bytes → MsgType
unfolding detect
choose_type unknown parts = detect parts
choose_type given parts = given

-- The block under "PARSE START-LINE".
unfoldable pub parse_start_line : MsgLayout → MsgType → Bytes → Bytes → Result MsgLayout
parse_start_line l given line line_with_eol =
    let parts = line_parts line in
    let at = offsets 0 parts in
    set_start_line l line_with_eol (choose_type given parts) (get_elem? at 1) (get_elem? at 2)
      (get_elem? at 3)

-- `_parse_msg` once the body is found: its offset, and the start line.
unfoldable pub parse_from : Bytes → MsgType → Bytes → Bytes → Bytes → Result MsgLayout
parse_from begin given start_line header_beg body =
    let p_body = length begin - length body in
    if ltb 0xFFFF p_body
    then err header_too_big
    else parse_start_line (record no_layout { p_body = p_body % 2 ^ 16 }) given start_line
        (take (length begin - length header_beg) begin)

-- `_parse_msg`. A message with bytes has a data pointer.
unfoldable pub parse_msg : Bytes → MsgType → Result MsgLayout
parse_msg [] given = err header_incomplete
parse_msg (b ∷ bs) given =
    let begin : Bytes = b ∷ bs in
    let (start_line, header_beg) = consume_line begin in
    if ltb 0xFFFF (length start_line)
    then err header_too_big
    else if is_empty header_beg
    then err header_incomplete
    else (skip_headers (suc (length header_beg)) header_beg
        >>= parse_from begin given start_line header_beg)
