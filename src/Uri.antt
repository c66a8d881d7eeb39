-- ===== src/Uri.antt =====
-- include/telling/msg_uri.h. A `UriView` whose pointer may be null is an Option; the other methods
-- have the bytes as they are.
pub mod Segments
pub mod Last
use telling.Prelude.{
  ℕ, zero, suc, ◌+◌, ◌-◌, Bool, true, false, not, ◌&&◌, Option, none, some, List, [], ◌∷◌, Bytes,
  ◌==◌, if◌then◌else◌, length, take, drop,
}

-- `rfind(prefix, 0) == 0`
unfoldable pub has_prefix : Bytes → Bytes → Bool
has_prefix prefix [] = elim prefix [ [] ↦ true | c ∷ p ↦ false ]
has_prefix [] (d ∷ s) = true
has_prefix (c ∷ p) (d ∷ s) = c == d && has_prefix p s

unfoldable pub text_of : Option Bytes → Bytes
text_of none = []
text_of (some s) = s

-- `subpath`. Of a null view, `substr` is a null view.
unfoldable pub subpath : Bytes → Option Bytes → Option Bytes
unfolding has_prefix text_of
subpath prefix uri =
    if has_prefix prefix (text_of uri)
    then elim uri [ none ↦ none | some s ↦ some (drop (length prefix) s) ]
    else none

-- `find_first_not_of('/')` and `find_first_of('/')` of the text behind offset `i`; `npos` is none.
unfoldable pub first_not_slash : ℕ → Bytes → Option ℕ
first_not_slash i [] = none
first_not_slash i (c ∷ s) = if c == b'/' then first_not_slash (i + 1) s else some i

unfoldable pub first_slash : ℕ → Bytes → Option ℕ
first_slash i [] = none
first_slash i (c ∷ s) = if c == b'/' then some i else first_slash (i + 1) s

abbrev pub position_or : Option ℕ → ℕ → ℕ
position_or none n = n
position_or (some i) n = i

-- `front`: the range from `beg` to `end`. From `npos`, `find_first_of` finds nothing.
unfoldable pub front_range : Bytes → ℕ × ℕ
unfolding first_not_slash first_slash
front_range u = elim (first_not_slash 0 u) [
  | none ↦ (length u, length u)
  | some beg ↦ (beg, position_or (first_slash beg (drop beg u)) (length u))
]

unfoldable pub range : Bytes → ℕ × ℕ → Bytes
range u (beg, end) = take (end - beg) (drop beg u)

unfoldable pub front : Bytes → Bytes
unfolding front_range range
front u = range u (front_range u)

-- `pop_front`: the first element, and what the URI becomes.
unfoldable pub pop_front : Bytes → Bytes × Bytes
unfolding front front_range
pop_front u =
    (front u, elim (front u) [ [] ↦ u | c ∷ s ↦ drop ((front_range u).0 + length (front u)) u ])

-- `find_last_not_of('/')`, and `find_last_of('/')` of the text up to a position: the last place, from
-- offset `i`, that the test holds at, or what was found before.
unfoldable pub find_last : (ℕ → Bool) → ℕ → Bytes → Option ℕ → Option ℕ
find_last test i [] found = found
find_last test i (c ∷ s) found = find_last test (i + 1) s (if test c then some i else found)

abbrev pub is_slash : ℕ → Bool
is_slash c = c == b'/'

abbrev pub is_not_slash : ℕ → Bool
is_not_slash c = not (c == b'/')

-- `if (beg == npos) beg = 0; else ++beg;`
unfoldable pub after_or_zero : Option ℕ → ℕ
after_or_zero none = 0
after_or_zero (some i) = i + 1

-- `back`: the range from `beg` to `end`, of a text that is not empty. From `npos`, `find_last_of` looks
-- at all of it.
unfoldable pub back_from : Option ℕ → Bytes → ℕ × ℕ
unfolding find_last after_or_zero
back_from none u = (after_or_zero (find_last is_slash 0 u none), length u)
back_from (some end) u = (after_or_zero (find_last is_slash 0 (take (end + 1) u) none), end + 1)

unfoldable pub back_range : Bytes → ℕ × ℕ
unfolding back_from find_last
back_range u = back_from (find_last is_not_slash 0 u none) u

unfoldable pub back : Bytes → Bytes
unfolding back_range range
back [] = []
back (c ∷ s) = range (c ∷ s) (back_range (c ∷ s))

-- `pop_back`: the last element, and what the URI becomes.
unfoldable pub pop_range : Bytes → Bytes → Bytes
unfolding back_range
pop_range [] u = u
pop_range (c ∷ s) u = take (back_range u).0 u

unfoldable pub pop_back : Bytes → Bytes × Bytes
unfolding back pop_range
pop_back u = (back u, pop_range (back u) u)
