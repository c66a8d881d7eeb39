-- ===== src/Layout/Parts.antt =====
-- How `_parse_msg` delimits the start line.
use telling.Layout.Bounds.{Rising, Elements}
use telling.Layout.Parse.{take_word, parts_from, line_parts, offsets, get_elem?}
use telling.Prelude.{
  ℕ, zero, suc, ◌+◌, ◌≤◌, ◌≡◌, refl, ◌⊎◌, inl, inr, List, [], ◌∷◌, ◌++◌, Bytes, ◌==◌, Bool-cases,
  ap, subst, length, length-append, arith,
}

-- The text splits into the word and the rest, which is empty or starts at a space.
take_word-append : (i : Bytes) → (take_word i).0 ++ (take_word i).1 ≡ i
unfolding take_word
take_word-append [] = refl
take_word-append (c ∷ cs) = ground (arith, take_word-append cs)

take_word-rest :
    (i : Bytes) → ((take_word i).1 ≡ []) ⊎ ((rest : Bytes) × ((take_word i).1 ≡ b' ' ∷ rest))
unfolding take_word
take_word-rest [] = inl refl
take_word-rest (c ∷ cs) = elim (Bool-cases (c == b' ')) [
  | inl h ↦ inr (cs, ground arith)
  | inr h ↦ rw h (take_word-rest cs)
]

length-take_word : (i : Bytes) → length (take_word i).0 + length (take_word i).1 ≡ length i
length-take_word i =
    omega (arith, length-append (take_word i).0 (take_word i).1, ap length (take_word-append i))

Rising-mono : (lo hi n : ℕ) (os : List ℕ) → lo ≤ hi → Rising hi n os → Rising lo n os
Rising-mono lo hi n [] h r = tt
Rising-mono lo hi n (o ∷ os) h r = (omega arith, r.1, r.2)

-- The parts of a text that starts at `o` stand between `o` and its end.
parts_from-Rising :
    (slots o : ℕ) (i : Bytes) → Rising o (o + length i) (offsets o (parts_from slots i))
unfolding parts_from offsets
parts_from-Rising zero o i = tt
parts_from-Rising (suc zero) o i = (omega arith, omega arith, tt)
parts_from-Rising (suc (suc slots)) o i = elim (take_word-rest i) [
  | inl e ↦ rw e (omega arith, omega arith, tt)
  | inr (rest, e) ↦
      let o' = o + length (take_word i).0 + 1 in
      let ends : o' + length rest ≡ o + length i = omega (arith, length-take_word i, ap length e) in
      let os = offsets o' (parts_from (suc slots) rest) in
      let behind : Rising o' (o + length i) os =
        subst (λ n. Rising o' n os) ends (parts_from-Rising (suc slots) o' rest) in
      rw e (omega arith, omega arith, Rising-mono (o + 1) o' (o + length i) os (omega arith) behind)
]

Rising-Elements :
    (n : ℕ) (os : List ℕ)
    → Rising 0 n os
    → Elements n (get_elem? os 1) (get_elem? os 2) (get_elem? os 3)
Rising-Elements n [] r = tt
Rising-Elements n (a ∷ []) r = tt
Rising-Elements n (a ∷ b ∷ []) r = omega arith
Rising-Elements n (a ∷ b ∷ c ∷ []) r = omega arith
Rising-Elements n (a ∷ b ∷ c ∷ d ∷ os) r = omega arith

-- The elements that the start line is delimited into stand in the line, one behind the other.
pub line_parts-Elements :
    (line : Bytes)
    → let at = offsets 0 (line_parts line) in
      Elements (length line) (get_elem? at 1) (get_elem? at 2) (get_elem? at 3)
unfolding line_parts offsets
line_parts-Elements [] = tt
line_parts-Elements (c ∷ cs) =
    let line : Bytes = c ∷ cs in
    let rising : Rising 0 (length line) (offsets 0 (parts_from 4 line)) =
      subst (λ n. Rising 0 n (offsets 0 (parts_from 4 line))) (omega arith)
        (parts_from-Rising 4 0 line) in
    Rising-Elements (length line) (offsets 0 (parts_from 4 line)) rising
