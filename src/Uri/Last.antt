-- ===== src/Uri/Last.antt =====
-- The last element of a path, and what is left without it.
use telling.Prelude.{
  ℕ, zero, suc, ◌+◌, ◌-◌, Bool, true, false, not, ◌&&◌, Option, none, some, [], ◌∷◌, ◌++◌, Bytes,
  if◌then◌else◌, length, take, drop, ◌≡◌, ◌≢◌, refl, sym, ap, ◌∙◌, arith, length-append,
  take-append, drop-append, append_assoc,
}
use telling.Uri.{
  find_last, is_slash, is_not_slash, after_or_zero, back_from, back_range, range, back, pop_range,
  pop_back,
}

find_last-append :
    (test : ℕ → Bool) (i : ℕ) (xs ys : Bytes) (found : Option ℕ)
    → find_last test i (xs ++ ys) found
      ≡ find_last test (i + length xs) ys (find_last test i xs found)
unfolding find_last
find_last-append test i [] ys found = let e : i + 0 ≡ i = omega arith in rw e refl
find_last-append test i (x ∷ xs) ys found =
    let e : i + suc (length xs) ≡ i + 1 + length xs = omega arith in
    rw e (find_last-append test (i + 1) xs ys (if test x then some i else found))

abbrev pub all_fail : (ℕ → Bool) → Bytes → Bool
all_fail test [] = true
all_fail test (c ∷ s) = not (test c) && all_fail test s

find_last-all_fail :
    (test : ℕ → Bool) (i : ℕ) (s : Bytes) (found : Option ℕ)
    → all_fail test s ≡ true
    → find_last test i s found ≡ found
unfolding find_last
find_last-all_fail test i [] found h = refl
find_last-all_fail test i (c ∷ s) found h =
    let first : test c ≡ false = ground arith in
    let rest : all_fail test s ≡ true = ground arith in
    find_last-all_fail test (i + 1) s (if test c then some i else found) rest ∙ rw first refl

abbrev pub slashes : ℕ → Bytes
slashes zero = []
slashes (suc n) = b'/' ∷ slashes n

slashes-fail : (n : ℕ) → all_fail is_not_slash (slashes n) ≡ true
slashes-fail zero = refl
slashes-fail (suc n) = slashes-fail n

-- What may stand before the last element: nothing, or a text that ends with a slash.
pub data Before : Bytes → Type 0 where
  nothing : Before []
  closed : (b : Bytes) → Before (b ++ b'/' ∷ [])

last_slash-Before :
    (before : Bytes)
    → Before before
    → after_or_zero (find_last is_slash 0 before none) ≡ length before
unfolding find_last after_or_zero
last_slash-Before _ nothing = refl
last_slash-Before _ (closed b) =
    ap after_or_zero (find_last-append is_slash 0 b (b'/' ∷ []) none)
    ∙ omega (arith, length-append b (b'/' ∷ []))

back-cons : (u : Bytes) → u ≢ [] → back u ≡ range u (back_range u)
unfolding back
back-cons [] ne = elim (ne refl) [ ]
back-cons (c ∷ s) ne = refl

pop_range-cons : (t u : Bytes) → t ≢ [] → pop_range t u ≡ take (back_range u).0 u
unfolding pop_range
pop_range-cons [] u ne = elim (ne refl) [ ]
pop_range-cons (c ∷ s) u ne = refl

append-ne : (xs ys : Bytes) → xs ≢ [] → xs ++ ys ≢ []
append-ne [] ys ne = elim (ne refl) [ ]
append-ne (x ∷ xs) ys ne = λ e. cc

append-ne_right : (xs ys : Bytes) → ys ≢ [] → xs ++ ys ≢ []
append-ne_right [] ys ne = ne
append-ne_right (x ∷ xs) ys ne = λ e. cc

module _ (before init : Bytes) (c n : ℕ) where
  -- The element, whose last byte is `c`, and the whole text.
  abbrev pub element : Bytes
  element = init ++ c ∷ []

  abbrev pub path : Bytes
  path = (before ++ element) ++ slashes n

  element-ne : element ≢ []
  element-ne = append-ne_right init (c ∷ []) (λ e. cc)

  -- The number of bytes up to the end of the element.
  abbrev through : ℕ
  through = length before + length init + 1

  length-through : length (before ++ element) ≡ through
  length-through = omega (arith, length-append before element, length-append init (c ∷ []))

  over_element :
      (test : ℕ → Bool)
      → find_last test 0 (before ++ element) none ≡ (
          if test c
          then some (length before + length init)
          else find_last test (length before) init (find_last test 0 before none))
  unfolding find_last
  over_element test =
      let e : 0 + length before ≡ length before = omega arith in
      find_last-append test 0 before element none
      ∙ ap (λ k. find_last test k element (find_last test 0 before none)) e
      ∙ find_last-append test (length before) init (c ∷ []) (find_last test 0 before none)

  last_not_slash :
      is_slash c ≡ false → find_last is_not_slash 0 path none ≡ some (length before + length init)
  last_not_slash h =
      find_last-append is_not_slash 0 (before ++ element) (slashes n) none
      ∙ find_last-all_fail is_not_slash _ (slashes n) _ (slashes-fail n)
      ∙ over_element is_not_slash
      ∙ rw h refl

  last_slash :
      all_fail is_slash init ≡ true
      → is_slash c ≡ false
      → find_last is_slash 0 (before ++ element) none ≡ find_last is_slash 0 before none
  last_slash free h =
      over_element is_slash
      ∙ rw h
          (find_last-all_fail is_slash (length before) init (find_last is_slash 0 before none) free)

  take-path : take through path ≡ before ++ element
  take-path =
      ap (λ k. take k path) (sym length-through) ∙ take-append (before ++ element) (slashes n)

  back_range-path :
      Before before
      → all_fail is_slash init ≡ true
      → is_slash c ≡ false
      → back_range path ≡ (length before, through)
  unfolding back_range back_from
  back_range-path b free h =
      let start : after_or_zero (find_last is_slash 0 (take through path) none) ≡ length before =
        ap (λ t. after_or_zero (find_last is_slash 0 t none)) take-path
        ∙ ap after_or_zero (last_slash free h)
        ∙ last_slash-Before before b in
      ap (λ o. back_from o path) (last_not_slash h) ∙ ap (λ k. (k, through)) start

  range-path : range path (length before, through) ≡ element
  unfolding range
  range-path =
      let size : through - length before ≡ length element =
        omega (arith, length-append init (c ∷ [])) in
      let rest = append_assoc before element (slashes n) in
      ap (λ t. take (through - length before) (drop (length before) t)) rest
      ∙ ap (take (through - length before)) (drop-append before (element ++ slashes n))
      ∙ ap (λ k. take k (element ++ slashes n)) size
      ∙ take-append element (slashes n)

  take-before : take (length before) path ≡ before
  take-before =
      ap (take (length before)) (append_assoc before element (slashes n))
      ∙ take-append before (element ++ slashes n)

  -- A text that is nothing or ends with a slash, then an element without slashes, whose last byte is
  -- given, then any number of slashes: `pop_back` returns the element and leaves the text before it.
  pub pop_back-path :
      Before before
      → all_fail is_slash init ≡ true
      → is_slash c ≡ false
      → pop_back path ≡ (element, before)
  unfolding pop_back
  pop_back-path b free h =
      let at = back_range-path b free h in
      let last : back path ≡ element =
        back-cons path
          (append-ne (before ++ element) (slashes n) (append-ne_right before element element-ne))
        ∙ ap (range path) at
        ∙ range-path in
      let left : pop_range (back path) path ≡ before =
        ap (λ t. pop_range t path) last
        ∙ pop_range-cons element path element-ne
        ∙ ap (λ r. take r.0 path) at
        ∙ take-before in
      ap (λ x. (x, pop_range (back path) path)) last ∙ ap (λ y. (element, y)) left
