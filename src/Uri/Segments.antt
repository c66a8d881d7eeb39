-- ===== src/Uri/Segments.antt =====
-- The elements of a path.
use telling.Prelude.{
  ℕ, zero, suc, ◌+◌, ◌-◌, ◌≡◌, refl, ap, ◌∙◌, true, false, Option, none, some, [], ◌∷◌, ◌++◌, Bytes,
  ◌==◌, arith, Bool-cases, inl, inr, ◌↔◌, drop-append, length, take, drop, if◌then◌else◌,
}
use telling.Uri.{
  front, pop_front, front_range, range, first_slash, first_not_slash, subpath, has_prefix, text_of,
  position_or,
}

abbrev pub skip_slashes : Bytes → Bytes
skip_slashes [] = []
skip_slashes (c ∷ s) = if c == b'/' then skip_slashes s else c ∷ s

abbrev pub before_slash : Bytes → Bytes
before_slash [] = []
before_slash (c ∷ s) = if c == b'/' then [] else c ∷ before_slash s

abbrev pub from_slash : Bytes → Bytes
from_slash [] = []
from_slash (c ∷ s) = if c == b'/' then c ∷ s else from_slash s

abbrev lead : Bytes → ℕ
lead [] = 0
lead (c ∷ s) = if c == b'/' then suc (lead s) else 0

abbrev found : ℕ → Bytes → Option ℕ
found i [] = none
found i (c ∷ s) = some i

first_not_slash-lead :
    (i : ℕ) (u : Bytes) → first_not_slash i u ≡ found (i + lead u) (skip_slashes u)
unfolding first_not_slash
first_not_slash-lead i [] = refl
first_not_slash-lead i (c ∷ s) = elim (Bool-cases (c == b'/')) [
  | inl h ↦
      let e : i + 1 + lead s ≡ i + suc (lead s) = omega arith in
      rw h (first_not_slash-lead (i + 1) s ∙ ap (λ n. found n (skip_slashes s)) e)
  | inr h ↦ let e : i ≡ i + 0 = omega arith in rw h (ap some e)
]

drop-lead : (u : Bytes) → drop (lead u) u ≡ skip_slashes u
drop-lead [] = refl
drop-lead (c ∷ s) = ground (arith, drop-lead s)

length-lead : (u : Bytes) → length u ≡ lead u + length (skip_slashes u)
length-lead [] = omega arith
length-lead (c ∷ s) = ground (arith, length-lead s)

first_slash-before_slash :
    (i n : ℕ) (s : Bytes)
    → n ≡ i + length s
    → position_or (first_slash i s) n ≡ i + length (before_slash s)
unfolding first_slash
first_slash-before_slash i n [] h = omega arith
first_slash-before_slash i n (c ∷ s) h = elim (Bool-cases (c == b'/')) [
  | inl e ↦ rw e (omega arith)
  | inr e ↦ rw e (omega (arith, first_slash-before_slash (i + 1) n s (omega arith)))
]

take-before_slash : (s : Bytes) → take (length (before_slash s)) s ≡ before_slash s
take-before_slash [] = refl
take-before_slash (c ∷ s) = ground (arith, take-before_slash s)

drop-from_slash : (s : Bytes) → drop (length (before_slash s)) s ≡ from_slash s
drop-from_slash [] = refl
drop-from_slash (c ∷ s) = ground (arith, drop-from_slash s)

drop-drop : (m n : ℕ) (s : Bytes) → drop (m + n) s ≡ drop n (drop m s)
drop-drop zero n s = let e : 0 + n ≡ n = omega arith in rw e refl
drop-drop (suc m) zero [] = let e : suc m + 0 ≡ suc m = omega arith in rw e refl
drop-drop (suc m) (suc n) [] = let e : suc m + suc n ≡ suc (m + suc n) = omega arith in rw e refl
drop-drop (suc m) n (c ∷ s) =
    let e : suc m + n ≡ suc (m + n) = omega arith in rw e (drop-drop m n s)

pub has_prefix-append : (p rest : Bytes) → has_prefix p (p ++ rest) ≡ true
unfolding has_prefix
has_prefix-append [] [] = refl
has_prefix-append [] (c ∷ rest) = refl
has_prefix-append (c ∷ p) rest = ground (arith, has_prefix-append p rest)

pub has_prefix-drop : (p s : Bytes) → has_prefix p s ≡ true → p ++ drop (length p) s ≡ s
unfolding has_prefix
has_prefix-drop [] [] h = refl
has_prefix-drop [] (c ∷ s) h = refl
has_prefix-drop (d ∷ p) (c ∷ s) h = ground (arith, has_prefix-drop p s)
has_prefix-drop (d ∷ p) [] h = ground arith

-- A URI has the subpath `rest` of a prefix where it is the prefix followed by `rest`.
pub subpath_iff : (p uri rest : Bytes) → (subpath p (some uri) ≡ some rest) ↔ (uri ≡ p ++ rest)
unfolding subpath text_of
subpath_iff p uri rest = (
  λ e. let split = has_prefix-drop p uri in ground arith,
  λ e.
      let holds = has_prefix-append p rest in
      let rest' = drop-append p rest in rw e (rw (holds, rest') refl),
)

abbrev pub pop_spec : Bytes → Bytes → Bytes × Bytes
pop_spec u [] = ([], u)
pop_spec u (c ∷ s) = (before_slash (c ∷ s), from_slash (c ∷ s))

skip_slashes-cons : (u : Bytes) (c : ℕ) (s : Bytes) → skip_slashes u ≡ c ∷ s → c == b'/' ≡ false
skip_slashes-cons [] c s e = cc
skip_slashes-cons (d ∷ u) c s e = ground (arith, skip_slashes-cons u c s)

front_range-nil : (u : Bytes) → skip_slashes u ≡ [] → front_range u ≡ (length u, length u)
unfolding front_range
front_range-nil u e = rw (first_not_slash-lead 0 u, e, front_range) refl

front_range-cons :
    (u : Bytes) (c : ℕ) (s : Bytes)
    → skip_slashes u ≡ c ∷ s
    → front_range u ≡ (lead u, lead u + length (before_slash (c ∷ s)))
unfolding front_range
front_range-cons u c s e =
    let beg : 0 + lead u ≡ lead u = omega arith in
    let at : drop (lead u) u ≡ c ∷ s = drop-lead u ∙ e in
    let end =
      first_slash-before_slash (lead u) (length u) (c ∷ s)
        (omega (arith, length-lead u, ap length e)) in
    rw (first_not_slash-lead 0 u, e, beg, at, end, front_range) refl

front-before_slash :
    (u : Bytes) (c : ℕ) (s : Bytes) → skip_slashes u ≡ c ∷ s → front u ≡ before_slash (c ∷ s)
unfolding front range
front-before_slash u c s e =
    let n = length (before_slash (c ∷ s)) in
    let at : drop (lead u) u ≡ c ∷ s = drop-lead u ∙ e in
    let size : lead u + n - lead u ≡ n = omega arith in
    rw (front_range-cons u c s e, at, size) (take-before_slash (c ∷ s))

front-nil : (u : Bytes) → skip_slashes u ≡ [] → front u ≡ []
unfolding front range
front-nil u e =
    let none_left : length u - length u ≡ 0 = omega arith in
    rw (front_range-nil u e, none_left) refl

drop-from_slash-lead :
    (u : Bytes) (c : ℕ) (s : Bytes)
    → skip_slashes u ≡ c ∷ s
    → drop ((front_range u).0 + length (front u)) u ≡ from_slash (c ∷ s)
drop-from_slash-lead u c s e =
    rw (front_range-cons u c s e, front-before_slash u c s e)
      (drop-drop (lead u) (length (before_slash (c ∷ s))) u
        ∙ ap (drop (length (before_slash (c ∷ s)))) (drop-lead u ∙ e)
        ∙ drop-from_slash (c ∷ s))

pop_front-of : (u t : Bytes) → skip_slashes u ≡ t → pop_front u ≡ pop_spec u t
unfolding pop_front
pop_front-of u [] e = let nothing = front-nil u e in ground arith
pop_front-of u (c ∷ s) e =
    let some_front = front-before_slash u c s e in
    let left = drop-from_slash-lead u c s e in let kept = skip_slashes-cons u c s e in ground arith

-- Popping the front of a path gives what stands between the slashes it starts with and the next
-- slash, and leaves what begins at that slash; of a path of slashes alone it gives nothing and
-- leaves the path.
pub pop_front-pop_spec : (u : Bytes) → pop_front u ≡ pop_spec u (skip_slashes u)
unfolding pop_front
pop_front-pop_spec u = pop_front-of u (skip_slashes u) refl
