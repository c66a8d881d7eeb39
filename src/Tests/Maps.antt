-- ===== src/Tests/Maps.antt =====
-- A prefix map on an association list, which the theorems of the registry are applied at.
use telling.Prelude.{
  ℕ, zero, suc, ◌≤◌, ◌≡◌, ◌≢◌, refl, sym, ap, ◌∙◌, true, Option, none, some, List, [], ◌∷◌, ◌++◌,
  Bytes, Bool-cases, inl, inr, arith, leb, length, take, drop, subst, take-append, length-append,
}
use telling.Prelude.Dictionary.{
  find, erase, emplace, find-emplace_self, find-emplace_ne, find-erase_self, find-erase_ne,
}
use telling.Services.{PrefixMap, MapLaws, Route}
use telling.Uri.Segments.{has_prefix-append, has_prefix-drop}
use telling.Uri.{has_prefix}

abbrev Entries : Type 0
Entries = List (Bytes × Route)

abbrev or_else : Option Route → Option Route → Option Route
or_else none x = x
or_else (some v) x = some v

-- The value at the longest of the first `n` prefixes.
pub prefix_find : ℕ → Bytes → Entries → Option Route
unfolding find
prefix_find zero path t = find [] t
prefix_find (suc n) path t =
    let shorter = prefix_find n path t in or_else (find (take (suc n) path) t) shorter

abbrev pub entries : PrefixMap Route
entries = record {
  Table = Entries;
  empty_map = [];
  find = find;
  emplace = emplace;
  erase = erase;
  longest_prefix = λ path t. prefix_find (length path) path t;
}

take-drop : (n : ℕ) (s : Bytes) → take n s ++ drop n s ≡ s
take-drop zero s = refl
take-drop (suc n) [] = refl
take-drop (suc n) (c ∷ s) = ap (◌∷◌ c) (take-drop n s)

-- The prefix of this length is a key, and no longer one up to `n`.
abbrev Longest : ℕ → Bytes → Entries → Route → Type 0
Longest n path t v =
    (j : ℕ) × (j ≤ n)
    × (find (take j path) t ≡ some v)
    × ((i : ℕ) → i ≤ n → find (take i path) t ≢ none → i ≤ j)

-- The longer prefix is a key, or it is not and a shorter one is the longest.
Longest-step :
    (n : ℕ) (path : Bytes) (t : Entries) (v : Route) (x shorter : Option Route)
    → find (take (suc n) path) t ≡ x
    → or_else x shorter ≡ some v
    → (shorter ≡ some v → Longest n path t v)
    → Longest (suc n) path t v
Longest-step n path t v none shorter h e ih =
    let (j, le, there, longest) = ih e in
    (
      j,
      omega arith,
      there,
      λ i at f. elim (Bool-cases (leb i n)) [
        | inl small ↦ longest i (ground arith) f
        | inr large ↦
            let last : i ≡ suc n = ground arith in
            elim (f (subst (λ z. find (take z path) t ≡ none) (sym last) h)) [ ]
      ],
    )
Longest-step n path t v (some w) shorter h e ih = (suc n, omega arith, h ∙ e, λ i at f. at)

prefix_find-some :
    (n : ℕ) (path : Bytes) (t : Entries) (v : Route)
    → prefix_find n path t ≡ some v
    → Longest n path t v
unfolding prefix_find
prefix_find-some zero path t v e = (0, omega arith, e, λ i h f. h)
prefix_find-some (suc n) path t v e =
    Longest-step n path t v (find (take (suc n) path) t) (prefix_find n path t) refl e
      (prefix_find-some n path t v)

or_else-none : (x y : Option Route) → or_else x y ≡ none → (x ≡ none) × (y ≡ none)
or_else-none none y e = (refl, e)
or_else-none (some w) y e = cc

prefix_find-none :
    (n : ℕ) (path : Bytes) (t : Entries)
    → prefix_find n path t ≡ none
    → (i : ℕ) → i ≤ n
    → find (take i path) t ≡ none
unfolding prefix_find
prefix_find-none zero path t e zero h = e
prefix_find-none zero path t e (suc i) h = ground arith
prefix_find-none (suc n) path t e i h =
    let (here, shorter) = or_else-none (find (take (suc n) path) t) (prefix_find n path t) e in
    elim (Bool-cases (leb i n)) [
      | inl small ↦ prefix_find-none n path t shorter i (ground arith)
      | inr large ↦
          let last : i ≡ suc n = ground arith in
          subst (λ z. find (take z path) t ≡ none) (sym last) here
    ]

has_prefix-take :
    (k path : Bytes)
    → has_prefix k path ≡ true
    → (take (length k) path ≡ k) × (length k ≤ length path)
has_prefix-take k path h =
    let split = has_prefix-drop k path h in
    let rest = drop (length k) path in
    (
      ap (take (length k)) (sym split) ∙ take-append k rest,
      omega (arith, length-append k rest, ap length split),
    )

take-has_prefix : (n : ℕ) (path : Bytes) → has_prefix (take n path) path ≡ true
take-has_prefix n path =
    subst (λ z. has_prefix (take n path) z ≡ true) (take-drop n path)
      (has_prefix-append (take n path) (drop n path))

length-take : (n : ℕ) (path : Bytes) → n ≤ length path → length (take n path) ≡ n
length-take zero path h = refl
length-take (suc n) [] h = ground arith
length-take (suc n) (c ∷ path) h = omega (arith, length-take n path (omega arith))

pub entries-MapLaws : MapLaws entries
unfolding prefix_find find erase emplace
entries-MapLaws = record {
  find-empty_map = λ k. refl;
  find-emplace_self = find-emplace_self;
  find-emplace_ne = find-emplace_ne;
  find-erase_self = find-erase_self;
  find-erase_ne = find-erase_ne;
  longest_prefix-some = λ path t v e.
      let (j, le, there, longest) = prefix_find-some (length path) path t v e in
      (
        take j path,
        there,
        take-has_prefix j path,
        λ k h f.
            let (taken, short) = has_prefix-take k path h in
            let at = longest (length k) short (subst (λ z. find z t ≢ none) (sym taken) f) in
            omega (arith, length-take j path le),
      );
  longest_prefix-none = λ path t e k h.
      let (taken, short) = has_prefix-take k path h in
      subst (λ z. find z t ≡ none) taken (prefix_find-none (length path) path t e (length k) short);
}
