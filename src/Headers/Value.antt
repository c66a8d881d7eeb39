-- ===== src/Headers/Value.antt =====
-- A header's value is its text without the blanks at both ends.
use telling.Headers.{is_blank, skip_blanks, value_last, value_of, is_named, to_lower}
use telling.Prelude.{
  ℕ, ◌+◌, ◌≡◌, refl, ap, ◌∙◌, true, false, [], ◌∷◌, ◌++◌, Bytes, map, arith, Bool-cases, inl, inr,
  take, length, ◌↔◌, if◌then◌else◌,
}

abbrev pub AllBlank : Bytes → Type 0
AllBlank [] = Unit {0}
AllBlank (c ∷ s) = (is_blank c ≡ true) × AllBlank s

abbrev pub FirstKept : Bytes → Type 0
FirstKept [] = Unit {0}
FirstKept (c ∷ s) = is_blank c ≡ false

abbrev pub LastKept : Bytes → Type 0
LastKept [] = Unit {0}
LastKept (c ∷ []) = is_blank c ≡ false
LastKept (c ∷ d ∷ s) = LastKept (d ∷ s)

-- `value` is `text` without the blanks before and behind it.
pub record Trims (text value : Bytes) : Type 0 where
  pub before : Bytes
  pub behind : Bytes
  pub splits : text ≡ before ++ (value ++ behind)
  pub before_blank : AllBlank before
  pub behind_blank : AllBlank behind
  pub first_kept : FirstKept value
  pub last_kept : LastKept value

-- What `value_last` leaves, as a recursion on the text.
abbrev trim_cons : ℕ → Bytes → Bytes
trim_cons c [] = if is_blank c then [] else c ∷ []
trim_cons c (d ∷ s) = c ∷ d ∷ s

abbrev trim_end : Bytes → Bytes
trim_end [] = []
trim_end (c ∷ s) = trim_cons c (trim_end s)

abbrev last_or : ℕ → ℕ → Bytes → ℕ
last_or i v_last [] = v_last
last_or i v_last (c ∷ s) = i + length (c ∷ s)

value_last-trim_end :
    (i v_last : ℕ) (s : Bytes) → value_last i v_last s ≡ last_or i v_last (trim_end s)
unfolding value_last
value_last-trim_end i v_last [] = refl
value_last-trim_end i v_last (c ∷ s) = elim (Bool-cases (is_blank c)) [
  | inl h ↦ let ih = value_last-trim_end (i + 1) v_last s in ground arith
  | inr h ↦ let ih = value_last-trim_end (i + 1) (i + 1) s in ground arith
]

take-trim_end : (s : Bytes) → take (length (trim_end s)) s ≡ trim_end s
take-trim_end [] = refl
take-trim_end (c ∷ s) = ground (arith, take-trim_end s)

value_of-trim_end : (s : Bytes) → take (value_last 0 0 s) s ≡ trim_end s
value_of-trim_end s =
    let last = value_last-trim_end 0 0 s in let taken = take-trim_end s in ground arith

trim_cons-splits :
    (c : ℕ) (t behind : Bytes)
    → AllBlank behind
    → (b : Bytes) × AllBlank b × (c ∷ (t ++ behind) ≡ trim_cons c t ++ b)
trim_cons-splits c [] behind blank = elim (Bool-cases (is_blank c)) [
  | inl h ↦ rw h (c ∷ behind, (h, blank), refl)
  | inr h ↦ rw h (behind, blank, refl)
]
trim_cons-splits c (d ∷ t) behind blank = (behind, blank, refl)

trim_end-splits : (s : Bytes) → (behind : Bytes) × AllBlank behind × (s ≡ trim_end s ++ behind)
trim_end-splits [] = ([], tt, refl)
trim_end-splits (c ∷ s) =
    let (behind, blank, e) = trim_end-splits s in
    let (b, all, e') = trim_cons-splits c (trim_end s) behind blank in (b, all, ap (◌∷◌ c) e ∙ e')

trim_end-LastKept : (s : Bytes) → LastKept (trim_end s)
trim_end-LastKept [] = tt
trim_end-LastKept (c ∷ s) = ground (arith, trim_end-LastKept s)

trim_end-FirstKept : (s : Bytes) → FirstKept s → FirstKept (trim_end s)
trim_end-FirstKept [] h = tt
trim_end-FirstKept (c ∷ s) h = ground arith

skip_blanks-splits :
    (s : Bytes)
    → (before : Bytes) × AllBlank before × (s ≡ before ++ skip_blanks s) × FirstKept (skip_blanks s)
unfolding skip_blanks
skip_blanks-splits [] = ([], tt, refl, tt)
skip_blanks-splits (c ∷ s) = elim (Bool-cases (is_blank c)) [
  | inl h ↦
      let (before, blank, e, first) = skip_blanks-splits s in
      rw h (c ∷ before, (h, blank), ap (◌∷◌ c) e, first)
  | inr h ↦ rw h ([], tt, refl, h)
]

-- The value that is parsed of a header's text is the text without the blanks at its ends.
pub value_of-Trims : (text : Bytes) → Trims text (value_of text)
unfolding value_of
value_of-Trims text =
    let (before, before_blank, split, first) = skip_blanks-splits text in
    let (behind, behind_blank, split') = trim_end-splits (skip_blanks text) in
    rw (value_of-trim_end (skip_blanks text)) (record {
      before = before;
      behind = behind;
      splits = split ∙ ap (λ s. before ++ s) split';
      before_blank = before_blank;
      behind_blank = behind_blank;
      first_kept = trim_end-FirstKept (skip_blanks text) first;
      last_kept = trim_end-LastKept (skip_blanks text);
    })

-- Two names match where they are equal once their capitals are lowered.
pub is_named_iff :
    (name header_name : Bytes)
    → (is_named name header_name ≡ true) ↔ (map to_lower name ≡ map to_lower header_name)
unfolding is_named
is_named_iff (c ∷ name) (d ∷ header_name) = ground (arith, is_named_iff name header_name)
is_named_iff _ _ = ground arith
