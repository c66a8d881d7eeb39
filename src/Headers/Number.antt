-- ===== src/Headers/Number.antt =====
-- MsgHeaderView::value_dec of src/telling/msg_util.cpp, with `std::from_chars` of an `int64_t` to
-- base 10.
use telling.HostAddress.Port.{read_dec}
use telling.Prelude.{
  ℕ, zero, suc, ◌+◌, ◌-◌, ◌*◌, ◌^◌, ◌<◌, ◌≤◌, Bool, true, ◌&&◌, Option, none, some, [], ◌∷◌, Bytes,
  ◌==◌, ltb, leb, if◌then◌else◌, ◌≡◌, refl, arith, ap, ◌∙◌, subst,
}

-- `int64_t`, in its range.
pub data ℤ : Type 0 where
  pos negsuc : ℕ → ℤ

unfoldable pub is_digit : ℕ → Bool
is_digit c = leb b'0' c && leb c b'9'

-- The number that the digits at the start of a text spell, after `before`.
unfoldable pub leading : ℕ → Bytes → ℕ
unfolding is_digit
leading before [] = before
leading before (c ∷ cs) = if is_digit c then leading (before * 10 + (c - b'0')) cs else before

-- The digits that `std::from_chars` matches, if there are any.
unfoldable pub matched : Bytes → Option ℕ
unfolding is_digit leading
matched [] = none
matched (c ∷ cs) = if is_digit c then some (leading 0 (c ∷ cs)) else none

-- The value that is stored: none of a number out of range, nor where nothing is matched.
unfoldable pub store_positive : Option ℕ → ℤ → ℤ
store_positive none int_value = int_value
store_positive (some n) int_value = if ltb n (2 ^ 63) then pos n else int_value

unfoldable pub store_negative : Option ℕ → ℤ → ℤ
store_negative none int_value = int_value
store_negative (some zero) int_value = pos 0
store_negative (some (suc n)) int_value = if ltb n (2 ^ 63) then negsuc n else int_value

unfoldable pub from_chars : Bytes → ℤ → ℤ
unfolding matched store_positive store_negative
from_chars [] int_value = int_value
from_chars (c ∷ cs) int_value =
    if c == b'-'
    then store_negative (matched cs) int_value
    else store_positive (matched (c ∷ cs)) int_value

-- `value_dec`. Of an empty value the code looks at the byte behind it, which is the end of its line,
-- so no plus sign.
unfoldable pub value_dec : Bytes → ℤ → ℤ
unfolding from_chars
value_dec [] int_value = int_value
value_dec (c ∷ cs) int_value =
    if c == b'+' then from_chars cs int_value else from_chars (c ∷ cs) int_value

-- Texts of decimal digits only, at least one.
abbrev pub all_digits : Bytes → Bool
all_digits [] = true
all_digits (c ∷ cs) = is_digit c && all_digits cs

leading-all_digits :
    (before : ℕ) (text : Bytes)
    → all_digits text ≡ true
    → leading before text ≡ read_dec before text
unfolding leading
leading-all_digits before [] h = refl
leading-all_digits before (c ∷ cs) h =
    let ih = leading-all_digits (before * 10 + (c - b'0')) cs in ground arith

is_digit-range : (c : ℕ) → is_digit c ≡ true → 48 ≤ c × c ≤ 57
unfolding is_digit
is_digit-range c h = ground arith

matched-all_digits :
    (c : ℕ) (cs : Bytes)
    → all_digits (c ∷ cs) ≡ true
    → is_digit c ≡ true × matched (c ∷ cs) ≡ some (read_dec 0 (c ∷ cs))
unfolding matched
matched-all_digits c cs h =
    let e = leading-all_digits 0 (c ∷ cs) h in
    let d : is_digit c ≡ true = ground arith in (d, ground arith)

store_positive-small :
    (n : ℕ) (int_value : ℤ) → n < 2 ^ 63 → store_positive (some n) int_value ≡ pos n
unfolding store_positive
store_positive-small n int_value h = ground arith

store_negative-small :
    (n : ℕ) (int_value : ℤ) → suc n < 2 ^ 63 → store_negative (some (suc n)) int_value ≡ negsuc n
unfolding store_negative
store_negative-small n int_value h = ground arith

from_chars-positive :
    (c : ℕ) (cs : Bytes) (int_value : ℤ) (n : ℕ)
    → is_digit c ≡ true
    → matched (c ∷ cs) ≡ some n
    → n < 2 ^ 63
    → from_chars (c ∷ cs) int_value ≡ pos n
unfolding from_chars
from_chars-positive c cs int_value n d m small =
    let (low, high) = is_digit-range c d in
    let stored = store_positive-small n int_value small in ground arith

-- The value of a header that is a number in decimal, below 2^63, is that number, with or without a
-- plus sign before it, and behind a minus sign it is the negative number.
pub value_dec-number :
    (c : ℕ) (cs : Bytes) (int_value : ℤ)
    → all_digits (c ∷ cs) ≡ true
    → read_dec 0 (c ∷ cs) < 2 ^ 63
    → value_dec (c ∷ cs) int_value ≡ pos (read_dec 0 (c ∷ cs))
      × value_dec (b'+' ∷ c ∷ cs) int_value ≡ pos (read_dec 0 (c ∷ cs))
      × ((n : ℕ) → read_dec 0 (c ∷ cs) ≡ suc n → value_dec (b'-' ∷ c ∷ cs) int_value ≡ negsuc n)
unfolding value_dec from_chars
value_dec-number c cs int_value h small =
    let (d, m) = matched-all_digits c cs h in
    let (low, high) = is_digit-range c d in
    let p = from_chars-positive c cs int_value (read_dec 0 (c ∷ cs)) d m small in
    (
      ground arith,
      p,
      λ n e.
          ap (λ o. store_negative o int_value) (m ∙ ap some e)
          ∙ store_negative-small n int_value (subst (λ k. k < 2 ^ 63) e small),
    )
