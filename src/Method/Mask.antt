-- ===== src/Method/Mask.antt =====
-- include/telling/msg_method.h, class Methods: a set of methods as the bits of a uint32_t.
-- `mask | (1 << c)` and `mask & ~(1 << c)` are a sum and a difference where the bit is to change.
use telling.Method.{MethodCode}
use telling.Prelude.{ℕ, ◌+◌, ◌-◌, ◌/◌, ◌%◌, ◌^◌, Bool, ◌==◌, if◌then◌else◌, Option, none, some}

-- `mask_t(m.code)`; a shift by that of Unknown, 2^32 - 1, is undefined.
unfoldable pub shift : MethodCode → Option ℕ
shift MethodCode.unknown = none
shift MethodCode.none = some 0
shift MethodCode.get = some 1
shift MethodCode.head = some 2
shift MethodCode.post = some 3
shift MethodCode.put = some 4
shift MethodCode.delete = some 5
shift MethodCode.patch = some 6
shift MethodCode.options = some 7
shift MethodCode.connect = some 8
shift MethodCode.trace = some 9
shift MethodCode.end_of_valid_methods = some 10

abbrev pub test_bit : ℕ → ℕ → Bool
test_bit mask c = mask / 2 ^ c % 2 == 1

abbrev pub set_bit : ℕ → ℕ → ℕ
set_bit mask c = if test_bit mask c then mask else mask + 2 ^ c

abbrev pub clear_bit : ℕ → ℕ → ℕ
clear_bit mask c = if test_bit mask c then mask - 2 ^ c else mask

-- `insert` does nothing for Unknown and None.
unfoldable pub insert : MethodCode → ℕ → ℕ
unfolding shift
insert MethodCode.none mask = mask
insert m mask = elim (shift m) [ none ↦ mask | some c ↦ set_bit mask c ]

-- `erase` and `contains` shift by every code; `none` is the undefined shift.
unfoldable pub erase : MethodCode → ℕ → Option ℕ
unfolding shift
erase m mask = elim (shift m) [ none ↦ none | some c ↦ some (clear_bit mask c) ]

unfoldable pub contains : MethodCode → ℕ → Option Bool
unfolding shift
contains m mask = elim (shift m) [ none ↦ none | some c ↦ some (test_bit mask c) ]

-- `All`: ~mask_t(1)
abbrev pub all_methods : ℕ
all_methods = 2 ^ 32 - 2
