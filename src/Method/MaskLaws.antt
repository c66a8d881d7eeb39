-- ===== src/Method/MaskLaws.antt =====
-- The bits of a mask are a set of methods.
use telling.Method.Mask.{insert, erase, contains}
use telling.Method.{MethodCode, is_valid}
use telling.Prelude.{ℕ, ◌<◌, ◌^◌, ◌≡◌, ◌≢◌, true, false, some, arith}

-- An inserted method is contained, and the mask is still a uint32_t.
pub contains-insert_self :
    (m : MethodCode) (mask : ℕ)
    → is_valid m ≡ true
    → mask < 2 ^ 32
    → (contains m (insert m mask) ≡ some true) × (insert m mask < 2 ^ 32)
unfolding contains insert is_valid
contains-insert_self MethodCode.get mask v h = ground arith
contains-insert_self _ mask v h = ground arith

-- Inserting a method into a mask does not change what the mask says of another method.
pub contains-insert_ne :
    (m n : MethodCode) (mask : ℕ) → m ≢ n → contains n (insert m mask) ≡ contains n mask
unfolding contains insert
contains-insert_ne MethodCode.get n mask ne = ground arith
contains-insert_ne _ n mask ne = ground arith

-- An erased method is no longer contained.
pub contains-erase_self :
    (m : MethodCode) (mask : ℕ) {rest : ℕ} → erase m mask ≡ some rest → contains m rest ≡ some false
unfolding contains erase
contains-erase_self MethodCode.get mask h = ground arith
contains-erase_self _ mask h = ground arith
