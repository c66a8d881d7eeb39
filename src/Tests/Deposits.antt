-- ===== src/Tests/Deposits.antt =====
-- The theorems on the depository at concrete inputs.
use telling.Deposit.{Depository, Expiration, expire_rounds, claim}
use telling.Deposit.Expiry.{expire_rounds-passed, sleep, erase_all, expired, unexpired, passed}
use telling.Deposit.Runs.{deposits, claims, thread_at, Call}
use telling.Headers.Number.{pos}
use telling.Prelude.{ℕ, false, Option, none, some, List, [], ◌∷◌, ◌≡◌, refl, arith}

-- Moving out of a std::any of the usual libraries empties it.
abbrev emptied : ℕ → Option ℕ
emptied a = none

abbrev calls : List (Call ℕ)
calls = deposits 7 (pos 5) 1 ∷ claims 1 ∷ thread_at 9 ∷ deposits 8 (pos 5) 9 ∷ []

-- A depository with an object, as a deposit was meant to leave it.
abbrev holding : Depository ℕ
holding = record {
  lockers = (3, some 7) ∷ (4, some 8) ∷ [];
  expire_queue = record { number = 3; expire = 20 } ∷ record { number = 4; expire = 30 } ∷ [];
  claim_number_gen = 4;
  terminate = false;
}

claimed : (claim emptied 3 holding).0 ≡ some 7
unfolding claim
claimed = refl

passed_at_25 : (passed 25 holding).lockers ≡ (4, some 8) ∷ []
unfolding erase_all expired
passed_at_25 = refl

expire_rounds-passed_example :
    expire_rounds 3 25 holding ≡ some (sleep (unexpired 25 holding.expire_queue), passed 25 holding)
expire_rounds-passed_example =
    expire_rounds-passed 3 25 holding (omega arith) ((omega arith, tt), (tt, tt)) refl

abbrev top : Expiration
top = record { number = 3; expire = 20 }

abbrev later : List Expiration
later = record { number = 4; expire = 30 } ∷ []
