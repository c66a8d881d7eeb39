-- ===== src/Deposit.antt =====
-- detail::Depository of include/telling/deposit.h: objects that wait under a number to be claimed. The
-- operations run under its mutex; `now` is what DepositClock::now() returns in the call. The queue of
-- expirations is the list in the order in which it gives them. What a moved-from std::any holds is
-- the parameter `moved`.
pub mod Numbers
pub mod Expiry
pub mod Waking
pub mod Claims
pub mod Runs
use telling.Headers.Number.{ℤ, pos, negsuc}
use telling.Prelude.{
  ℕ, zero, suc, ◌+◌, ◌%◌, ◌^◌, Bool, true, false, not, ◌||◌, Option, none, some, List, [], ◌∷◌,
  ◌==◌, ltb, leb, if◌then◌else◌,
}
use telling.Prelude.Table.{find, erase}

-- `Expiration`; a ClaimNumber has 32 bits.
pub record Expiration : Type 0 where
  pub number : ℕ
  pub expire : ℕ

-- An object is a std::any, which can be empty.
pub record Depository {ℓ} (A : Type ℓ) : Type ℓ where
  pub lockers : List (ℕ × Option A)
  pub expire_queue : List Expiration
  pub claim_number_gen : ℕ
  pub terminate : Bool

abbrev pub new {ℓ} : {A : Type ℓ} → Depository A
new = record { lockers = []; expire_queue = []; claim_number_gen = 0; terminate = false }

-- `Expiration::operator<`: the later one is the lesser one.
abbrev pub is_less : Expiration → Expiration → Bool
is_less e o = ltb o.expire e.expire

-- `emplace` of the priority queue: behind every element that is not less.
unfoldable pub enqueue : Expiration → List Expiration → List Expiration
enqueue e [] = e ∷ []
enqueue e (o ∷ queue) =
    let rest = enqueue e queue in if is_less o e then e ∷ o ∷ queue else o ∷ rest

-- `!expireQueue.size() || expiration < expireQueue.top()`
abbrev pub wakes : Expiration → List Expiration → Bool
wakes e [] = true
wakes e (top ∷ queue) = is_less e top

-- How a call of deposit ends: in a `return` or at the end of its body.
pub data Flow : Type 0 where
  returned : ℕ → Flow
  flows_off : Flow

-- What the thread does after a round: it goes on, waits, or ends.
pub data Round : Type 0 where
  again wait ends : Round
  wait_until : ℕ → Round

module _ {ℓ} {A : Type ℓ} where
  -- `lockers.count`
  abbrev pub is_some : Option (Option A) → Bool
  is_some none = false
  is_some (some object) = true

  unfoldable pub count : ℕ → List (ℕ × Option A) → Bool
  count n lockers = is_some (find n lockers)

  -- The `do` loop: the number that it ends with, `none` without fuel.
  unfoldable pub generate : ℕ → List (ℕ × Option A) → ℕ → Option ℕ
  generate zero lockers gen = none
  generate (suc fuel) lockers gen =
      let number = suc gen % 2 ^ 32 in
      let next = generate fuel lockers number in
      if number == 0 || count number lockers then some number else next

  -- `lockers.emplace` leaves an entry that is there.
  abbrev pub emplace : ℕ → A → List (ℕ × Option A) → List (ℕ × Option A)
  emplace n object lockers = if count n lockers then lockers else (n, some object) ∷ lockers

  -- The rest of deposit, with whether it wakes the thread.
  unfoldable pub store : ℕ → A → ℕ → Depository A → Depository A × Bool
  unfolding count enqueue
  store number object expire d =
      let e : Expiration = record { number = number; expire = expire } in
      (
        record d {
          lockers = emplace number object d.lockers;
          expire_queue = enqueue e d.expire_queue;
          claim_number_gen = number;
        },
        wakes e d.expire_queue,
      )

  abbrev pub store_at : Option ℕ → A → ℕ → Depository A → Option (Flow × Depository A × Bool)
  unfolding store
  store_at none object expire d = none
  store_at (some number) object expire d =
      let (d', woken) = store number object expire d in some (flows_off, d', woken)

  -- `deposit` with fuel for its loop.
  unfoldable pub deposit : ℕ → A → ℤ → ℕ → Depository A → Option (Flow × Depository A × Bool)
  unfolding generate store store_at
  deposit fuel object (negsuc n) now d = some (returned 0, d, false)
  deposit fuel object (pos zero) now d = some (returned 0, d, false)
  deposit fuel object (pos (suc n)) now d =
      store_at (generate fuel d.lockers d.claim_number_gen) object (now + suc n) d

  -- The branches of a round.
  unfoldable pub expire_top : ℕ → List Expiration → Depository A → Round × Depository A
  unfolding erase
  expire_top now [] d = (wait, d)
  expire_top now (top ∷ queue) d =
      if ltb top.expire now
      then (again, record d { lockers = erase top.number d.lockers; expire_queue = queue })
      else (wait_until top.expire, d)

  -- A round of the loop of `run_expire_thread`.
  unfoldable pub expire_round : ℕ → Depository A → Round × Depository A
  unfolding expire_top
  expire_round now d = if d.terminate then (ends, d) else expire_top now d.expire_queue d

  abbrev pub go_on :
      Round → Depository A → Option (Round × Depository A) → Option (Round × Depository A)
  go_on again d rest = rest
  go_on wait d rest = some (wait, d)
  go_on ends d rest = some (ends, d)
  go_on (wait_until t) d rest = some (wait_until t, d)

  -- Rounds of the loop until it waits or ends, `none` without fuel.
  unfoldable pub expire_rounds : ℕ → ℕ → Depository A → Option (Round × Depository A)
  unfolding expire_round
  expire_rounds zero now d = none
  expire_rounds (suc fuel) now d =
      let (r, d') = expire_round now d in go_on r d' (expire_rounds fuel now d')

  -- The destructor, up to the `join`.
  abbrev pub destroy : Depository A → Depository A
  destroy d = record d { terminate = true }

  module _ (moved : A → Option A) where
    -- What is left of the object that is moved out.
    abbrev pub left_behind : Option A → Option A
    left_behind none = none
    left_behind (some object) = moved object

    unfoldable pub claim_found : ℕ → Option (Option A) → Depository A → Option A × Depository A
    unfolding erase
    claim_found number none d = (none, d)
    claim_found number (some object) d =
        (object, record d { lockers = (number, left_behind object) ∷ erase number d.lockers })

    unfoldable pub claim : ℕ → Depository A → Option A × Depository A
    unfolding claim_found find
    claim number d = claim_found number (find number d.lockers) d
