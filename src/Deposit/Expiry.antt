-- ===== src/Deposit/Expiry.antt =====
-- The expirations: their order, and the loop of `run_expire_thread`.
use telling.Deposit.{
  Depository, Expiration, is_less, enqueue, Round, wait, wait_until, expire_round, expire_top,
  expire_rounds,
}
use telling.Prelude.{
  ℕ, zero, suc, ◌≤◌, ◌<◌, ◌≡◌, refl, ap, arith, false, inl, inr, Option, some, List, [], ◌∷◌,
  Bool-cases, if◌then◌else◌, ltb, length,
}
use telling.Prelude.Table.{erase}

-- Every expiration of the queue is at this time or later.
abbrev pub IsFrom : ℕ → List Expiration → Type 0
IsFrom t [] = Unit
IsFrom t (e ∷ queue) = (t ≤ e.expire) × IsFrom t queue

-- The earliest comes first.
abbrev pub IsOrdered : List Expiration → Type 0
IsOrdered [] = Unit
IsOrdered (e ∷ queue) = IsFrom e.expire queue × IsOrdered queue

IsFrom-le : (s t : ℕ) (queue : List Expiration) → s ≤ t → IsFrom t queue → IsFrom s queue
IsFrom-le s t [] h f = tt
IsFrom-le s t (e ∷ queue) h (at, f) = (omega arith, IsFrom-le s t queue h f)

enqueue-IsFrom :
    (t : ℕ) (e : Expiration) (queue : List Expiration)
    → t ≤ e.expire
    → IsFrom t queue
    → IsFrom t (enqueue e queue)
unfolding enqueue
enqueue-IsFrom t e [] h f = (h, tt)
enqueue-IsFrom t e (o ∷ queue) h (at, f) = elim (Bool-cases (is_less o e)) [
  | inl b ↦ rw b (h, (at, f))
  | inr b ↦ rw b (at, enqueue-IsFrom t e queue h f)
]

pub enqueue-IsOrdered :
    (e : Expiration) (queue : List Expiration) → IsOrdered queue → IsOrdered (enqueue e queue)
unfolding enqueue
enqueue-IsOrdered e [] h = (tt, tt)
enqueue-IsOrdered e (o ∷ queue) (f, h) = elim (Bool-cases (is_less o e)) [
  | inl b ↦
      let le : e.expire ≤ o.expire = ground arith in
      rw b ((le, IsFrom-le e.expire o.expire queue le f), (f, h))
  | inr b ↦ rw b (enqueue-IsFrom o.expire e queue (ground arith) f, enqueue-IsOrdered e queue h)
]

-- What waits until the first expiration of a queue, or for a new one.
abbrev pub sleep : List Expiration → Round
sleep [] = wait
sleep (e ∷ queue) = wait_until e.expire

-- The expirations whose time has passed, and the others.
unfoldable pub expired : ℕ → List Expiration → List Expiration
expired now [] = []
expired now (e ∷ queue) =
    let rest = expired now queue in if ltb e.expire now then e ∷ rest else rest

unfoldable pub unexpired : ℕ → List Expiration → List Expiration
unexpired now [] = []
unexpired now (e ∷ queue) =
    let rest = unexpired now queue in if ltb e.expire now then rest else e ∷ rest

from_now :
    (now : ℕ) (queue : List Expiration)
    → IsFrom now queue
    → (expired now queue ≡ []) × (unexpired now queue ≡ queue)
unfolding expired unexpired
from_now now [] f = (refl, refl)
from_now now (e ∷ queue) (at, f) =
    let (none_left, all_kept) = from_now now queue f in
    let late : ltb e.expire now ≡ false = ground arith in
    (rw late none_left, rw late (ap (◌∷◌ e) all_kept))

module _ {ℓ} {A : Type ℓ} where
  unfoldable pub erase_all : List Expiration → List (ℕ × Option A) → List (ℕ × Option A)
  unfolding erase
  erase_all [] lockers = lockers
  erase_all (e ∷ es) lockers = erase_all es (erase e.number lockers)

  -- What is left of a depository at a time.
  abbrev pub passed : ℕ → Depository A → Depository A
  passed now d = record d {
    lockers = erase_all (expired now d.expire_queue) d.lockers;
    expire_queue = unexpired now d.expire_queue;
  }

  rounds_of_queue :
      (fuel now gen : ℕ) (queue : List Expiration) (lockers : List (ℕ × Option A))
      → length queue < fuel
      → IsOrdered queue
      → let d : Depository A = record {
        lockers = lockers;
        expire_queue = queue;
        claim_number_gen = gen;
        terminate = false;
      } in
        expire_rounds fuel now d ≡ some (sleep (unexpired now queue), passed now d)
  unfolding expire_rounds expire_round expire_top erase_all unexpired expired
  rounds_of_queue zero now gen queue lockers enough h = absurd (omega arith)
  rounds_of_queue (suc fuel) now gen [] lockers enough h = refl
  rounds_of_queue (suc fuel) now gen (e ∷ queue) lockers enough (f, h) =
      elim (Bool-cases (ltb e.expire now)) [
        | inl b ↦
            let ih = rounds_of_queue fuel now gen queue (erase e.number lockers) (omega arith) h in
            rw b ih
        | inr b ↦
            let kept = from_now now queue (IsFrom-le now e.expire queue (ground arith) f) in
            rw (b, kept.0, kept.1) refl
      ]

  -- The thread of the depository, woken at a time, throws away exactly the expirations whose time has
  -- passed and erases their numbers' objects, in at most one round more than there are expirations.
  -- Then it waits for the time of the first that is left, or for a deposit where none is.
  pub expire_rounds-passed :
      (fuel now : ℕ) (d : Depository A)
      → length d.expire_queue < fuel
      → IsOrdered d.expire_queue
      → d.terminate ≡ false
      → expire_rounds fuel now d ≡ some (sleep (unexpired now d.expire_queue), passed now d)
  expire_rounds-passed fuel now d enough ordered running =
      rw running
        (rounds_of_queue fuel now d.claim_number_gen d.expire_queue d.lockers enough ordered)
