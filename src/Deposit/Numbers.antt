-- ===== src/Deposit/Numbers.antt =====
-- The claim numbers that deposit gives.
use telling.Deposit.{
  Depository, count, generate, deposit, store, store_at, emplace, Flow, flows_off,
}
use telling.Headers.Number.{pos}
use telling.Prelude.{
  ℕ, zero, suc, ◌+◌, ◌%◌, ◌^◌, ◌≤◌, ◌<◌, ◌≡◌, ◌≢◌, refl, ap, arith, Bool, true, ◌⊎◌, inl, inr, ◌||◌,
  Option, some, List, ◌==◌, Bool-cases,
}
use telling.Prelude.Table.{find}

module _ {ℓ} {A : Type ℓ} where
  -- Zero, or the number of an entry of the table.
  abbrev pub IsTaken : List (ℕ × Option A) → ℕ → Type 0
  IsTaken lockers n = (n ≡ 0) ⊎ (count n lockers ≡ true)

  count-IsTaken :
      (lockers : List (ℕ × Option A)) (n : ℕ)
      → ((n == 0) || count n lockers) ≡ true
      → IsTaken lockers n
  count-IsTaken lockers n h = elim (Bool-cases (n == 0)) [
    | inl e ↦ inl (ground arith)
    | inr e ↦ inr (ground arith)
  ]

  -- With enough fuel for the range of the numbers the loop ends, at a number that is taken.
  pub generate_lem :
      (fuel : ℕ) (lockers : List (ℕ × Option A)) (gen : ℕ)
      → gen < 2 ^ 32
      → 2 ^ 32 ≤ gen + fuel
      → (n : ℕ) × (generate fuel lockers gen ≡ some n) × IsTaken lockers n × (n < 2 ^ 32)
  unfolding generate
  generate_lem zero lockers gen h enough = absurd (omega arith)
  generate_lem (suc fuel) lockers gen h enough =
      let number = suc gen % 2 ^ 32 in
      elim (Bool-cases ((number == 0) || count number lockers)) [
        | inl stop ↦ (number, rw stop refl, count-IsTaken lockers number stop, omega arith)
        | inr on ↦
            let next : number ≡ suc gen = ground arith in
            let (n, e, t, l) = generate_lem fuel lockers number (omega arith) (omega arith) in
            (n, rw on e, t, l)
      ]

  pub emplace_other :
      (n k : ℕ) (object : A) (lockers : List (ℕ × Option A))
      → IsTaken lockers n
      → k ≢ 0
      → find k (emplace n object lockers) ≡ find k lockers
  unfolding find
  emplace_other n k object lockers (inl zeroth) h = elim (Bool-cases (count n lockers)) [
    | inl e ↦ rw e refl
    | inr e ↦ rw e (ground arith)
  ]
  emplace_other n k object lockers (inr e) h = rw e refl

  -- What a deposit leaves of the table under each number but 0.
  abbrev Deposited : ℕ → A → ℕ → Depository A → Option (Flow × Depository A × Bool) → Type ℓ
  Deposited fuel object expire d r =
      (n : ℕ) × (generate fuel d.lockers d.claim_number_gen ≡ some n)
      × IsTaken d.lockers n
      × (r ≡ some (flows_off, (store n object expire d).0, (store n object expire d).1))
      × ((k : ℕ) → k ≢ 0 → find k (store n object expire d).0.lockers ≡ find k d.lockers)

  -- A call of deposit with a positive duration ends, without a `return`. The number that its loop ends
  -- with is 0 or one that is in use, so the object that it is given gets no number that a client can
  -- claim it by: every nonzero number stands for the same as before.
  pub deposit-unclaimable :
      (fuel n now : ℕ) (object : A) (d : Depository A)
      → d.claim_number_gen < 2 ^ 32
      → 2 ^ 32 ≤ d.claim_number_gen + fuel
      → Deposited fuel object (now + suc n) d (deposit fuel object (pos (suc n)) now d)
  unfolding deposit store_at store
  deposit-unclaimable fuel n now object d h enough =
      let (number, e, t, l) = generate_lem fuel d.lockers d.claim_number_gen h enough in
      (
        number,
        e,
        t,
        ap (λ o. store_at o object (now + suc n) d) e,
        λ k ne. emplace_other number k object d.lockers t ne,
      )
