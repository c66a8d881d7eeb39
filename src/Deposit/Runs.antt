-- ===== src/Deposit/Runs.antt =====
-- Runs of a depository: the calls of its clients, the rounds of its thread and its destruction, in any
-- order.
use telling.Deposit.{Depository, deposit, claim, expire_round, destroy, Flow}
use telling.Headers.Number.{ℤ}
use telling.Prelude.{ℕ, ◌^◌, ◌<◌, ◌≡◌, ◌≢◌, Bool, Option, none, some, List, [], ◌∷◌}
use telling.Prelude.Table.{find}

pub data Call {ℓ} (A : Type ℓ) : Type ℓ where
  deposits : A → ℤ → ℕ → Call A
  claims : ℕ → Call A
  thread_at : ℕ → Call A
  destroys : Call A

module _ {ℓ} {A : Type ℓ} (moved : A → Option A) (fuel : ℕ) where
  abbrev deposited : Option (Flow × Depository A × Bool) → Option (Depository A)
  deposited none = none
  deposited (some (flow, d, woken)) = some d

  unfoldable pub step : Call A → Depository A → Option (Depository A)
  step (deposits object duration now) d = deposited (deposit fuel object duration now d)
  step (claims number) d = some (claim moved number d).1
  step (thread_at now) d = some (expire_round now d).1
  step destroys d = some (destroy d)

  abbrev pub then_run :
      (Depository A → Option (Depository A)) → Option (Depository A) → Option (Depository A)
  then_run rest none = none
  then_run rest (some d) = rest d

  unfoldable pub run : List (Call A) → Depository A → Option (Depository A)
  unfolding step
  run [] d = some d
  run (c ∷ calls) d = then_run (run calls) (step c d)

  -- Nothing is kept but under the number 0.
  abbrev Bare : Depository A → Type ℓ
  Bare d = (d.claim_number_gen < 2 ^ 32) × ((k : ℕ) → k ≢ 0 → find k d.lockers ≡ none)
