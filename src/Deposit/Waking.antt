-- ===== src/Deposit/Waking.antt =====
-- What a deposit does to the thread that waits to expire objects.
use telling.Deposit.{Depository, Expiration, again, wait_until, expire_round}
use telling.Prelude.{ℕ, ◌≤◌, ◌<◌, ◌≡◌, List, ◌∷◌}
use telling.Prelude.Table.{erase}

module _ {ℓ} {A : Type ℓ} where
  -- What the thread does after a deposit that has put an expiration before the others, and before
  -- that.
  pub record Oversleeps (now : ℕ) (top : Expiration) (expire : ℕ) (queue : List Expiration)
      (d d' : Depository A) : Type ℓ where
    pub sleeps : expire_round now d ≡ (wait_until top.expire, d)
    pub should_wait : (t : ℕ) → t ≤ expire → expire_round t d' ≡ (wait_until expire, d')
    pub should_erase :
        (t : ℕ)
        → expire < t
        → expire_round t d' ≡ (
          again,
          record d' { lockers = erase d'.claim_number_gen d'.lockers; expire_queue = top ∷ queue },
        )
