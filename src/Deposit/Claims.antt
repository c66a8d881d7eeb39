-- ===== src/Deposit/Claims.antt =====
-- Claims, and runs of a depository over the calls of its clients and the rounds of its thread.
use mathlib.Core.Option
use telling.Deposit.{Depository, count, claim, claim_found, is_some, left_behind}
use telling.Prelude.{ℕ, ◌≡◌, ◌≢◌, refl, sym, ◌∙◌, ap, arith, Option, none, some}
use telling.Prelude.Table.{find, find-erase_ne}

module _ {ℓ} {A : Type ℓ} (moved : A → Option A) where
  left-none : (empties : (a : A) → moved a ≡ none) (x : Option A) → left_behind moved x ≡ none
  left-none empties none = refl
  left-none empties (some a) = empties a

  -- What a claim gives for what the table has.
  abbrev pub held : Option (Option A) → Option A
  held none = none
  held (some object) = object

  pub claim-held : (k : ℕ) (d : Depository A) → (claim moved k d).0 ≡ held (find k d.lockers)
  unfolding claim claim_found
  claim-held k d = at (find k d.lockers)
    where
      at : (x : Option (Option A)) → (claim_found moved k x d).0 ≡ held x
      at none = refl
      at (some object) = refl

  pub claim_found-find :
      (k i : ℕ) (x : Option (Option A)) (d : Depository A)
      → i ≢ k
      → find i (claim_found moved k x d).1.lockers ≡ find i d.lockers
  unfolding claim_found find
  claim_found-find k i none d ne = refl
  claim_found-find k i (some object) d ne =
      let other = find-erase_ne i k d.lockers ne in ground arith

  find-claim_found :
      (k : ℕ) (x : Option (Option A)) (d : Depository A)
      → find k d.lockers ≡ x
      → find k (claim_found moved k x d).1.lockers ≡ Option.map (left_behind moved) x
  unfolding claim_found find
  find-claim_found k none d h = h
  find-claim_found k (some object) d h = ground arith

  held-map :
      (empties : (a : A) → moved a ≡ none) (x : Option (Option A))
      → held (Option.map (left_behind moved) x) ≡ none
  held-map empties none = refl
  held-map empties (some object) = left-none empties object

  is_some-map : (x : Option (Option A)) → is_some (Option.map (left_behind moved) x) ≡ is_some x
  is_some-map none = refl
  is_some-map (some object) = refl

  -- Where an object that is moved out leaves an empty std::any, a number is claimed once: a second claim
  -- gives nothing. The number stays in use, and a claim of another gives what it gave before.
  pub claim-once :
      (empties : (a : A) → moved a ≡ none) (k i : ℕ) (d : Depository A)
      → i ≢ k
      → let d' = (claim moved k d).1 in
        ((claim moved k d').0 ≡ none)
        × (count k d'.lockers ≡ count k d.lockers)
        × ((claim moved i d').0 ≡ (claim moved i d).0)
  unfolding claim count
  claim-once empties k i d ne =
      let after = find-claim_found k (find k d.lockers) d refl in
      let d' = (claim_found moved k (find k d.lockers) d).1 in
      (
        claim-held k d' ∙ ap held after ∙ held-map empties (find k d.lockers),
        ap is_some after ∙ is_some-map (find k d.lockers),
        claim-held i d'
            ∙ ap held (claim_found-find k i (find k d.lockers) d ne)
            ∙ sym (claim-held i d),
      )
