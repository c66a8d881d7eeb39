-- ===== src/Prelude/Table.antt =====
-- A map from numbers, `std::unordered_map` or a set of actions that know their number, as the list of
-- its entries, the last inserted first.
use Prim.Native.Nat.{ℕ, zero, suc, ◌+◌, ◌≤◌, ◌<◌}
use mathlib.Core.Bool.{Bool, true, false}
use mathlib.Core.List.{List, [], ◌∷◌, ◌++◌}
use mathlib.Core.Logic.{◌≢◌}
use mathlib.Core.Option.{Option, none, some}
use mathlib.Core.Path.{◌≡◌, refl, sym, ◌∙◌}
use native.Mathlib.Omega.{arith}
use telling.Prelude.Tests.{◌==◌, if◌then◌else◌}

abbrev pub one_if : Bool → ℕ
one_if true = 1
one_if false = 0

module _ {ℓ} {A : Type ℓ} where
  -- `find`
  unfoldable pub find : ℕ → List (ℕ × A) → Option A
  find k [] = none
  find k ((j, a) ∷ t) = if k == j then some a else find k t

  -- `erase` of a key
  unfoldable pub erase : ℕ → List (ℕ × A) → List (ℕ × A)
  erase k [] = []
  erase k ((j, a) ∷ t) = let rest = erase k t in if k == j then t else (j, a) ∷ rest

  -- An assignment through what `find` returns.
  unfoldable pub update : ℕ → A → List (ℕ × A) → List (ℕ × A)
  update k v [] = []
  update k v ((j, a) ∷ t) = let rest = update k v t in if k == j then (j, v) ∷ t else (j, a) ∷ rest

  -- The entries that a key has: in a map, one at most.
  unfoldable pub entries_of : ℕ → List (ℕ × A) → ℕ
  entries_of k [] = 0
  entries_of k ((j, a) ∷ t) = let rest = entries_of k t in if k == j then suc rest else rest

  pub entries_of-erase :
      (k i : ℕ) (t : List (ℕ × A)) (a : A)
      → find i t ≡ some a
      → entries_of k t ≡ one_if (k == i) + entries_of k (erase i t)
  unfolding find erase entries_of
  entries_of-erase k i [] a h = cc
  entries_of-erase k i ((j, b) ∷ t) a h = let ih = entries_of-erase k i t a in ground arith

  pub entries_of-update :
      (k i : ℕ) (v : A) (t : List (ℕ × A)) → entries_of k (update i v t) ≡ entries_of k t
  unfolding update entries_of
  entries_of-update k i v [] = refl
  entries_of-update k i v ((j, b) ∷ t) = let ih = entries_of-update k i v t in ground arith

  pub find-update :
      (i : ℕ) (v a : A) (t : List (ℕ × A)) → find i t ≡ some a → find i (update i v t) ≡ some v
  unfolding find update
  find-update i v a [] h = cc
  find-update i v a ((j, b) ∷ t) h = let ih = find-update i v a t in ground arith

  pub find-erase_ne : (k i : ℕ) (t : List (ℕ × A)) → k ≢ i → find k (erase i t) ≡ find k t
  unfolding find erase
  find-erase_ne k i [] h = refl
  find-erase_ne k i ((j, b) ∷ t) h = let ih = find-erase_ne k i t h in ground arith

  pub find-entries_of : (k : ℕ) (t : List (ℕ × A)) → entries_of k t ≡ 0 → find k t ≡ none
  unfolding find entries_of
  find-entries_of k [] h = refl
  find-entries_of k ((j, b) ∷ t) h = let ih = find-entries_of k t in ground arith

  pub entries_of-none : (k : ℕ) (t : List (ℕ × A)) → find k t ≡ none → entries_of k t ≡ 0
  unfolding find entries_of
  entries_of-none k [] h = refl
  entries_of-none k ((j, b) ∷ t) h = let ih = entries_of-none k t in ground arith

  pub entries_of-append :
      (k : ℕ) (xs ys : List (ℕ × A)) → entries_of k (xs ++ ys) ≡ entries_of k xs + entries_of k ys
  unfolding entries_of
  entries_of-append k [] ys = omega arith
  entries_of-append k ((j, a) ∷ xs) ys = let ih = entries_of-append k xs ys in ground arith

abbrev pub occurrences : ℕ → List ℕ → ℕ
occurrences k [] = 0
occurrences k (j ∷ js) = one_if (k == j) + occurrences k js

pub occurrences-snoc :
    (k i : ℕ) (is : List ℕ) → occurrences k (is ++ i ∷ []) ≡ one_if (k == i) + occurrences k is
occurrences-snoc k i [] = refl
occurrences-snoc k i (j ∷ is) = omega (arith, occurrences-snoc k i is)

-- The ids that a library gives to the contexts it makes, the first one first.
module _ (ctx_id : ℕ → ℕ) where
  -- How many of the first contexts have an id.
  abbrev pub made_as : ℕ → ℕ → ℕ
  made_as k zero = 0
  made_as k (suc n) = one_if (k == ctx_id n) + made_as k n

  made_as-absent : (k n : ℕ) → ((j : ℕ) → j < n → k ≢ ctx_id j) → made_as k n ≡ 0
  made_as-absent k zero h = refl
  made_as-absent k (suc n) h =
      let ih = made_as-absent k n (λ j l. h j (omega arith)) in
      let ne = h n (omega arith) in ground arith

  pub made_as-once :
      (injective : (i j : ℕ) → ctx_id i ≡ ctx_id j → i ≡ j) (k n : ℕ) → made_as k n ≤ 1
  made_as-once injective k zero = omega arith
  made_as-once injective k (suc n) =
      let ih = made_as-once injective k n in
      let absent : k ≡ ctx_id n → made_as k n ≡ 0 =
        λ e. made_as-absent k n (λ j l e'. let same = injective n j (sym e ∙ e') in omega arith) in
      ground arith
