-- ===== src/Prelude/Dictionary.antt =====
-- A map from texts, `std::unordered_map<std::string, ...>`, as the list of its entries.
use mathlib.Core.Bool.{true, false}
use mathlib.Core.List.{List, [], ◌∷◌}
use mathlib.Core.Logic.{◌≢◌, inl, inr}
use mathlib.Core.Option.{Option, none, some}
use mathlib.Core.Path.{◌≡◌, refl, sym, subst}
use native.Mathlib.Omega.{arith}
use telling.Prelude.Tests.{Bool-cases, if◌then◌else◌}
use telling.Prelude.Text.{Bytes, same_text, same_text_iff}

pub same_text_refl : (k : Bytes) → same_text k k ≡ true
same_text_refl k = (same_text_iff k k).1 refl

pub ne-same_text : (k k' : Bytes) → k' ≢ k → same_text k k' ≡ false
ne-same_text k k' ne = elim (Bool-cases (same_text k k')) [
  | inl h ↦ elim (ne (sym ((same_text_iff k k').0 h))) [ ]
  | inr h ↦ h
]

module _ {ℓ} {A : Type ℓ} where
  unfoldable pub find : Bytes → List (Bytes × A) → Option A
  find k [] = none
  find k ((key, v) ∷ rest) = if same_text key k then some v else find k rest

  unfoldable pub erase : Bytes → List (Bytes × A) → List (Bytes × A)
  erase k [] = []
  erase k ((key, v) ∷ rest) =
      let rest' = erase k rest in if same_text key k then rest' else (key, v) ∷ rest'

  abbrev pub emplace_at : Option A → Bytes → A → List (Bytes × A) → List (Bytes × A)
  emplace_at none k v t = (k, v) ∷ t
  emplace_at (some old) k v t = t

  -- `emplace` leaves an entry that is there.
  unfoldable pub emplace : Bytes → A → List (Bytes × A) → List (Bytes × A)
  unfolding find
  emplace k v t = emplace_at (find k t) k v t

  find-emplace_at_ne :
      (x : Option A) (k k' : Bytes) (v : A) (t : List (Bytes × A))
      → k' ≢ k
      → find k' (emplace_at x k v t) ≡ find k' t
  unfolding find
  find-emplace_at_ne none k k' v t ne = rw (ne-same_text k k' ne) refl
  find-emplace_at_ne (some old) k k' v t ne = refl

  pub find-emplace_self :
      (k : Bytes) (v : A) (t : List (Bytes × A)) → find k t ≡ none → find k (emplace k v t) ≡ some v
  unfolding find emplace
  find-emplace_self k v t e = rw e (rw (same_text_refl k) refl)

  pub emplace-taken :
      (k : Bytes) (v old : A) (t : List (Bytes × A)) → find k t ≡ some old → emplace k v t ≡ t
  unfolding emplace
  emplace-taken k v old t e = rw e refl

  pub find-emplace_ne :
      (k k' : Bytes) (v : A) (t : List (Bytes × A)) → k' ≢ k → find k' (emplace k v t) ≡ find k' t
  unfolding emplace
  find-emplace_ne k k' v t ne = find-emplace_at_ne (find k t) k k' v t ne

  pub find-erase_self : (k : Bytes) (t : List (Bytes × A)) → find k (erase k t) ≡ none
  unfolding find erase
  find-erase_self k [] = refl
  find-erase_self k ((key, v) ∷ t) = ground (arith, find-erase_self k t)

  pub find-erase_ne :
      (k k' : Bytes) (t : List (Bytes × A)) → k' ≢ k → find k' (erase k t) ≡ find k' t
  unfolding find erase
  find-erase_ne k k' [] ne = refl
  find-erase_ne k k' ((key, v) ∷ t) ne = elim (Bool-cases (same_text key k)) [
    | inl h ↦
        let other =
          subst (λ x. same_text x k' ≡ false) (sym ((same_text_iff key k).0 h))
            (ne-same_text k k' ne) in
        let ih = find-erase_ne k k' t ne in ground arith
    | inr h ↦ let ih = find-erase_ne k k' t ne in ground arith
  ]
