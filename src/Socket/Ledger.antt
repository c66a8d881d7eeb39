-- ===== src/Socket/Ledger.antt =====
-- The dialers and listeners that nng made for a socket and that were destroyed, counted.
use telling.Socket.{
  ListenerOrDialer, Effect, makes, destroys, closes_socket, pipe_event, destroy_found, destroy_all,
}
use telling.Prelude.{
  ℕ, ◌+◌, Option, none, some, List, [], ◌∷◌, ◌++◌, Bytes, ◌≡◌, refl, arith, ◌==◌, inl, inr,
  Bool-cases, same_text, same_text_iff, subst,
}
use telling.Prelude.Dictionary.{find, erase}
use telling.Prelude.Table.{one_if}

-- How often nng made a connector with an id, how often one was destroyed, and how many a socket has.
abbrev pub made_times : ℕ → List Effect → ℕ
made_times id [] = 0
made_times id (makes i ∷ effects) = one_if (id == i) + made_times id effects
made_times id (destroys i ∷ effects) = made_times id effects
made_times id (closes_socket ∷ effects) = made_times id effects
made_times id (pipe_event h e ∷ effects) = made_times id effects

abbrev pub destroyed_times : ℕ → List Effect → ℕ
destroyed_times id [] = 0
destroyed_times id (makes i ∷ effects) = destroyed_times id effects
destroyed_times id (destroys i ∷ effects) = one_if (id == i) + destroyed_times id effects
destroyed_times id (closes_socket ∷ effects) = destroyed_times id effects
destroyed_times id (pipe_event h e ∷ effects) = destroyed_times id effects

abbrev pub held : ℕ → List (Bytes × ListenerOrDialer) → ℕ
held id [] = 0
held id ((uri, c) ∷ connectors) = one_if (id == c.handle) + held id connectors

pub made_times-append :
    (id : ℕ) (xs ys : List Effect) → made_times id (xs ++ ys) ≡ made_times id xs + made_times id ys
made_times-append id [] ys = omega arith
made_times-append id (makes i ∷ xs) ys = omega (arith, made_times-append id xs ys)
made_times-append id (destroys i ∷ xs) ys = made_times-append id xs ys
made_times-append id (closes_socket ∷ xs) ys = made_times-append id xs ys
made_times-append id (pipe_event h e ∷ xs) ys = made_times-append id xs ys

pub destroyed_times-append :
    (id : ℕ) (xs ys : List Effect)
    → destroyed_times id (xs ++ ys) ≡ destroyed_times id xs + destroyed_times id ys
destroyed_times-append id [] ys = omega arith
destroyed_times-append id (makes i ∷ xs) ys = destroyed_times-append id xs ys
destroyed_times-append id (destroys i ∷ xs) ys = omega (arith, destroyed_times-append id xs ys)
destroyed_times-append id (closes_socket ∷ xs) ys = destroyed_times-append id xs ys
destroyed_times-append id (pipe_event h e ∷ xs) ys = destroyed_times-append id xs ys

-- An address has one connector at most.
abbrev pub IsMap : List (Bytes × ListenerOrDialer) → Type 0
IsMap [] = Unit
IsMap ((uri, c) ∷ connectors) = (find uri connectors ≡ none) × IsMap connectors

pub erase-absent :
    (uri : Bytes) (t : List (Bytes × ListenerOrDialer)) → find uri t ≡ none → erase uri t ≡ t
unfolding find erase
erase-absent uri [] h = refl
erase-absent uri ((k, c) ∷ t) h = let ih = erase-absent uri t in ground arith

pub find-erase_none :
    (uri k : Bytes) (t : List (Bytes × ListenerOrDialer))
    → find k t ≡ none
    → find k (erase uri t) ≡ none
unfolding find erase
find-erase_none uri k [] h = refl
find-erase_none uri k ((j, c) ∷ t) h = let ih = find-erase_none uri k t in ground arith

pub erase-IsMap :
    (uri : Bytes) (t : List (Bytes × ListenerOrDialer)) → IsMap t → IsMap (erase uri t)
unfolding erase
erase-IsMap uri [] h = tt
erase-IsMap uri ((k, c) ∷ t) (h, m) = elim (Bool-cases (same_text k uri)) [
  | inl e ↦ rw e (erase-IsMap uri t m)
  | inr e ↦ rw e (find-erase_none uri k t h, erase-IsMap uri t m)
]

pub held-erase :
    (id : ℕ) (uri : Bytes) (t : List (Bytes × ListenerOrDialer))
    → IsMap t
    → held id t ≡ destroyed_times id (destroy_found (find uri t)) + held id (erase uri t)
unfolding find erase
held-erase id uri [] m = refl
held-erase id uri ((k, c) ∷ t) (h, m) = elim (Bool-cases (same_text k uri)) [
  | inl e ↦
      let absent = subst (λ z. find z t ≡ none) ((same_text_iff k uri).0 e) h in
      rw e (rw (erase-absent uri t absent) (omega arith))
  | inr e ↦ rw e (omega (arith, held-erase id uri t m))
]

pub destroyed-destroy_all :
    (id : ℕ) (t : List (Bytes × ListenerOrDialer))
    → (destroyed_times id (destroy_all t) ≡ held id t) × (made_times id (destroy_all t) ≡ 0)
unfolding destroy_all
destroyed-destroy_all id [] = (refl, refl)
destroyed-destroy_all id ((k, c) ∷ t) = let (a, b) = destroyed-destroy_all id t in (omega arith, b)

pub made-destroy_found :
    (id : ℕ) (x : Option ListenerOrDialer) → made_times id (destroy_found x) ≡ 0
made-destroy_found id none = refl
made-destroy_found id (some c) = refl
