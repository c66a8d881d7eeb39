-- ===== src/MsgError.antt =====
-- include/telling/msg_util.h, class MsgError, and the results of code that throws MsgException.
use telling.Prelude.{◌≡◌, ◌≢◌, refl}

pub data MsgError : Type 0 where
  success header_incomplete header_malformed header_too_big : MsgError
  start_line_malformed already_written unknown_protocol : MsgError

-- `nospc` is the nng::exception that MsgWriter throws for want of room, `undefined` what C++ leaves
-- undefined. `no_fuel` is no result of the code: it marks a loop that was given too few rounds.
pub data Result {ℓ} (A : Type ℓ) : Type ℓ where
  ok : A → Result A
  err : MsgError → Result A
  nospc undefined no_fuel : Result A

infixl 5 ◌>>=◌
abbrev pub ◌>>=◌ {ℓ κ} : {A : Type ℓ} {B : Type κ} → Result A → (A → Result B) → Result B
ok a >>= f = f a
err e >>= f = err e
nospc >>= f = nospc
undefined >>= f = undefined
no_fuel >>= f = no_fuel

module _ {ℓ κ} {B : Type ℓ} {C : Type κ} (next : B → Result C) where
  -- How a sequence of a step and `next` has come to its value.
  pub record Continues (first : Result B) (c : C) : Type (ℓ ⊔ κ) where
    pub between : B
    pub first_is : first ≡ ok between
    pub next_is : next between ≡ ok c

  pub >>=-Continues : (first : Result B) (c : C) → (first >>= next) ≡ ok c → Continues first c
  >>=-Continues (ok b) c e = record { between = b; first_is = refl; next_is = e }
  >>=-Continues nospc c e = cc
  >>=-Continues undefined c e = cc
  >>=-Continues no_fuel c e = cc
  >>=-Continues (err why) c e = cc

  pub >>=-ne-no_fuel :
      (first : Result B)
      → ((b : B) → next b ≢ no_fuel)
      → first ≢ no_fuel
      → (first >>= next) ≢ no_fuel
  >>=-ne-no_fuel (ok b) ends e = ends b
  >>=-ne-no_fuel no_fuel ends e = absurd (e refl)
  >>=-ne-no_fuel _ ends e = λ w. cc
