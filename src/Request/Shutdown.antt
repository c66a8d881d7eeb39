-- ===== src/Request/Shutdown.antt =====
-- The destructor of Request in src/telling/client_request.cpp.
use telling.Prelude.Table.{find, erase}
use telling.Prelude.{
  ℕ, Bool, true, false, some, List, [], ◌∷◌, Bytes, Option, ◌≡◌, refl, ap, ◌∙◌, arith,
}
use telling.Request.{
  ActionState, Request, notify, settle, react, callback, Event, ends, step, run, Effect,
}
use telling.SendLoop.{canceled}

-- The operations of the active actions end, canceled.
unfoldable pub cancels : Bool → List (ℕ × ActionState) → List Event
cancels has_handler [] = []
cancels has_handler ((i, state) ∷ t) = ends has_handler canceled [] i ∷ cancels has_handler t

module _ (ctx_id : ℕ → ℕ) (prep : ℕ → Bytes → Option Bytes) where
  -- What `~Request` does to the active actions, where no operation has ended by itself before it is
  -- canceled.
  unfoldable pub destroy : Bool → Request → List Effect × Request
  unfolding cancels run
  destroy has_handler c = run ctx_id prep c (cancels has_handler c.active)

  find-first :
      (i : ℕ) (state : ActionState) (t : List (ℕ × ActionState))
      → find i ((i, state) ∷ t) ≡ some state
  unfolding find
  find-first i state t = ground arith

  erase-first :
      (i : ℕ) (state : ActionState) (t : List (ℕ × ActionState)) → erase i ((i, state) ∷ t) ≡ t
  unfolding erase
  erase-first i state t = ground arith

  canceled-erased :
      (has_handler : Bool) (i : ℕ) (state : ActionState) (c : Request)
      → (react has_handler canceled [] i (some state) c).1.active ≡ erase i c.active
  unfolding react settle notify
  canceled-erased true i state c = refl
  canceled-erased false i state c = refl

  cancel-first :
      (has_handler : Bool) (i : ℕ) (state : ActionState) (t : List (ℕ × ActionState)) (c : Request)
      → c.active ≡ (i, state) ∷ t
      → (step ctx_id prep c (ends has_handler canceled [] i)).1.active ≡ t
  unfolding step callback
  cancel-first has_handler i state t c e =
      ap (λ o. (react has_handler canceled [] i o c).1.active)
        (ap (find i) e ∙ find-first i state t)
      ∙ canceled-erased has_handler i state c
      ∙ ap (erase i) e
      ∙ erase-first i state t

  cancel_all :
      (has_handler : Bool) (t : List (ℕ × ActionState)) (c : Request)
      → c.active ≡ t
      → (run ctx_id prep c (cancels has_handler t)).1.active ≡ []
  unfolding cancels run
  cancel_all has_handler [] c e = e
  cancel_all has_handler ((i, state) ∷ t) c e =
      cancel_all has_handler t _ (cancel-first has_handler i state t c e)

  -- Whether the handler is alive or not, once the operations that are pending have ended as canceled,
  -- no action is active, and the destructor's loop ends.
  pub destroy-ends : (has_handler : Bool) (c : Request) → (destroy has_handler c).1.active ≡ []
  unfolding destroy
  destroy-ends has_handler c = cancel_all has_handler c.active c refl
