-- ===== src/Socket/Connectors.antt =====
-- Runs of a socket over the calls that connect and disconnect it: what becomes of the dialers and
-- listeners that nng makes.
use telling.Socket.{
  Socket, ListenerOrDialer, Made, made_id, failed, Effect, closes_socket, Connecting,
  emplace_connector, connect_made, connect, dial, listen, disconnect, disconnect_all, destroy_all,
  close, is_open, make, open_as, opened, Variant,
}
use telling.Pattern.{Pattern, Role, SocketProtocol, choose}
use telling.Socket.Ledger.{
  made_times, destroyed_times, held, IsMap, made_times-append, destroyed_times-append, erase-IsMap,
  held-erase, destroyed-destroy_all, made-destroy_found,
}
use telling.Prelude.{
  ℕ, ◌+◌, Bool, true, false, Option, none, some, List, [], ◌∷◌, ◌++◌, Bytes, ◌≡◌, refl, sym, ap,
  arith, ◌⊎◌, inl, inr, Bool-cases, subst, append-nil,
}
use telling.Prelude.Dictionary.{find, erase}

pub data Call : Type 0 where
  dials listens : Bytes → Made → Call
  disconnects : Bytes → Call
  disconnects_all closes : Call

-- The state after a call with its effects.
unfoldable pub step : Call → Socket → Socket × List Effect
unfolding dial listen disconnect disconnect_all close
step (dials uri made) s = let (_, s', effects) = dial uri made s in (s', effects)
step (listens uri made) s = let (_, s', effects) = listen uri made s in (s', effects)
step (disconnects uri) s = disconnect uri s
step disconnects_all s = disconnect_all s
step closes s = close s

unfoldable pub run : List Call → Socket → Socket × List Effect
unfolding step
run [] s = (s, [])
run (c ∷ calls) s =
    let (s', effects) = step c s in let (end, later) = run calls s' in (end, effects ++ later)

-- A closed socket has no connectors.
abbrev pub Inv : Socket → Type 0
Inv s = IsMap s.connectors × (is_open s ≡ false → s.connectors ≡ [])

-- What a call keeps: the invariant, and every connector that nng makes is held until it is destroyed.
abbrev Kept : Socket → Socket × List Effect → Type 0
Kept s r =
    Inv r.0
    × ((id : ℕ)
        → held id s.connectors + made_times id r.1
          ≡ destroyed_times id r.1 + held id r.0.connectors)

abbrev state_of : Connecting → Socket × List Effect
state_of (_, s, effects) = (s, effects)

emplace-Kept :
    (x : Option ListenerOrDialer) (b : Bool) (uri : Bytes) (id : ℕ) (s : Socket)
    → find uri s.connectors ≡ x
    → is_open s ≡ true
    → Inv s
    → Kept s (state_of (emplace_connector x b uri id s))
unfolding emplace_connector is_open
emplace-Kept (some old) b uri id s h o i = (i, λ j. omega arith)
emplace-Kept none b uri id s h o (m, e) = (((h, m), λ shut. cc), λ j. omega arith)

connect-Kept :
    (b : Bool) (uri : Bytes) (made : Made) (s : Socket)
    → Inv s
    → Kept s (state_of (connect b uri made s))
unfolding connect connect_made
connect-Kept b uri (failed error) s i = elim (Bool-cases (is_open s)) [
  | inl o ↦ rw o (i, λ j. omega arith)
  | inr o ↦ rw o (i, λ j. omega arith)
]
connect-Kept b uri (made_id id) s i = elim (Bool-cases (is_open s)) [
  | inl o ↦ rw o (emplace-Kept (find uri s.connectors) b uri id s refl o i)
  | inr o ↦ rw o (i, λ j. omega arith)
]

opened-empty :
    (r : Role) (p : Pattern) (id : ℕ) (kind : Option (Variant × SocketProtocol)) (s : Socket)
    → opened r p id kind ≡ some s
    → s.connectors ≡ []
opened-empty r p id none s h = cc
opened-empty r p id (some kind) s h = cc

disconnect-Kept : (uri : Bytes) (s : Socket) → Inv s → Kept s (disconnect uri s)
unfolding disconnect is_open erase find
disconnect-Kept uri s (m, e) = (
  (erase-IsMap uri s.connectors m, λ shut. ap (erase uri) (e shut)),
  λ id.
      let found = held-erase id uri s.connectors m in
      let nothing = made-destroy_found id (find uri s.connectors) in omega (arith, found, nothing),
)

clear-Kept :
    (s s' : Socket) (after : List Effect)
    → s'.connectors ≡ []
    → ((id : ℕ) → (made_times id after ≡ 0) × (destroyed_times id after ≡ 0))
    → Kept s (s', destroy_all s.connectors ++ after)
clear-Kept s s' after empty silent = (
  (subst IsMap (sym empty) tt, λ shut. empty),
  λ id.
      let (a, b) = destroyed-destroy_all id s.connectors in
      omega (
        arith,
        a,
        b,
        (silent id).0,
        (silent id).1,
        made_times-append id (destroy_all s.connectors) after,
        destroyed_times-append id (destroy_all s.connectors) after,
        ap (held id) empty,
      ),
)

step-Kept : (c : Call) (s : Socket) → Inv s → Kept s (step c s)
unfolding step dial listen disconnect_all close
step-Kept (dials uri made) s i = connect-Kept false uri made s i
step-Kept (listens uri made) s i = connect-Kept true uri made s i
step-Kept (disconnects uri) s i = disconnect-Kept uri s i
step-Kept disconnects_all s i =
    subst (λ effects. Kept s (record s { connectors = [] }, effects))
      (append-nil (destroy_all s.connectors))
      (clear-Kept s (record s { connectors = [] }) [] refl (λ id. (refl, refl)))
step-Kept closes s i = elim (Bool-cases (is_open s)) [
  | inl o ↦ rw o (
      clear-Kept s (record s { connectors = []; socket = none }) (closes_socket ∷ []) refl
        (λ id. (refl, refl)))
  | inr o ↦ rw o (i, λ id. omega arith)
]

run-Kept : (calls : List Call) (s : Socket) → Inv s → Kept s (run calls s)
unfolding run
run-Kept [] s i = (i, λ id. omega arith)
run-Kept (c ∷ calls) s i =
    let (i', first) = step-Kept c s i in
    let (i'', later) = run-Kept calls (step c s).0 i' in
    (
      i'',
      λ id. omega (
        arith,
        first id,
        later id,
        made_times-append id (step c s).1 (run calls (step c s).0).1,
        destroyed_times-append id (step c s).1 (run calls (step c s).0).1,
      ),
    )

-- Whatever is called on a new socket, each dialer and listener that nng made for it was destroyed as
-- often as it was made but for those that the socket still holds, each address has one of them at most,
-- and a socket that is not open holds none: after `close` nothing that was made is left.
pub run-releases :
    (r : Role) (p : Pattern) (v : Variant) (id : ℕ) (s : Socket) (calls : List Call)
    → make r p v id ≡ some s
    → IsMap (run calls s).0.connectors
      × ((is_open (run calls s).0 ≡ true) ⊎ ((run calls s).0.connectors ≡ []))
      × ((connector : ℕ)
          → made_times connector (run calls s).1
            ≡ destroyed_times connector (run calls s).1 + held connector (run calls s).0.connectors)
unfolding make
run-releases r p v id s calls h =
    let start : s.connectors ≡ [] = opened-empty r p id (open_as v (choose r p)) s h in
    let ((m, shut), balance) = run-Kept calls s (subst IsMap (sym start) tt, λ _. start) in
    let ends : (is_open (run calls s).0 ≡ true) ⊎ ((run calls s).0.connectors ≡ []) =
      elim (Bool-cases (is_open (run calls s).0)) [ inl o ↦ inl o | inr o ↦ inr (shut o) ] in
    (m, ends, λ c. omega (arith, balance c, ap (held c) start))
