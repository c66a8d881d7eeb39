-- ===== src/Socket/Apart.antt =====
-- What connecting and disconnecting communicators leaves of the other addresses, and of their own.
use telling.HostAddress.{HostAddress}
use telling.Socket.{
  Socket, Made, made_id, failed, connect, connect_made, emplace_connector, disconnect, is_open,
  ListenerOrDialer,
}
use telling.Prelude.{
  ℕ, Bool, Option, none, some, List, [], ◌∷◌, Bytes, ◌≡◌, ◌≢◌, refl, sym, ◌∙◌, ap, arith, ◌==◌, inl,
  inr, Bool-cases, subst,
}
use telling.Prelude.Dictionary.{find, find-erase_self, find-erase_ne, ne-same_text}
use telling.Socket.Group.{Arg, Store, Among, assign, base_uri, disconnect_each}

-- A socket before and after: the same pattern, and the same connectors at other addresses.
abbrev pub Apart : HostAddress → Socket → Socket → Type 0
Apart base s s' =
    (s'.pattern ≡ s.pattern)
    × ((uri : Bytes)
        → uri ≢ base_uri base s.pattern
        → find uri s'.connectors ≡ find uri s.connectors)

pub Apart-trans :
    (base : HostAddress) (s t u : Socket) → Apart base s t → Apart base t u → Apart base s u
Apart-trans base s t u (p, f) (q, g) =
    (q ∙ p, λ uri ne. g uri (λ e. ne (e ∙ ap (base_uri base) p)) ∙ f uri ne)

-- What is so of a new socket at its place and of the others is so of every place.
pub assign-at :
    (P : ℕ → Socket → Type 0) (i j : ℕ) (s : Socket) (sockets : Store)
    → P i s
    → P j (sockets j)
    → P j (assign i s sockets j)
assign-at P i j s sockets here there = elim (Bool-cases (j == i)) [
  | inl e ↦ let same : i ≡ j = ground arith in rw e (subst (λ z. P z s) same here)
  | inr e ↦ rw e there
]

pub assign_self : (i : ℕ) (s : Socket) (sockets : Store) → assign i s sockets i ≡ s
assign_self i s sockets = ground arith

pub disconnect-Apart :
    (base : HostAddress) (s : Socket) → Apart base s (disconnect (base_uri base s.pattern) s).0
unfolding disconnect
disconnect-Apart base s =
    (refl, λ uri ne. find-erase_ne (base_uri base s.pattern) uri s.connectors ne)

pub emplace-Apart :
    (base : HostAddress) (x : Option ListenerOrDialer) (b : Bool) (id : ℕ) (s : Socket)
    → Apart base s (emplace_connector x b (base_uri base s.pattern) id s).1
unfolding emplace_connector find
emplace-Apart base (some old) b id s = (refl, λ uri ne. refl)
emplace-Apart base none b id s =
    (refl, λ uri ne. rw (ne-same_text (base_uri base s.pattern) uri ne) refl)

pub connect-Apart :
    (base : HostAddress) (b : Bool) (made : Made) (s : Socket)
    → Apart base s (connect b (base_uri base s.pattern) made s).1
unfolding connect connect_made
connect-Apart base b (failed error) s = elim (Bool-cases (is_open s)) [
  | inl o ↦ rw o (refl, λ uri ne. refl)
  | inr o ↦ rw o (refl, λ uri ne. refl)
]
connect-Apart base b (made_id id) s = elim (Bool-cases (is_open s)) [
  | inl o ↦ rw o (emplace-Apart base (find (base_uri base s.pattern) s.connectors) b id s)
  | inr o ↦ rw o (refl, λ uri ne. refl)
]

-- At the own address of a socket there is nothing.
abbrev pub Freed : HostAddress → Socket → Type 0
Freed base s = find (base_uri base s.pattern) s.connectors ≡ none

pub disconnect_each-Apart :
    (base : HostAddress) (args : List Arg) (sockets : Store) (j : ℕ)
    → Apart base (sockets j) (disconnect_each base args sockets j)
unfolding disconnect_each
disconnect_each-Apart base [] sockets j = (refl, λ uri ne. refl)
disconnect_each-Apart base ((none, made) ∷ args) sockets j =
    disconnect_each-Apart base args sockets j
disconnect_each-Apart base ((some i, made) ∷ args) sockets j =
    let s = (disconnect (base_uri base (sockets i).pattern) (sockets i)).0 in
    Apart-trans base (sockets j) (assign i s sockets j)
      (disconnect_each base args (assign i s sockets) j)
      (assign-at (λ k t. Apart base (sockets k) t) i j s sockets (disconnect-Apart base (sockets i))
        (refl, λ uri ne. refl))
      (disconnect_each-Apart base args (assign i s sockets) j)

pub disconnect-Freed :
    (base : HostAddress) (s : Socket) → Freed base (disconnect (base_uri base s.pattern) s).0
unfolding disconnect
disconnect-Freed base s = find-erase_self (base_uri base s.pattern) s.connectors

pub disconnect_each-stays :
    (base : HostAddress) (args : List Arg) (sockets : Store) (j : ℕ)
    → Freed base (sockets j)
    → Freed base (disconnect_each base args sockets j)
unfolding disconnect_each
disconnect_each-stays base [] sockets j h = h
disconnect_each-stays base ((none, made) ∷ args) sockets j h =
    disconnect_each-stays base args sockets j h
disconnect_each-stays base ((some i, made) ∷ args) sockets j h =
    let s = (disconnect (base_uri base (sockets i).pattern) (sockets i)).0 in
    disconnect_each-stays base args (assign i s sockets) j
      (assign-at (λ k t. Freed base t) i j s sockets (disconnect-Freed base (sockets i)) h)

pub disconnect_each-Freed :
    (base : HostAddress) (args : List Arg) (sockets : Store) (j : ℕ)
    → Among j args
    → Freed base (disconnect_each base args sockets j)
unfolding disconnect_each
disconnect_each-Freed base [] sockets j h = elim h [ ]
disconnect_each-Freed base ((none, made) ∷ args) sockets j h =
    disconnect_each-Freed base args sockets j h
disconnect_each-Freed base ((some i, made) ∷ args) sockets j (inr h) =
    disconnect_each-Freed base args
      (assign i (disconnect (base_uri base (sockets i).pattern) (sockets i)).0 sockets) j h
disconnect_each-Freed base ((some i, made) ∷ args) sockets j (inl e) =
    let s = (disconnect (base_uri base (sockets i).pattern) (sockets i)).0 in
    disconnect_each-stays base args (assign i s sockets) j (
      subst (λ k. Freed base (assign i s sockets k)) (sym e)
        (rw (assign_self i s sockets) (disconnect-Freed base (sockets i))))
