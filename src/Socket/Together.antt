-- ===== src/Socket/Together.antt =====
-- Dial and Listen on several communicators: either all of them are connected or none is.
use telling.HostAddress.{HostAddress}
use telling.Socket.{
  Socket, Outcome, returns, throws, refused, closed, Made, made_id, failed, Connecting, connect,
  connect_made, emplace_connector, is_open, ListenerOrDialer,
}
use telling.Prelude.{
  ℕ, Bool, true, Option, none, some, List, [], ◌∷◌, ◌≡◌, ◌≢◌, refl, sym, ◌∙◌, ap, arith, inl, inr,
  Bool-cases, subst,
}
use telling.Prelude.Dictionary.{find, same_text_refl}
use telling.Socket.Apart.{
  Apart, Apart-trans, assign-at, assign_self, connect-Apart, Freed, disconnect_each-Apart,
  disconnect_each-Freed,
}
use telling.Socket.Group.{
  Arg, Store, Among, assign, base_uri, and_then, or_disconnect, connect_each, disconnect_each,
  connect_all,
}

-- An open socket has a connector at its own address.
abbrev pub Linked : HostAddress → Socket → Type 0
Linked base s = (is_open s ≡ true) × (find (base_uri base s.pattern) s.connectors ≢ none)

-- What `and_then` comes to where it returns.
and_then-returns :
    (r : Connecting) (i : ℕ) (sockets : Store) (rest : Store → Outcome × Store)
    → (and_then r i sockets rest).0 ≡ returns
    → (r.0 ≡ returns) × (and_then r i sockets rest ≡ rest (assign i r.1 sockets))
and_then-returns (returns, s, effects) i sockets rest h = (refl, refl)
and_then-returns (throws error, s, effects) i sockets rest h = cc

and_then-Apart :
    (base : HostAddress) (r : Connecting) (i j : ℕ) (sockets : Store)
    (rest : Store → Outcome × Store)
    → Apart base (sockets i) r.1
    → Apart base (assign i r.1 sockets j) ((rest (assign i r.1 sockets)).1 j)
    → Apart base (sockets j) ((and_then r i sockets rest).1 j)
and_then-Apart base (returns, s, effects) i j sockets rest h k =
    Apart-trans base (sockets j) (assign i s sockets j) ((rest (assign i s sockets)).1 j)
      (assign-at (λ k t. Apart base (sockets k) t) i j s sockets h (refl, λ uri ne. refl)) k
and_then-Apart base (throws error, s, effects) i j sockets rest h k =
    assign-at (λ k t. Apart base (sockets k) t) i j s sockets h (refl, λ uri ne. refl)

connect_each-Apart :
    (b : Bool) (base : HostAddress) (args : List Arg) (sockets : Store) (j : ℕ)
    → Apart base (sockets j) ((connect_each b base args sockets).1 j)
unfolding connect_each
connect_each-Apart b base [] sockets j = (refl, λ uri ne. refl)
connect_each-Apart b base ((none, made) ∷ args) sockets j = connect_each-Apart b base args sockets j
connect_each-Apart b base ((some i, made) ∷ args) sockets j =
    let r = connect b (base_uri base (sockets i).pattern) made (sockets i) in
    and_then-Apart base r i j sockets (connect_each b base args)
      (connect-Apart base b made (sockets i))
      (connect_each-Apart b base args (assign i r.1 sockets) j)

emplace-Linked :
    (base : HostAddress) (x : Option ListenerOrDialer) (b : Bool) (id : ℕ) (s : Socket)
    → find (base_uri base s.pattern) s.connectors ≡ x
    → is_open s ≡ true
    → Linked base (emplace_connector x b (base_uri base s.pattern) id s).1
unfolding emplace_connector find is_open
emplace-Linked base (some old) b id s h o = (o, λ e. cc)
emplace-Linked base none b id s h o =
    (o, λ e. let there = same_text_refl (base_uri base s.pattern) in ground arith)

connect-Linked :
    (base : HostAddress) (b : Bool) (made : Made) (s : Socket)
    → (connect b (base_uri base s.pattern) made s).0 ≡ returns
    → Linked base (connect b (base_uri base s.pattern) made s).1
unfolding connect connect_made
connect-Linked base b (failed error) s h = elim (Bool-cases (is_open s)) [
  | inl o ↦ let bad : throws (refused error) ≡ returns = rw o at h in cc
  | inr o ↦ let bad : throws closed ≡ returns = rw o at h in cc
]
connect-Linked base b (made_id id) s h = elim (Bool-cases (is_open s)) [
  | inl o ↦ rw o (emplace-Linked base (find (base_uri base s.pattern) s.connectors) b id s refl o)
  | inr o ↦ let bad : throws closed ≡ returns = rw o at h in cc
]

connect_each-stays :
    (b : Bool) (base : HostAddress) (args : List Arg) (sockets : Store) (j : ℕ)
    → (connect_each b base args sockets).0 ≡ returns
    → Linked base (sockets j)
    → Linked base ((connect_each b base args sockets).1 j)
unfolding connect_each
connect_each-stays b base [] sockets j h l = l
connect_each-stays b base ((none, made) ∷ args) sockets j h l =
    connect_each-stays b base args sockets j h l
connect_each-stays b base ((some i, made) ∷ args) sockets j h l =
    let r = connect b (base_uri base (sockets i).pattern) made (sockets i) in
    let (ok, next) = and_then-returns r i sockets (connect_each b base args) h in
    rw next (
      connect_each-stays b base args (assign i r.1 sockets) j (sym (ap (λ z. z.0) next) ∙ h) (
        assign-at (λ k t. Linked base t) i j r.1 sockets (connect-Linked base b made (sockets i) ok)
          l))

connect_each-Linked :
    (b : Bool) (base : HostAddress) (args : List Arg) (sockets : Store) (j : ℕ)
    → (connect_each b base args sockets).0 ≡ returns
    → Among j args
    → Linked base ((connect_each b base args sockets).1 j)
unfolding connect_each
connect_each-Linked b base [] sockets j h a = elim a [ ]
connect_each-Linked b base ((none, made) ∷ args) sockets j h a =
    connect_each-Linked b base args sockets j h a
connect_each-Linked b base ((some i, made) ∷ args) sockets j h (inr a) =
    let r = connect b (base_uri base (sockets i).pattern) made (sockets i) in
    let (ok, next) = and_then-returns r i sockets (connect_each b base args) h in
    rw next
      (connect_each-Linked b base args (assign i r.1 sockets) j (sym (ap (λ z. z.0) next) ∙ h) a)
connect_each-Linked b base ((some i, made) ∷ args) sockets j h (inl e) =
    let r = connect b (base_uri base (sockets i).pattern) made (sockets i) in
    let (ok, next) = and_then-returns r i sockets (connect_each b base args) h in
    let here : Linked base (assign i r.1 sockets i) =
      rw (assign_self i r.1 sockets) (connect-Linked base b made (sockets i) ok) in
    rw next (
      connect_each-stays b base args (assign i r.1 sockets) j (sym (ap (λ z. z.0) next) ∙ h)
        (subst (λ k. Linked base (assign i r.1 sockets k)) (sym e) here))

-- Not one of the communicators has what Dial or Listen was to give it, or each has.
abbrev pub Together : HostAddress → List Arg → Outcome × Store → Type 0
Together base args (returns, sockets) = (i : ℕ) → Among i args → Linked base (sockets i)
Together base args (throws error, sockets) = (i : ℕ) → Among i args → Freed base (sockets i)

or_disconnect-Together :
    (base : HostAddress) (args : List Arg) (r : Outcome × Store) (sockets : Store)
    → (r.0 ≡ returns → (i : ℕ) → Among i args → Linked base (r.1 i))
    → ((i : ℕ) → Apart base (sockets i) (r.1 i))
    → Together base args (or_disconnect base args r)
      × ((i : ℕ) → Apart base (sockets i) ((or_disconnect base args r).1 i))
or_disconnect-Together base args (returns, s') sockets linked apart = (linked refl, apart)
or_disconnect-Together base args (throws error, s') sockets linked apart = (
  λ i a. disconnect_each-Freed base args s' i a,
  λ i.
      Apart-trans base (sockets i) (s' i) (disconnect_each base args s' i) (apart i)
        (disconnect_each-Apart base args s' i),
)

-- Dial and Listen connect all of their communicators or none: where they return, each of them is open
-- and has a connector at its own address of the base; where nng or a closed socket makes them throw,
-- none of them has one, also where it had one before. What the sockets have at other addresses stays.
pub connect_all-Together :
    (b : Bool) (base : HostAddress) (args : List Arg) (sockets : Store)
    → Together base args (connect_all b base args sockets)
      × ((i : ℕ) → Apart base (sockets i) ((connect_all b base args sockets).1 i))
unfolding connect_all
connect_all-Together b base args sockets =
    or_disconnect-Together base args (connect_each b base args sockets) sockets
      (λ h i a. connect_each-Linked b base args sockets i h a)
      (connect_each-Apart b base args sockets)
