-- ===== src/HostAddress/Derived.antt =====
-- The addresses of the patterns do not collide.
use telling.HostAddress.{
  HostAddress, no_transport, tcp, derived, same_address, extension, with_suffix, port_offset,
  pattern_number, same_transport,
}
use telling.Pattern.{
  Pattern, no_pattern, req_rep, pub_sub, push_pull, pair, client_side, no_protocol,
}
use telling.Prelude.{ℕ, ◌^◌, ◌<◌, false, [], ◌∷◌, ◌++◌, Bytes, ◌≡◌, ◌≢◌, refl, arith, same_text}

same_text-append_left : (a x y : Bytes) → same_text (a ++ x) (a ++ y) ≡ same_text x y
unfolding same_text
same_text-append_left [] x y = refl
same_text-append_left (c ∷ a) x y = ground (arith, same_text-append_left a x y)

extension-distinct :
    (base : HostAddress) (p q : Pattern)
    → client_side p ≢ no_protocol
    → client_side q ≢ no_protocol
    → p ≢ q
    → same_text (with_suffix base (extension p)).name (with_suffix base (extension q)).name ≡ false
unfolding extension with_suffix same_text client_side
extension-distinct base req_rep pub_sub _ _ _ = same_text-append_left base.name _ _
extension-distinct base req_rep push_pull _ _ _ = same_text-append_left base.name _ _
extension-distinct base pub_sub req_rep _ _ _ = same_text-append_left base.name _ _
extension-distinct base pub_sub push_pull _ _ _ = same_text-append_left base.name _ _
extension-distinct base push_pull req_rep _ _ _ = same_text-append_left base.name _ _
extension-distinct base push_pull pub_sub _ _ _ = same_text-append_left base.name _ _
extension-distinct base req_rep req_rep _ _ ne = elim (ne refl) [ ]
extension-distinct base pub_sub pub_sub _ _ ne = elim (ne refl) [ ]
extension-distinct base push_pull push_pull _ _ ne = elim (ne refl) [ ]
extension-distinct base no_pattern _ hp _ _ = elim (hp refl) [ ]
extension-distinct base pair _ hp _ _ = elim (hp refl) [ ]
extension-distinct base _ no_pattern _ hq _ = elim (hq refl) [ ]
extension-distinct base _ pair _ hq _ = elim (hq refl) [ ]

port_offset-distinct :
    (n : ℕ) (p q : Pattern)
    → n < 2 ^ 16
    → client_side p ≢ no_protocol
    → client_side q ≢ no_protocol
    → p ≢ q
    → port_offset n p ≢ port_offset n q
unfolding port_offset pattern_number client_side
port_offset-distinct n req_rep pub_sub h _ _ _ = omega arith
port_offset-distinct n req_rep push_pull h _ _ _ = omega arith
port_offset-distinct n pub_sub req_rep h _ _ _ = omega arith
port_offset-distinct n pub_sub push_pull h _ _ _ = omega arith
port_offset-distinct n push_pull req_rep h _ _ _ = omega arith
port_offset-distinct n push_pull pub_sub h _ _ _ = omega arith
port_offset-distinct n req_rep req_rep _ _ _ ne = elim (ne refl) [ ]
port_offset-distinct n pub_sub pub_sub _ _ _ ne = elim (ne refl) [ ]
port_offset-distinct n push_pull push_pull _ _ _ ne = elim (ne refl) [ ]
port_offset-distinct n no_pattern _ _ hp _ _ = elim (hp refl) [ ]
port_offset-distinct n pair _ _ hp _ _ = elim (hp refl) [ ]
port_offset-distinct n _ no_pattern _ _ hq _ = elim (hq refl) [ ]
port_offset-distinct n _ pair _ _ hq _ = elim (hq refl) [ ]

with_suffix-transport :
    (base : HostAddress) (p : Pattern)
    → client_side p ≢ no_protocol
    → (with_suffix base (extension p)).transport ≡ base.transport
unfolding with_suffix extension client_side
with_suffix-transport base req_rep hp = refl
with_suffix-transport base pub_sub hp = refl
with_suffix-transport base push_pull hp = refl
with_suffix-transport base no_pattern hp = elim (hp refl) [ ]
with_suffix-transport base pair hp = elim (hp refl) [ ]

same_name :
    (a b : HostAddress)
    → a.transport ≢ tcp
    → same_text a.name b.name ≡ false
    → same_address a b ≡ false
unfolding same_address
same_name a b t h = ground arith

-- Of one base address, two different patterns that a client can use have addresses that
-- `operator==` tells apart: the base has a transport, and its port is below 2^16.
pub derived-distinct :
    (base : HostAddress) (p q : Pattern)
    → base.transport ≢ no_transport
    → base.number < 2 ^ 16
    → client_side p ≢ no_protocol
    → client_side q ≢ no_protocol
    → p ≢ q
    → same_address (derived base p) (derived base q) ≡ false
unfolding derived same_address same_transport
derived-distinct base p q t h hp hq ne =
    let distinct = port_offset-distinct base.number p q h hp hq ne in
    let names = extension-distinct base p q hp hq ne in
    let transports = with_suffix-transport base p hp in ground arith
