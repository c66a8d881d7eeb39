-- ===== src/HostAddress/Port.antt =====
-- The port's digits fit in their buffer and read back as the port.
use telling.HostAddress.{
  port_chars, push_back_all, print_chars, port_text, HostAddress, Transport, no_transport, inproc,
  ipc, tcp, address_text, derived, with_suffix, port_offset, tcp_host, extension, pattern_number,
}
use telling.Pattern.{Pattern}
use telling.Prelude.{
  ℕ, zero, suc, ◌+◌, ◌-◌, ◌*◌, ◌/◌, ◌^◌, ◌<◌, Option, none, some, [], ◌∷◌, Bytes, ◌≡◌, refl, arith,
  ap, ◌∙◌, sym, ◌≢◌, ◌++◌, codes, Option-cases, inl, inr, ◌%◌,
}

-- The number that decimal digits spell, after `before`.
abbrev pub read_dec : ℕ → Bytes → ℕ
read_dec before [] = before
read_dec before (c ∷ rest) = read_dec (before * 10 + (c - 48)) rest

-- The same of digits with the lowest first.
abbrev low_first : ℕ → Bytes → ℕ
low_first before [] = before
low_first before (c ∷ rest) = low_first before rest * 10 + (c - 48)

read_dec-push_back_all :
    (before : ℕ) (chars after : Bytes)
    → read_dec before (push_back_all chars after) ≡ read_dec (low_first before chars) after
unfolding push_back_all
read_dec-push_back_all before [] after = refl
read_dec-push_back_all before (c ∷ chars) after = read_dec-push_back_all before chars (c ∷ after)

abbrev pub read_port : Option Bytes → Option ℕ
read_port none = none
read_port (some text) = some (read_dec 0 text)

abbrev low_port : Option Bytes → Option ℕ
low_port none = none
low_port (some text) = some (low_first 0 text)

read_port-print_chars : (x : Option Bytes) → read_port (print_chars x) ≡ low_port x
unfolding print_chars
read_port-print_chars none = refl
read_port-print_chars (some []) = refl
read_port-print_chars (some (c ∷ chars)) = ap some (read_dec-push_back_all 0 (c ∷ chars) [])

low_port-cons :
    (room n : ℕ)
    → low_port (port_chars room (suc n / 10)) ≡ some (suc n / 10)
    → low_port (port_chars (suc room) (suc n)) ≡ some (suc n)
unfolding port_chars
low_port-cons room n ih = ground arith

low_port-port_chars : (room n : ℕ) → n < 10 ^ room → low_port (port_chars room n) ≡ some n
unfolding port_chars
low_port-port_chars room zero h = refl
low_port-port_chars zero (suc n) h = ground arith
low_port-port_chars (suc room) (suc n) h =
    let ih = low_port-port_chars room (suc n / 10) (omega arith) in low_port-cons room n ih

-- Every port is printed within the five elements of its buffer, and the text reads back as the port
-- in decimal.
pub read_port-port_text : (n : ℕ) → n < 2 ^ 16 → read_port (port_text n) ≡ some n
unfolding port_text
read_port-port_text n h =
    read_port-print_chars (port_chars 5 n) ∙ low_port-port_chars 5 n (omega arith)

port-text : (n : ℕ) → n < 2 ^ 16 → (text : Bytes) × (port_text n ≡ some text)
port-text n h = elim (Option-cases (port_text n)) [
  | inl e ↦ let bad = sym (ap read_port e) ∙ read_port-port_text n h in cc
  | inr there ↦ there
]

-- The address of these parts, derived for a pattern, has a text.
HasText : Transport → ℕ → Bytes → Pattern → Type 0
HasText t n name p =
    (text : Bytes) × (address_text (derived (record { transport = t; number = n; name = name }) p)
      ≡ some text)

suffixed-text :
    (t : Transport) (n : ℕ) (name : Bytes) (suffix : Option Bytes)
    → t ≢ tcp
    → (text : Bytes) × (address_text
          (with_suffix (record { transport = t; number = n; name = name }) suffix)
        ≡ some text)
unfolding with_suffix address_text
suffixed-text t n name none h = (codes "unknown", refl)
suffixed-text inproc n name (some suffix) h = (_, refl)
suffixed-text ipc n name (some suffix) h = (_, refl)
suffixed-text no_transport n name (some suffix) h = (_, refl)
suffixed-text tcp n name (some suffix) h = absurd (h refl)

parts-HasText : (t : Transport) (n : ℕ) (name : Bytes) (p : Pattern) → HasText t n name p
unfolding HasText derived address_text port_offset
parts-HasText inproc n name p = suffixed-text inproc n name (extension p) (λ h. cc)
parts-HasText ipc n name p = suffixed-text ipc n name (extension p) (λ h. cc)
parts-HasText no_transport n name p = (codes "unknown", refl)
parts-HasText tcp n name p =
    let (port, there) = port-text ((n + pattern_number p) % 2 ^ 16) (omega arith) in
    let print : Option Bytes → Option Bytes = λ o. elim o [
      | none ↦ none
      | some digits ↦ some (codes "tcp://" ++ tcp_host name ++ codes ":" ++ digits)
    ] in
    (codes "tcp://" ++ tcp_host name ++ codes ":" ++ port, ap print there)

-- A derived address has a text: the digits of its port fit their buffer.
pub derived-text :
    (base : HostAddress) (p : Pattern)
    → (text : Bytes) × (address_text (derived base p) ≡ some text)
unfolding HasText
derived-text base p = parts-HasText base.transport base.number base.name p
