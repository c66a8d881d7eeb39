-- ===== src/HostAddress.antt =====
-- include/telling/host_address.h: addresses, their text, and the address of each pattern. The text
-- is that of a build for Linux. A port is a `uint16_t`.
pub mod Port
pub mod Derived
use telling.Pattern.{Pattern, no_pattern, req_rep, pub_sub, push_pull, pair}
use telling.Prelude.{
  ℕ, zero, suc, ◌+◌, ◌-◌, ◌*◌, ◌/◌, ◌%◌, ◌^◌, Bool, true, false, Option, none, some, List, [], ◌∷◌,
  ◌++◌, ◌&&◌, Bytes, codes, same_text, ◌==◌, if◌then◌else◌,
}

-- `Transport::TRANSPORT`
pub data Transport : Type 0 where
  no_transport inproc ipc tcp : Transport

pub record HostAddress : Type 0 where
  pub transport : Transport
  pub number : ℕ
  pub name : Bytes

abbrev pub nil_address : HostAddress
nil_address = record { transport = no_transport; number = 0; name = [] }

-- The comparison of `transport`.
unfoldable pub same_transport : Transport → Transport → Bool
same_transport no_transport no_transport = true
same_transport inproc inproc = true
same_transport ipc ipc = true
same_transport tcp tcp = true
same_transport _ _ = false

-- `HostAddress::operator==`
unfoldable pub same_address : HostAddress → HostAddress → Bool
unfolding same_transport
same_address a b = same_transport a.transport b.transport && elim a.transport [
  | tcp ↦ a.number == b.number
  | inproc ↦ same_text a.name b.name
  | ipc ↦ same_text a.name b.name
  | no_transport ↦ same_text a.name b.name
]

-- `while (port_ != 0) ...`: the digits in `portstr`, the lowest first; none if one would be written
-- past its end.
unfoldable pub port_chars : ℕ → ℕ → Option Bytes
port_chars room zero = some []
port_chars zero (suc n) = none
port_chars (suc room) (suc n) =
    let rest = port_chars room (suc n / 10) in
    elim rest [ none ↦ none | some chars ↦ some ((48 + suc n % 10) ∷ chars) ]

-- `for (unsigned i = ...; i-- > 0;) uri.push_back(portstr[i])`
unfoldable pub push_back_all : Bytes → Bytes → Bytes
push_back_all [] after = after
push_back_all (c ∷ chars) after = push_back_all chars (c ∷ after)

-- What the loop prints; the first element of `portstr` is '0' before any digit is written.
unfoldable pub print_chars : Option Bytes → Option Bytes
unfolding push_back_all
print_chars none = none
print_chars (some []) = some (48 ∷ [])
print_chars (some (c ∷ chars)) = some (push_back_all (c ∷ chars) [])

-- The port in the text; `portstr` has five elements.
unfoldable pub port_text : ℕ → Option Bytes
unfolding port_chars print_chars
port_text n = print_chars (port_chars 5 n)

-- `if (name.length()) uri.append(name); else uri.append("localhost");`
unfoldable pub tcp_host : Bytes → Bytes
tcp_host [] = codes "localhost"
tcp_host (c ∷ name) = c ∷ name

-- `HostAddress::operator std::string`
unfoldable pub address_text : HostAddress → Option Bytes
unfolding port_text tcp_host
address_text a = elim a.transport [
  | inproc ↦ some (codes "inproc://" ++ a.name)
  | ipc ↦ some (codes "ipc:///var/run/" ++ a.name)
  | tcp ↦ elim (port_text a.number) [
    | none ↦ none
    | some port ↦ some (codes "tcp://" ++ tcp_host a.name ++ codes ":" ++ port)
  ]
  | no_transport ↦ some (codes "unknown")
]

-- `Base::Extension`
unfoldable pub extension : Pattern → Option Bytes
extension req_rep = some (codes ".req")
extension pub_sub = some (codes ".sub")
extension push_pull = some (codes ".push")
extension _ = none

-- `uint16_t(p)`
unfoldable pub pattern_number : Pattern → ℕ
pattern_number no_pattern = 65535
pattern_number req_rep = 0
pattern_number pub_sub = 1
pattern_number push_pull = 2
pattern_number pair = 3

-- `Base::PortOffset`
unfoldable pub port_offset : ℕ → Pattern → ℕ
unfolding pattern_number
port_offset base_port p = (base_port + pattern_number p) % 2 ^ 16

unfoldable pub with_suffix : HostAddress → Option Bytes → HostAddress
with_suffix base none = nil_address
with_suffix base (some suffix) = record base { name = base.name ++ suffix }

-- `Base::derived`
unfoldable pub derived : HostAddress → Pattern → HostAddress
unfolding port_offset extension with_suffix
derived base p = elim base.transport [
  | tcp ↦ record base { number = port_offset base.number p }
  | inproc ↦ with_suffix base (extension p)
  | ipc ↦ with_suffix base (extension p)
  | no_transport ↦ nil_address
]
