-- ===== src/Pattern.antt =====
-- include/telling/pattern.h: communication patterns, roles and the protocols of nng.
use telling.Prelude.{Bytes, codes, Bool, true, false, ◌≢◌, refl}

-- `Pattern::PATTERN`
pub data Pattern : Type 0 where
  no_pattern req_rep pub_sub push_pull pair : Pattern

-- `Role::ROLE`
pub data Role : Type 0 where
  no_role client service broker peer : Role

-- `Protocol::PROTOCOL`
pub data SocketProtocol : Type 0 where
  no_protocol pair_protocol req rep sub pub_protocol push_protocol pull_protocol : SocketProtocol

-- `Protocol::ClientSide`
unfoldable pub client_side : Pattern → SocketProtocol
client_side req_rep = req
client_side pub_sub = sub
client_side push_pull = push_protocol
client_side _ = no_protocol

-- `Protocol::ServerSide`
unfoldable pub server_side : Pattern → SocketProtocol
server_side req_rep = rep
server_side pub_sub = pub_protocol
server_side push_pull = pull_protocol
server_side _ = no_protocol

-- `Protocol::Choose`
unfoldable pub choose : Role → Pattern → SocketProtocol
unfolding client_side server_side
choose client p = client_side p
choose service p = server_side p
choose broker p = server_side p
choose peer pair = pair_protocol
choose peer _ = no_protocol
choose no_role p = no_protocol

-- `Protocol::IsStateful`
unfoldable pub is_stateful : SocketProtocol → Bool
is_stateful req = true
is_stateful rep = true
is_stateful sub = true
is_stateful pull_protocol = true
is_stateful _ = false

-- `Pattern::Name`
unfoldable pub pattern_name : Pattern → Bytes
pattern_name req_rep = codes "REQ_REP"
pattern_name pub_sub = codes "PUB_SUB"
pattern_name push_pull = codes "PUSHPULL"
pattern_name pair = codes "PEER"
pattern_name no_pattern = codes "none"

-- `Role::Name`
unfoldable pub role_name : Role → Bytes
role_name client = codes "CLIENT"
role_name service = codes "SERVICE"
role_name broker = codes "BROKER"
role_name peer = codes "PEER"
role_name no_role = codes "none"

-- `Role::Name4c`
unfoldable pub role_name4c : Role → Bytes
role_name4c client = codes "CLNT"
role_name4c service = codes "SRVC"
role_name4c broker = codes "BROK"
role_name4c peer = codes "PEER"
role_name4c no_role = codes "none"

-- `Protocol::Name`
unfoldable pub protocol_name : SocketProtocol → Bytes
protocol_name pair_protocol = codes "PAIR"
protocol_name req = codes "REQ"
protocol_name rep = codes "REP"
protocol_name sub = codes "SUB"
protocol_name pub_protocol = codes "PUB"
protocol_name push_protocol = codes "PUSH"
protocol_name pull_protocol = codes "PULL"
protocol_name no_protocol = codes "none"

-- The protocols that nng connects: the two ends of one pattern.
pub data Connects : SocketProtocol → SocketProtocol → Type 0 where
  req-rep : Connects req rep
  sub-pub : Connects sub pub_protocol
  push-pull : Connects push_protocol pull_protocol

-- In every pattern that a client can choose a protocol for, its protocol connects with that of the
-- services and that of the brokers of the pattern.
pub choose-Connects :
    (p : Pattern)
    → choose client p ≢ no_protocol
    → Connects (choose client p) (choose service p) × Connects (choose client p) (choose broker p)
unfolding choose
choose-Connects req_rep h = (req-rep, req-rep)
choose-Connects pub_sub h = (sub-pub, sub-pub)
choose-Connects push_pull h = (push-pull, push-pull)
choose-Connects no_pattern h = elim (h refl) [ ]
choose-Connects pair h = elim (h refl) [ ]
