-- ===== src/Dht/Env.antt =====
-- What the package `dht` calls in Go's `net` and `encoding/json`, as parameters, and the address
-- text of dht/routing.go. `marshal` and `unmarshal` of a codec are `json.Marshal` and
-- `json.Unmarshal` at one type; `none` is an error.
use mesh_net.Base.{
  ℕ, zero, suc, ◌+◌, ◌/◌, ◌%◌, ltb, if◌then◌else◌, Bool, Option, [], ◌∷◌, ◌++◌, Bytes, codes,
}
use mesh_net.Crypto.{Crypto}
use mesh_net.Dht.NodeId.{ℤ, pos, negsuc}
use mesh_net.Dht.Contact.{Contact}
use mesh_net.Dht.Rpc.{
  PingBody, PongBody, FindNodeBody, FoundNodesBody, StoreBody, FindValueBody, FoundValueBody,
}

pub record Codec (T : Type 0) : Type 0 where
  pub marshal : T → Bytes
  pub unmarshal : Bytes → Option T

pub record Env : Type 0 where
  pub crypto : Crypto
  -- `net.ParseIP` and `IP.String`; `none` is the nil address.
  pub parse_ip : Bytes → Option Bytes
  pub ip_string : Option Bytes → Bytes
  -- `net.SplitHostPort`; `none` is its error.
  pub split_host_port : Bytes → Option (Bytes × Bytes)
  -- The number that `fmt.Sscanf(s, "%d", &n)` leaves in an `n` that was 0.
  pub scan_int : Bytes → ℤ
  -- `json.Marshal` on a `json.RawMessage`
  pub marshal_raw : Bytes → Option Bytes
  pub ping : Codec PingBody
  pub pong : Codec PongBody
  pub find_node : Codec FindNodeBody
  pub found_nodes : Codec FoundNodesBody
  pub store : Codec StoreBody
  pub find_value : Codec FindValueBody
  pub found_value : Codec FoundValueBody

-- The other end of the connections at one time, by the address that is dialled: whether it can be
-- reached, whether it takes all bytes that are written, and what it sends back on reading them.
pub record Network : Type 0 where
  pub reachable : Bytes → Bool
  pub accepts : Bytes → Bytes → Bool
  pub response : Bytes → Bytes → Bytes

-- The decimal digits of a number; a number has fewer digits than `fuel` if it is below `fuel`.
unfoldable pub digits_from : ℕ → ℕ → Bytes → Bytes
digits_from zero n text = text
digits_from (suc fuel) n text =
    let text' : Bytes = (b'0' + n % 10) ∷ text in
    let rest = digits_from fuel (n / 10) text' in if ltb n 10 then text' else rest

-- `%d`
unfoldable pub decimal : ℤ → Bytes
decimal (pos n) = digits_from (suc n) n []
decimal (negsuc n) = b'-' ∷ digits_from (suc (suc n)) (suc n) []

-- `func (c Contact) Addr() string`
unfoldable pub addr : Env → Contact → Bytes
addr env c = codes "[" ++ (env.ip_string c.address ++ (codes "]:" ++ decimal c.port))
