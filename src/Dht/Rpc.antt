-- ===== src/Dht/Rpc.antt =====
-- The wire protocol of dht/rpc.go: message types, bodies, and the frames of `writeMessage` and
-- `readMessage`. A connection is the list of the bytes that arrive on it before it ends or the
-- deadline passes.
pub mod Frames
use mesh_net.Base.{
  ℕ, zero, suc, ◌+◌, ◌*◌, ◌/◌, ◌%◌, ◌^◌, ◌≡◌, Bool, true, false, not, ltb, if◌then◌else◌, Option,
  none, some, List, [], ◌∷◌, ◌++◌, length, take, drop, Bytes, IsByte, big_endian,
}
use mesh_net.Outcome.{
  Outcome, ok, err, panics, ◌>>=◌, wrap, encode_body_failed, write_failed, read_type_failed,
  read_length_failed, message_too_large, read_body_failed,
}
use mesh_net.Dht.NodeId.{ℤ}
use mesh_net.Dht.Store.{Record}

abbrev pub msg_ping : ℕ
msg_ping = 0

abbrev pub msg_pong : ℕ
msg_pong = 1

abbrev pub msg_find_node : ℕ
msg_find_node = 2

abbrev pub msg_found_nodes : ℕ
msg_found_nodes = 3

abbrev pub msg_store : ℕ
msg_store = 4

abbrev pub msg_find_value : ℕ
msg_find_value = 5

abbrev pub msg_found_value : ℕ
msg_found_value = 6

abbrev pub msg_not_found : ℕ
msg_not_found = 7

-- `type` is a byte, and `body` a `json.RawMessage`.
pub record Message : Type 0 where
  pub type : ℕ
  pub body : Bytes

pub record PingBody : Type 0 where
  pub sender_id : Bytes
  pub sender_addr : Bytes
  pub sender_port : ℤ

pub record PongBody : Type 0 where
  pub sender_id : Bytes
  pub sender_addr : Bytes
  pub sender_port : ℤ

pub record FindNodeBody : Type 0 where
  pub sender_id : Bytes
  pub target_id : Bytes

pub record ContactInfo : Type 0 where
  pub id : Bytes
  pub addr : Bytes
  pub port : ℤ

-- `none` is the nil slice.
pub record FoundNodesBody : Type 0 where
  pub nodes : Option (List ContactInfo)

pub record StoreBody : Type 0 where
  pub stored : Record

pub record FindValueBody : Type 0 where
  pub sender_id : Bytes
  pub name : Bytes
  pub group_key : Bytes

pub record FoundValueBody : Type 0 where
  pub found : Record

-- `binary.BigEndian.PutUint32(lenBuf, uint32(n))`
unfoldable pub put_uint_32 : ℕ → Bytes
put_uint_32 n = n / 2 ^ 24 % 256 ∷ n / 2 ^ 16 % 256 ∷ n / 2 ^ 8 % 256 ∷ n % 256 ∷ []

abbrev pub max_body : ℕ
max_body = 1024 * 1024

-- `io.ReadFull` of `n` bytes, with what is left; `none` is its error.
unfoldable pub read_full : ℕ → Bytes → Option (Bytes × Bytes)
read_full n conn = if ltb (length conn) n then none else some (take n conn, drop n conn)

-- `readMessage` from the test of the length on.
unfoldable pub read_body : ℕ → ℕ → Bytes → Outcome (Message × Bytes)
read_body type body_len conn =
    if ltb max_body body_len then err message_too_large else elim (read_full body_len conn) [
      | none ↦ err read_body_failed
      | some (body, rest) ↦ ok (record { type = type; body = body }, rest)
    ]

-- `readMessage`, with the bytes that it leaves on the connection. The slice of the type has one
-- byte, so `typeBuf[0]` is its number.
unfoldable pub read_message : Bytes → Outcome (Message × Bytes)
read_message conn = elim (read_full 1 conn) [
  | none ↦ err read_type_failed
  | some (type_buf, rest) ↦ elim (read_full 4 rest) [
    | none ↦ err read_length_failed
    | some (len_buf, rest') ↦ read_body (big_endian type_buf) (big_endian len_buf) rest'
  ]
]

-- The bytes of a frame, for a body that is encoded.
unfoldable pub frame : ℕ → Bytes → Bytes
frame type body = type ∷ put_uint_32 (length body) ++ body

-- `marshal_raw` is `json.Marshal` on a `json.RawMessage`: `none` if the text is no JSON. `accepts`
-- says whether the connection takes all of the bytes, which `Flush` and the writes before it report.
module _ (marshal_raw : Bytes → Option Bytes) (accepts : Bytes → Bool) where
  -- The bytes that reach the connection.
  unfoldable pub write_message : Message → Outcome Bytes
  write_message msg = elim (marshal_raw msg.body) [
    | none ↦ err encode_body_failed
    | some body ↦
        if accepts (frame msg.type body) then ok (frame msg.type body) else err write_failed
  ]
