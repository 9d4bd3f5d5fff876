-- ===== src/Dht/NodeId.antt =====
-- dht/routing.go, lines 12 to 69 and 171 to 179: node identifiers, their text form, the XOR metric
-- and the index of a bucket. `hex` and `copy` are those of Go's library, as far as they are used.
pub mod Hex
pub mod Distance
pub mod Buckets
use Prim.Native.Nat.{bit_xor}
use mesh_net.Base.{
  ℕ, zero, suc, ◌+◌, ◌-◌, ◌*◌, ◌/◌, ◌%◌, ◌≤◌, ◌<◌, ◌≡◌, Bool, true, false, ◌&&◌, ◌==◌, ltb, leb,
  if◌then◌else◌, Option, none, some, List, [], ◌∷◌, ◌++◌, length, take, replicate, All, Bytes,
  IsByte,
}
use mesh_net.Bits.{first_set}
use mesh_net.Outcome.{Outcome, ok, err, panics, invalid_node_id_hex, bad_key_length}

-- `[32]byte`
abbrev pub NodeId : Type 0
NodeId = Bytes

-- What Go's type `[32]byte` guarantees.
abbrev pub IsNodeId : NodeId → Type 0
IsNodeId id = (length id ≡ 32) × All IsByte id

-- `copy(id[:], b)` into a zero array of 32 bytes.
unfoldable pub copy_32 : Bytes → NodeId
copy_32 b = take 32 b ++ replicate (32 - length b) 0

-- `pub[:32]` panics on a shorter slice.
unfoldable pub node_id_from_public_key : Bytes → Outcome NodeId
node_id_from_public_key key = if ltb (length key) 32 then panics else ok (copy_32 (take 32 key))

pub hex_digit : ℕ → ℕ
hex_digit n = if ltb n 10 then b'0' + n else b'a' + (n - 10)

unfoldable pub hex_encode : Bytes → Bytes
unfolding hex_digit
hex_encode [] = []
hex_encode (b ∷ bs) = hex_digit (b / 16) ∷ hex_digit (b % 16) ∷ hex_encode bs

pub hex_value : ℕ → Option ℕ
hex_value c =
    if leb b'0' c && leb c b'9'
    then some (c - b'0')
    else if leb b'a' c && leb c b'f'
    then some (c - b'a' + 10)
    else if leb b'A' c && leb c b'F'
    then some (c - b'A' + 10)
    else none

abbrev pub hex_pair : Option ℕ → Option ℕ → Option Bytes → Option Bytes
hex_pair (some a) (some b) (some rest) = some ((a * 16 + b) ∷ rest)
hex_pair _ _ _ = none

-- `hex.DecodeString`; `none` is its error, on another character or an odd length.
unfoldable pub hex_decode : Bytes → Option Bytes
unfolding hex_value
hex_decode [] = some []
hex_decode (c ∷ []) = none
hex_decode (c ∷ d ∷ s) = hex_pair (hex_value c) (hex_value d) (hex_decode s)

unfoldable pub node_id_from_hex : Bytes → Outcome NodeId
node_id_from_hex s = elim (hex_decode s) [
  | none ↦ err invalid_node_id_hex
  | some b ↦ ok (copy_32 b)
]

-- `func (id NodeID) String() string`
unfoldable pub to_string : NodeId → Bytes
to_string id = hex_encode id

unfoldable pub node_id_from_bytes : Bytes → Outcome NodeId
node_id_from_bytes key = if length key == 32 then ok (copy_32 key) else err bad_key_length

-- Both arrays have 32 bytes, so the loop over the index is a recursion on both lists.
unfoldable pub xor : NodeId → NodeId → NodeId
xor (a ∷ id) (b ∷ other) = bit_xor a b ∷ xor id other
xor _ _ = []

-- The loop of `Less` over the two distances.
unfoldable pub less_bytes : Bytes → Bytes → Bool
less_bytes (a ∷ dist_a) (b ∷ dist_b) = if a == b then less_bytes dist_a dist_b else ltb a b
less_bytes _ _ = false

unfoldable pub less : NodeId → NodeId → NodeId → Bool
unfolding xor less_bytes
less id other target = less_bytes (xor id target) (xor other target)

-- Go's `int`: `negsuc n` is -(n + 1).
pub data ℤ : Type 0 where
  pos : ℕ → ℤ
  negsuc : ℕ → ℤ

-- The loop of `bucketIndex` from index `i` on.
unfoldable pub bucket_index_from : ℕ → Bytes → ℤ
bucket_index_from i [] = negsuc 0
bucket_index_from i (x ∷ xs) =
    if x == 0 then bucket_index_from (i + 1) xs else pos (i * 8 + first_set 8 x 0)

unfoldable pub bucket_index : NodeId → NodeId → ℤ
unfolding xor bucket_index_from first_set
bucket_index id other = bucket_index_from 0 (xor id other)
