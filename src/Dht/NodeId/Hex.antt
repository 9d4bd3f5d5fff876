-- ===== src/Dht/NodeId/Hex.antt =====
-- The text form of identifiers in dht/routing.go: `String`, `NodeIDFromHex`, `NodeIDFromBytes`.
use mesh_net.Base.{
  ℕ, zero, suc, ◌+◌, ◌-◌, ◌*◌, ◌/◌, ◌%◌, ◌<◌, ◌≡◌, refl, sym, ap, ◌∙◌, ◌≢◌, Option, none, some, [],
  ◌∷◌, length, take, take_of_length-le, replicate, length-append, length-replicate, length-take,
  All, All-append, All-take, Bytes, IsByte, arith, append-nil, Option-cases, inl, inr,
}
use mathlib.Core.Path.{subst}
use mesh_net.Outcome.{ok, err, bad_key_length}
use mesh_net.Dht.NodeId.{
  NodeId, IsNodeId, copy_32, hex_digit, hex_encode, hex_pair, hex_value, hex_decode,
  node_id_from_hex, to_string, node_id_from_bytes,
}

hex_value-hex_digit : (n : ℕ) → n < 16 → hex_value (hex_digit n) ≡ some n
unfolding hex_value hex_digit
hex_value-hex_digit n h = ground arith

hex_decode-pair :
    (x : ℕ) (b : Bytes)
    → hex_decode (hex_encode (x ∷ b))
      ≡ hex_pair
          (hex_value (hex_digit (x / 16)))
          (hex_value (hex_digit (x % 16)))
          (hex_decode (hex_encode b))
unfolding hex_decode hex_encode
hex_decode-pair x b = refl

-- `hex.DecodeString` reads back what `hex.EncodeToString` wrote.
pub hex_decode-hex_encode : (b : Bytes) → All IsByte b → hex_decode (hex_encode b) ≡ some b
hex_decode-hex_encode [] h = unfold hex_decode hex_encode in refl
hex_decode-hex_encode (x ∷ b) h =
    rw
      (
        hex_decode-pair,
        hex_value-hex_digit (x / 16) (omega arith),
        hex_value-hex_digit (x % 16) (omega arith),
        hex_decode-hex_encode b h.1,
      )
      (ap (λ (y : ℕ). some (y ∷ b)) (omega arith))

pub length-hex_encode : (b : Bytes) → length (hex_encode b) ≡ 2 * length b
unfolding hex_encode
length-hex_encode [] = refl
length-hex_encode (x ∷ b) = omega (arith, length-hex_encode b)

pub copy_32_id : (b : Bytes) → length b ≡ 32 → copy_32 b ≡ b
unfolding copy_32
copy_32_id b h = rw (h, take_of_length-le 32 b (omega arith)) (append-nil b)

zeros-IsByte : (n : ℕ) → All IsByte (replicate n 0)
zeros-IsByte zero = tt
zeros-IsByte (suc n) = (omega arith, zeros-IsByte n)

pub copy_32-IsNodeId : (b : Bytes) → All IsByte b → IsNodeId (copy_32 b)
unfolding copy_32
copy_32-IsNodeId b h = (
  omega (
    arith,
    length-append (take 32 b) (replicate (32 - length b) 0),
    length-take 32 b,
    length-replicate {A = ℕ} (32 - length b) 0,
  ),
  All-append IsByte (take 32 b) (replicate (32 - length b) 0) (All-take IsByte 32 b h)
      (zeros-IsByte _),
)

hex_value-lt : (c v : ℕ) → hex_value c ≡ some v → v < 16
unfolding hex_value
hex_value-lt c v h = ground arith

hex_pair-eq-some :
    (p q : Option ℕ) (r : Option Bytes) (b : Bytes)
    → hex_pair p q r ≡ some b
    → (u : ℕ) × (v : ℕ) × (rest : Bytes) × (p ≡ some u)
      × (q ≡ some v)
      × (r ≡ some rest)
      × (b ≡ (u * 16 + v) ∷ rest)
hex_pair-eq-some (some u) (some v) (some rest) b e = (u, v, rest, refl, refl, refl, cc)
hex_pair-eq-some none q r b e = cc
hex_pair-eq-some (some u) none r b e = cc
hex_pair-eq-some (some u) (some v) none b e = cc

hex_decode-step :
    (c d : ℕ) (s : Bytes)
    → hex_decode (c ∷ d ∷ s) ≡ hex_pair (hex_value c) (hex_value d) (hex_decode s)
unfolding hex_decode
hex_decode-step c d s = refl

pub hex_decode-IsByte : (s b : Bytes) → hex_decode s ≡ some b → All IsByte b
hex_decode-IsByte [] b e = subst (All IsByte) (nil_bytes e) tt
  where
    nil_bytes : hex_decode [] ≡ some b → [] ≡ b
    nil_bytes e = unfold hex_decode in cc
hex_decode-IsByte (c ∷ []) b e = absurd (odd e)
  where
    odd : hex_decode (c ∷ []) ≢ some b
    odd e = unfold hex_decode in cc
hex_decode-IsByte (c ∷ d ∷ s) b e =
    let (u, v, rest, hu, hv, hr, eq) = hex_pair-eq-some _ _ _ b (sym (hex_decode-step c d s) ∙ e) in
    subst (All IsByte) (sym eq)
      (omega (arith, hex_value-lt c u hu, hex_value-lt d v hv), hex_decode-IsByte s rest hr)

-- `NodeIDFromHex` reads back the text that `String` gives for an identifier of 32 bytes.
pub node_id_from_hex-to_string :
    (id : NodeId) → IsNodeId id → node_id_from_hex (to_string id) ≡ ok id
unfolding node_id_from_hex to_string
node_id_from_hex-to_string id h =
    rw (hex_decode-hex_encode id h.1, node_id_from_hex) (ap ok (copy_32_id id h.0))

-- Whatever text is parsed, a result is an array of 32 bytes.
pub node_id_from_hex-IsNodeId : (s : Bytes) (id : NodeId) → node_id_from_hex s ≡ ok id → IsNodeId id
unfolding node_id_from_hex
node_id_from_hex-IsNodeId s id e = elim (Option-cases (hex_decode s)) [
  | inl bad ↦ absurd (ground arith)
  | inr (b, good) ↦ subst IsNodeId (ground arith) (copy_32-IsNodeId b (hex_decode-IsByte s b good))
]

-- On the text of a byte string that has not 32 bytes `NodeIDFromHex` succeeds, with the bytes cut
-- off or filled up with zeros, where `NodeIDFromBytes` of the same bytes fails.
pub node_id_from_hex_any_length :
    (b : Bytes)
    → All IsByte b
    → length b ≢ 32
    → (node_id_from_hex (hex_encode b) ≡ ok (copy_32 b))
      × (node_id_from_bytes b ≡ err bad_key_length)
unfolding node_id_from_hex node_id_from_bytes
node_id_from_hex_any_length b h n = (rw (hex_decode-hex_encode b h, node_id_from_hex), ground arith)
