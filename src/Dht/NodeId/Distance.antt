-- ===== src/Dht/NodeId/Distance.antt =====
-- `XOR`, `Less` and `bucketIndex` of dht/routing.go against the distance as a number.
use native.Mathlib.Nat.{pow-suc}
use mesh_net.Base.{
  ℕ, ◌+◌, ◌*◌, ◌^◌, ◌<◌, ◌≡◌, refl, ap, ap₂, ltb, [], ◌∷◌, length, All, Bytes, IsByte, big_endian,
  arith,
}
use mesh_net.Bits.{bit_xor-lt, bit_xor_comm, bit_xor_cancel}
use mesh_net.Dht.NodeId.{NodeId, IsNodeId, xor, less_bytes, less}

-- The XOR metric: the distance of two identifiers, as a number.
unfoldable pub distance : NodeId → NodeId → ℕ
distance a b = big_endian (xor a b)

pub length-xor : (a b : Bytes) → length a ≡ length b → length (xor a b) ≡ length a
unfolding xor
length-xor [] b h = refl
length-xor (x ∷ a) [] h = absurd (omega arith)
length-xor (x ∷ a) (y ∷ b) h = omega (arith, length-xor a b (omega arith))

pub xor-IsByte : (a b : Bytes) → All IsByte a → All IsByte b → All IsByte (xor a b)
unfolding xor
xor-IsByte [] b ha hb = tt
xor-IsByte (x ∷ a) [] ha hb = tt
xor-IsByte (x ∷ a) (y ∷ b) ha hb = (bit_xor-lt x y ha.0 hb.0, xor-IsByte a b ha.1 hb.1)

pub xor_comm : (a b : Bytes) → All IsByte a → All IsByte b → xor a b ≡ xor b a
unfolding xor
xor_comm [] [] ha hb = refl
xor_comm [] (y ∷ b) ha hb = refl
xor_comm (x ∷ a) [] ha hb = refl
xor_comm (x ∷ a) (y ∷ b) ha hb = ap₂ ◌∷◌ (bit_xor_comm x y ha.0 hb.0) (xor_comm a b ha.1 hb.1)

pub xor_cancel :
    (a b t : Bytes)
    → length a ≡ length t
    → length b ≡ length t
    → All IsByte a
    → All IsByte b
    → All IsByte t
    → xor a t ≡ xor b t
    → a ≡ b
unfolding xor
xor_cancel [] [] t la lb ha hb ht e = refl
xor_cancel [] (y ∷ b) t la lb ha hb ht e = absurd (omega arith)
xor_cancel (x ∷ a) [] t la lb ha hb ht e = absurd (omega arith)
xor_cancel (x ∷ a) (y ∷ b) [] la lb ha hb ht e = absurd (omega arith)
xor_cancel (x ∷ a) (y ∷ b) (z ∷ t) la lb ha hb ht e =
    ap₂ ◌∷◌ (bit_xor_cancel x y z ha.0 hb.0 ht.0 (cc))
      (xor_cancel a b t (omega arith) (omega arith) ha.1 hb.1 ht.1 (cc))

leading_lt : (x y p u v : ℕ) → x < y → u < p → x * p + u < y * p + v
leading_lt x y p u v h hu = grind arith

pub big_endian-lt : (a : Bytes) → All IsByte a → big_endian a < 256 ^ length a
unfolding big_endian
big_endian-lt [] h = omega arith
big_endian-lt (x ∷ a) h = omega (
  arith,
  leading_lt x 256 (256 ^ length a) (big_endian a) 0 h.0 (big_endian-lt a h.1),
  pow-suc 256 (length a),
)

-- The loop of `Less` compares the numbers that the two distances denote.
less_bytes-big_endian :
    (a b : Bytes)
    → length a ≡ length b
    → All IsByte a
    → All IsByte b
    → less_bytes a b ≡ ltb (big_endian a) (big_endian b)
unfolding less_bytes big_endian
less_bytes-big_endian [] [] l ha hb = ground arith
less_bytes-big_endian [] (y ∷ b) l ha hb = absurd (omega arith)
less_bytes-big_endian (x ∷ a) [] l ha hb = absurd (omega arith)
less_bytes-big_endian (x ∷ a) (y ∷ b) l ha hb = ground (
  arith,
  less_bytes-big_endian a b (omega arith) ha.1 hb.1,
  ap (λ (n : ℕ). 256 ^ n) {x = length a} {y = length b} (omega arith),
  leading_lt x y (256 ^ length a) (big_endian a) (big_endian b),
  leading_lt y x (256 ^ length a) (big_endian b) (big_endian a),
  big_endian-lt a ha.1,
  big_endian-lt b hb.1,
)

-- On identifiers of 32 bytes `Less` compares their XOR distances to the target, read as numbers of
-- 256 bits with the most significant byte first.
pub less-distance :
    (a b t : NodeId)
    → IsNodeId a
    → IsNodeId b
    → IsNodeId t
    → less a b t ≡ ltb (distance a t) (distance b t)
unfolding less distance
less-distance a b t ha hb ht =
    less_bytes-big_endian (xor a t) (xor b t) (omega (arith, length-xor a t, length-xor b t))
      (xor-IsByte a t ha.1 ht.1) (xor-IsByte b t hb.1 ht.1)

-- The distance is symmetric.
pub distance_comm : (a b : NodeId) → IsNodeId a → IsNodeId b → distance a b ≡ distance b a
unfolding distance
distance_comm a b ha hb = ap big_endian (xor_comm a b ha.1 hb.1)
