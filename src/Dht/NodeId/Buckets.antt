-- ===== src/Dht/NodeId/Buckets.antt =====
-- `bucketIndex` of dht/routing.go: which distances share a bucket.
use native.Mathlib.Nat.{pow-suc}
use native.Mathlib.Numerals.{towards_suc}
use mesh_net.Base.{
  ℕ, zero, suc, ◌+◌, ◌-◌, ◌*◌, ◌^◌, ◌≤◌, ◌<◌, ◌≡◌, refl, ap, ap₂, sym, ◌∙◌, ◌↔◌, ◌⊎◌, inl, inr,
  ◌==◌, [], ◌∷◌, length, All, Bytes, IsByte, big_endian, arith, Bool-cases, replicate,
}
use mesh_net.Bits.{first_set, first_set_bounds, bit_xor_self}
use mesh_net.Dht.NodeId.{NodeId, IsNodeId, xor, pos, negsuc, bucket_index_from, bucket_index}
use mesh_net.Dht.NodeId.Distance.{distance, big_endian-lt, length-xor, xor-IsByte, xor_cancel}

shift_eight : (s : ℕ) → 2 ^ (s + 8) ≡ 256 * 2 ^ s
shift_eight s = simp towards_suc (omega arith)

-- A place of a byte is eight places of a bit.
pow_split : (a n : ℕ) → 2 ^ (a + 8 * n) ≡ 2 ^ a * 256 ^ n
pow_split a zero = ap (λ (k : ℕ). 2 ^ k) {x = a + 8 * 0} {y = a} (omega arith) ∙ omega arith
pow_split a (suc n) =
    ap (λ (k : ℕ). 2 ^ k) {x = a + 8 * suc n} {y = a + 8 * n + 8} (omega arith)
    ∙ shift_eight (a + 8 * n)
    ∙ ap (λ (k : ℕ). 256 * k) (pow_split a n)
    ∙ omega (arith, ap (λ (k : ℕ). 2 ^ a * k) (pow-suc 256 n))

scaled_bounds :
    (lo hi x p u : ℕ) → lo ≤ x → x < hi → u < p → (lo * p ≤ x * p + u) × (x * p + u < hi * p)
scaled_bounds lo hi x p u h k m = (grind arith, grind arith)

-- The index that the loop finds counts the bits before the leading one of the distance.
bucket_index_from_bounds :
    (j : ℕ) (xs : Bytes) (i : ℕ)
    → All IsByte xs
    → bucket_index_from j xs ≡ pos i
    → (m : ℕ) × (i + m + 1 ≡ 8 * (j + length xs))
      × (2 ^ m ≤ big_endian xs)
      × (big_endian xs < 2 ^ (m + 1))
unfolding bucket_index_from big_endian
bucket_index_from_bounds j [] i h e = cc
bucket_index_from_bounds j (x ∷ xs) i h e = elim (Bool-cases (x == 0)) [
  | inl zero_byte ↦
      let z : x ≡ 0 = ground arith in
      let (m, sum, lo, hi) =
        bucket_index_from_bounds (j + 1) xs i h.1 (rw (zero_byte, bucket_index_from) at e) in
      let gone = ap (λ (k : ℕ). k * 256 ^ length xs) z in
      (m, omega arith, omega (arith, gone), omega (arith, gone))
  | inr nonzero ↦
      let r = first_set 8 x 0 in
      let n = length xs in
      let (in_byte, lo, hi) = first_set_bounds x h.0 (ground arith) in
      let (below, above) =
        scaled_bounds (2 ^ (7 - r)) (2 ^ (8 - r)) x (256 ^ n) (big_endian xs) lo hi
          (big_endian-lt xs h.1) in
      let index : i ≡ j * 8 + r = ground arith in
      let top = ap (λ (k : ℕ). 2 ^ k) {x = 7 - r + 8 * n + 1} {y = 8 - r + 8 * n} (omega arith) in
      (
        7 - r + 8 * n,
        omega arith,
        omega (arith, pow_split (7 - r) n),
        omega (arith, top, pow_split (8 - r) n),
      )
]

-- For two identifiers of 32 bytes, an index that `bucketIndex` returns is at most 255, and bucket
-- `i` holds exactly one binary order of magnitude of distances: from 2^(255 - i) up to, and
-- without, 2^(256 - i).
pub bucket_index-distance :
    (self other : NodeId) (i : ℕ)
    → IsNodeId self
    → IsNodeId other
    → bucket_index self other ≡ pos i
    → (i ≤ 255) × (2 ^ (255 - i) ≤ distance self other) × (distance self other < 2 ^ (256 - i))
unfolding bucket_index distance
bucket_index-distance self other i hs ho e =
    let xs = xor self other in
    let (m, sum, lo, hi) = bucket_index_from_bounds 0 xs i (xor-IsByte self other hs.1 ho.1) e in
    let size = length-xor self other (omega arith) in
    let low = ap (λ (k : ℕ). 2 ^ k) {x = m} {y = 255 - i} (omega arith) in
    let high = ap (λ (k : ℕ). 2 ^ k) {x = m + 1} {y = 256 - i} (omega arith) in
    (omega arith, omega (arith, low), omega (arith, high))

bucket_index_from_zero : (j : ℕ) (n : ℕ) → bucket_index_from j (replicate n 0) ≡ negsuc 0
unfolding bucket_index_from
bucket_index_from_zero j zero = refl
bucket_index_from_zero j (suc n) = bucket_index_from_zero (j + 1) n

xor_self : (a : Bytes) → All IsByte a → xor a a ≡ replicate (length a) 0
unfolding xor
xor_self [] h = refl
xor_self (x ∷ a) h = ap₂ ◌∷◌ (bit_xor_self x h.0) (xor_self a h.1)

bucket_index_from_negsuc :
    (j : ℕ) (xs : Bytes) (n : ℕ) → bucket_index_from j xs ≡ negsuc n → xs ≡ replicate (length xs) 0
unfolding bucket_index_from
bucket_index_from_negsuc j [] n e = refl
bucket_index_from_negsuc j (x ∷ xs) n e = ground (arith, bucket_index_from_negsuc (j + 1) xs n)

-- On identifiers of 32 bytes `bucketIndex` returns -1 exactly for two equal ones.
pub bucket_index-negsuc_iff :
    (self other : NodeId)
    → IsNodeId self
    → IsNodeId other
    → (bucket_index self other ≡ negsuc 0) ↔ (self ≡ other)
unfolding bucket_index
bucket_index-negsuc_iff self other hs ho = (
  λ e. xor_cancel self other other (omega arith) refl hs.1 ho.1 ho.1 (
      bucket_index_from_negsuc 0 (xor self other) 0 e
      ∙ ap (λ n. replicate n 0) (omega (arith, length-xor self other))
      ∙ sym (xor_self other ho.1)),
  λ e. rw (← e, xor_self self hs.1) (bucket_index_from_zero 0 (length self)),
)

from_cases :
    (j : ℕ) (xs : Bytes)
    → (bucket_index_from j xs ≡ negsuc 0) ⊎ ((i : ℕ) × (bucket_index_from j xs ≡ pos i))
unfolding bucket_index_from
from_cases j [] = inl refl
from_cases j (x ∷ xs) = elim (Bool-cases (x == 0)) [
  | inl z ↦ rw z (from_cases (j + 1) xs)
  | inr nz ↦ rw nz (inr (j * 8 + first_set 8 x 0, refl))
]

-- The loop of `bucketIndex` returns -1 or an index, and no other negative number.
pub bucket_index-cases :
    (self other : NodeId)
    → (bucket_index self other ≡ negsuc 0) ⊎ ((i : ℕ) × (bucket_index self other ≡ pos i))
unfolding bucket_index
bucket_index-cases self other = from_cases 0 (xor self other)
