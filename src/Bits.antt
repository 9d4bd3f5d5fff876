-- ===== src/Bits.antt =====
-- Laws of the byte operations `^`, `&` and `<<` that dht/routing.go uses, each from a table of
-- all bytes that is checked by evaluation.
use Prim.Native.Nat.{bit_and, bit_xor}
use mesh_net.Base.{
  ℕ, zero, suc, ◌+◌, ◌-◌, ◌*◌, ◌%◌, ◌^◌, ◌≤◌, ◌<◌, ◌≡◌, refl, sym, ap, ◌∙◌, Bool, true, ◌&&◌, ◌||◌,
  ◌==◌, ltb, leb, ==_iff, arith, if◌then◌else◌,
}

-- A test holds at every number under a bound.
every_under : (ℕ → Bool) → ℕ → Bool
every_under test zero = true
every_under test (suc top) = every_under test top && test top

every_under-at :
    (test : ℕ → Bool) (top k : ℕ) → k < top → every_under test top ≡ true → test k ≡ true
unfolding every_under
every_under-at test (suc top) k below all = ground (arith, every_under-at test top k)
every_under-at test zero k below all = absurd (omega arith)

pairs_below : (ℕ → ℕ → Bool) → Bool
pairs_below p = every_under (λ a. every_under (p a) 256) 256

pairs_below_sound :
    (p : ℕ → ℕ → Bool) (a b : ℕ) → pairs_below p ≡ true → a < 256 → b < 256 → p a b ≡ true
unfolding pairs_below
pairs_below_sound p a b h ha hb =
    every_under-at (p a) 256 b hb (every_under-at (λ a. every_under (p a) 256) 256 a ha h)

xor_table :
    pairs_below
      (λ a b. bit_xor (bit_xor a b) b == a && bit_xor a b == bit_xor b a && ltb (bit_xor a b) 256)
    ≡ true
unfolding pairs_below every_under
xor_table = refl

xor_facts :
    (a b : ℕ)
    → a < 256
    → b < 256
    → (bit_xor (bit_xor a b) b ≡ a) × (bit_xor a b ≡ bit_xor b a) × (bit_xor a b < 256)
xor_facts a b ha hb = ground (
  arith,
  pairs_below_sound
      (λ a b. bit_xor (bit_xor a b) b == a && bit_xor a b == bit_xor b a && ltb (bit_xor a b) 256) a
      b xor_table ha hb,
)

pub bit_xor-lt : (a b : ℕ) → a < 256 → b < 256 → bit_xor a b < 256
bit_xor-lt a b ha hb = (xor_facts a b ha hb).2

pub bit_xor_comm : (a b : ℕ) → a < 256 → b < 256 → bit_xor a b ≡ bit_xor b a
bit_xor_comm a b ha hb = (xor_facts a b ha hb).1

-- A byte can be taken off again, so it can be cancelled.
pub bit_xor_cancel : (a b t : ℕ) → a < 256 → b < 256 → t < 256 → bit_xor a t ≡ bit_xor b t → a ≡ b
bit_xor_cancel a b t ha hb ht e =
    sym (xor_facts a t ha ht).0 ∙ ap (λ x. bit_xor x t) e ∙ (xor_facts b t hb ht).0

pub bit_xor_self : (a : ℕ) → a < 256 → bit_xor a a ≡ 0
bit_xor_self a h = (==_iff _ 0).0 (every_under-at (λ a. bit_xor a a == 0) 256 a h self_table)
  where
    self_table : every_under (λ a. bit_xor a a == 0) 256 ≡ true
    self_table = unfold every_under in refl

-- `for b&0x80 == 0 { b <<= 1; bit++ }` of `bucketIndex`, on eight rounds at most: a byte that is
-- not 0 has a bit set, so its loop ends by the test (`first_set_bounds`).
unfoldable pub first_set : ℕ → ℕ → ℕ → ℕ
first_set zero b bit = bit
first_set (suc fuel) b bit =
    let rest = first_set fuel (b * 2 % 256) (bit + 1) in if bit_and b 0x80 == 0 then rest else bit

abbrev first_set_test : ℕ → Bool
first_set_test b =
    b == 0
    || leb (first_set 8 b 0) 7
      && leb (2 ^ (7 - first_set 8 b 0)) b
      && ltb b (2 ^ (8 - first_set 8 b 0))

first_set_table : every_under first_set_test 256 ≡ true
unfolding every_under first_set
first_set_table = refl

-- The loop stops at the leading one of the byte, within seven rounds.
pub first_set_bounds :
    (b : ℕ)
    → b < 256
    → 0 < b
    → (first_set 8 b 0 ≤ 7) × (2 ^ (7 - first_set 8 b 0) ≤ b) × (b < 2 ^ (8 - first_set 8 b 0))
first_set_bounds b h pos = ground (arith, every_under-at first_set_test 256 b h first_set_table)
