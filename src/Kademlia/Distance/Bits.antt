-- ===== src/Kademlia/Distance/Bits.antt =====
-- libp2p/protocols/kademlia/types.nim: leading zeros and XOR of one byte, checked on every byte.
use Prim.Native.Nat.{bit_xor}
use nim_libp2p.Common.{
  ℕ, zero, suc, ◌<◌, ◌≡◌, refl, arith, Bool, true, ltb, ◌==◌, ◌&&◌, if◌then◌else◌,
}
use nim_libp2p.Kademlia.Distance.{count_leading_zero_bits}

-- Whether a test holds of every number below a bound.
pub holds_below : (ℕ → Bool) → ℕ → Bool
holds_below test zero = true
holds_below test (suc bound) = holds_below test bound && test bound

pub test_of_below :
    (test : ℕ → Bool) (bound k : ℕ) → k < bound → holds_below test bound ≡ true → test k ≡ true
unfolding holds_below
test_of_below test zero k less all = absurd (omega arith)
test_of_below test (suc bound) k less all = ground (arith, test_of_below test bound k)

-- The number of leading zeros by the size of the byte.
abbrev pub zeros_by_size : ℕ → ℕ
zeros_by_size b =
    if ltb b 1
    then 8
    else if ltb b 2
    then 7
    else if ltb b 4
    then 6
    else if ltb b 8
    then 5
    else if ltb b 16
    then 4
    else if ltb b 32
    then 3
    else if ltb b 64
    then 2
    else if ltb b 128
    then 1
    else 0

zeros_table : holds_below (λ b. count_leading_zero_bits b == zeros_by_size b) 256 ≡ true
unfolding holds_below count_leading_zero_bits
zeros_table = refl

pub count_leading_zero_bits-zeros_by_size :
    (b : ℕ) → b < 256 → count_leading_zero_bits b ≡ zeros_by_size b
count_leading_zero_bits-zeros_by_size b h =
    ground
      (arith, test_of_below (λ b. count_leading_zero_bits b == zeros_by_size b) 256 b h zeros_table)

abbrev xor_test : ℕ → ℕ → Bool
xor_test a b =
    ltb (bit_xor a b) 256
    && bit_xor a b == bit_xor b a
    && (if bit_xor a b == 0 then a == b else true)

xor_table : holds_below (λ a. holds_below (xor_test a) 256) 256 ≡ true
unfolding holds_below
xor_table = refl

-- XOR of bytes is a byte, does not depend on the order, and is 0 on equal bytes only.
pub xor_checks :
    (a b : ℕ)
    → a < 256
    → b < 256
    → (bit_xor a b < 256) × (bit_xor a b ≡ bit_xor b a) × (bit_xor a b ≡ 0 → a ≡ b)
xor_checks a b ha hb =
    let row : holds_below (xor_test a) 256 ≡ true =
      test_of_below (λ x. holds_below (xor_test x) 256) 256 a ha xor_table in
    ground (arith, test_of_below (xor_test a) 256 b hb row)

self_table : holds_below (λ a. bit_xor a a == 0) 256 ≡ true
unfolding holds_below
self_table = refl

pub xor_self : (a : ℕ) → a < 256 → bit_xor a a ≡ 0
xor_self a h = ground (arith, test_of_below (λ a. bit_xor a a == 0) 256 a h self_table)
