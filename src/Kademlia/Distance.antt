-- ===== src/Kademlia/Distance.antt =====
-- libp2p/protocols/kademlia/types.nim: the XOR distance of hashed keys. A key is a list of bytes.
pub mod Bits
pub mod Order
use Prim.Native.Nat.{bit_and, bit_xor}
use nim_libp2p.Common.{
  ℕ, zero, suc, ◌+◌, ◌-◌, ◌*◌, ◌/◌, ◌^◌, Bool, true, false, Option, none, some, List, [], ◌∷◌,
  length, ltb, ◌==◌, ◌&&◌, if◌then◌else◌,
}

abbrev pub id_length : ℕ
id_length = 32

-- The loop over the bits from `i` on, with `left` of them to go.
pub leading_zeros_from : ℕ → ℕ → ℕ → ℕ
leading_zeros_from zero i b = 8
leading_zeros_from (suc left) i b =
    let rest = leading_zeros_from left (i + 1) b in
    if bit_and b (0x80 / 2 ^ i) == 0 then rest else i

unfoldable pub count_leading_zero_bits : ℕ → ℕ
unfolding leading_zeros_from
count_leading_zero_bits b = leading_zeros_from 8 0 b

-- From byte `i` on. At the end `i` is the length of the whole distance.
unfoldable pub leading_zeros_loop : ℕ → List ℕ → ℕ
leading_zeros_loop i [] = i * 8
leading_zeros_loop i (b ∷ bs) =
    let rest = leading_zeros_loop (i + 1) bs in
    if b == 0 then rest else i * 8 + count_leading_zero_bits b

unfoldable pub leading_zeros : List ℕ → ℕ
unfolding leading_zeros_loop
leading_zeros dist = leading_zeros_loop 0 dist

-- The result of `cmp`: -1, 0 or 1.
pub data Cmp : Type 0 where
  less same more : Cmp

unfoldable pub cmp : List ℕ → List ℕ → Cmp
cmp (a ∷ xs) (b ∷ ys) =
    let rest = cmp xs ys in if ltb a b then less else if ltb b a then more else rest
cmp _ _ = same

abbrev pub is_less : Cmp → Bool
is_less less = true
is_less _ = false

unfoldable pub lt : List ℕ → List ℕ → Bool
unfolding cmp
lt a b = is_less (cmp a b)

unfoldable pub xor_bytes : List ℕ → List ℕ → List ℕ
xor_bytes (a ∷ xs) (b ∷ ys) = bit_xor a b ∷ xor_bytes xs ys
xor_bytes _ _ = []

-- `none` is a failed assertion on the lengths.
unfoldable pub xor_distance : List ℕ → List ℕ → Option (List ℕ)
unfolding xor_bytes
xor_distance a b =
    if length a == id_length && length b == id_length then some (xor_bytes a b) else none
