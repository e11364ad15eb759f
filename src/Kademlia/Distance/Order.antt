-- ===== src/Kademlia/Distance/Order.antt =====
-- libp2p/protocols/kademlia/types.nim: the distances as an order, and leading zeros against it.
use Prim.Native.Nat.{bit_xor}
use nim_libp2p.Common.{
  ℕ, ◌+◌, ◌*◌, ◌≤◌, ◌<◌, ◌≡◌, refl, arith, true, false, ◌==◌, List, [], ◌∷◌, length, All, some, ◌↔◌,
  subst, inl, inr, Bool-cases, ap₂, ◌∙◌,
}
use nim_libp2p.Kademlia.Distance.{
  id_length, count_leading_zero_bits, leading_zeros_loop, leading_zeros, less, same, more, cmp, lt,
  xor_bytes, xor_distance,
}
use nim_libp2p.Kademlia.Distance.Bits.{count_leading_zero_bits-zeros_by_size, xor_checks, xor_self}

abbrev pub IsByte : ℕ → Type 0
IsByte b = b < 256

zeros-le : (b : ℕ) → b < 256 → count_leading_zero_bits b ≤ 8
zeros-le b h = ground (arith, count_leading_zero_bits-zeros_by_size b h)

zeros_of_pos : (b : ℕ) → b < 256 → 0 < b → count_leading_zero_bits b < 8
zeros_of_pos b h k = ground (arith, count_leading_zero_bits-zeros_by_size b h)

fewer_zeros :
    (a b : ℕ) → a < 256 → b < 256 → count_leading_zero_bits a < count_leading_zero_bits b → b < a
fewer_zeros a b ha hb h =
    ground (
      arith,
      count_leading_zero_bits-zeros_by_size a ha,
      count_leading_zero_bits-zeros_by_size b hb,
    )

loop_bounds :
    (i : ℕ) (d : List ℕ)
    → All IsByte d
    → (i * 8 ≤ leading_zeros_loop i d) × (leading_zeros_loop i d ≤ i * 8 + length d * 8)
unfolding leading_zeros_loop
loop_bounds i [] h = omega arith
loop_bounds i (b ∷ d) (hb, h) = ground (arith, loop_bounds (i + 1) d h, zeros-le b hb)

closer_loop :
    (i : ℕ) (a b : List ℕ)
    → All IsByte a
    → All IsByte b
    → length a ≡ length b
    → leading_zeros_loop i a < leading_zeros_loop i b
    → cmp b a ≡ less
unfolding leading_zeros_loop cmp
closer_loop i [] [] ha hb e h = absurd (omega arith)
closer_loop i [] (y ∷ b) ha hb e h = absurd (omega arith)
closer_loop i (x ∷ a) [] ha hb e h = absurd (omega arith)
closer_loop i (x ∷ a) (y ∷ b) (hx, ha) (hy, hb) e h = ground (
  arith,
  closer_loop (i + 1) a b ha hb (omega arith),
  fewer_zeros x y hx hy,
  zeros_of_pos y hy,
  loop_bounds (i + 1) a ha,
)

-- Of two distances of one length, the one with more leading zeros is the smaller.
pub lt_of_leading_zeros :
    (a b : List ℕ)
    → All IsByte a
    → All IsByte b
    → length a ≡ length b
    → leading_zeros a < leading_zeros b
    → lt b a ≡ true
unfolding leading_zeros lt
lt_of_leading_zeros a b ha hb e h = ground (arith, closer_loop 0 a b ha hb e h)

pub cmp-same : (a b : List ℕ) → length a ≡ length b → cmp a b ≡ same → a ≡ b
unfolding cmp
cmp-same [] [] e h = refl
cmp-same [] (y ∷ b) e h = absurd (omega arith)
cmp-same (x ∷ a) [] e h = absurd (omega arith)
cmp-same (x ∷ a) (y ∷ b) e h = ground (arith, cmp-same a b (omega arith))

pub cmp_refl : (a : List ℕ) → cmp a a ≡ same
unfolding cmp
cmp_refl [] = refl
cmp_refl (x ∷ a) = ground (arith, cmp_refl a)

pub cmp_flip : (a b : List ℕ) → cmp a b ≡ less → cmp b a ≡ more
unfolding cmp
cmp_flip [] b h = ground arith
cmp_flip (x ∷ a) [] h = ground arith
cmp_flip (x ∷ a) (y ∷ b) h = ground (arith, cmp_flip a b)

pub cmp_flip_more : (a b : List ℕ) → cmp a b ≡ more → cmp b a ≡ less
unfolding cmp
cmp_flip_more [] b h = ground arith
cmp_flip_more (x ∷ a) [] h = ground arith
cmp_flip_more (x ∷ a) (y ∷ b) h = ground (arith, cmp_flip_more a b)

lt_trans_cmp :
    (a b c : List ℕ)
    → length a ≡ length b
    → length b ≡ length c
    → cmp a b ≡ less
    → cmp b c ≡ less
    → cmp a c ≡ less
unfolding cmp
lt_trans_cmp [] b c e f h k = ground arith
lt_trans_cmp (x ∷ a) [] c e f h k = ground arith
lt_trans_cmp (x ∷ a) (y ∷ b) [] e f h k = ground arith
lt_trans_cmp (x ∷ a) (y ∷ b) (z ∷ c) e f h k =
    ground (arith, lt_trans_cmp a b c (omega arith) (omega arith))

-- `<` is a strict total order on the distances of one length.
pub record IsStrictOrder (n : ℕ) : Type 0 where
  pub irreflexive : (a : List ℕ) → length a ≡ n → lt a a ≡ false
  pub transitive :
      (a b c : List ℕ)
      → length a ≡ n
      → length b ≡ n
      → length c ≡ n
      → lt a b ≡ true
      → lt b c ≡ true
      → lt a c ≡ true
  pub total : (a b : List ℕ) → length a ≡ n → length b ≡ n → lt a b ≡ false → lt b a ≡ false → a ≡ b

pub lt-IsStrictOrder : (n : ℕ) → IsStrictOrder n
unfolding lt
lt-IsStrictOrder n = record {
  irreflexive = λ a e. rw cmp_refl;
  transitive = λ a b c ea eb ec h k. ground (arith, lt_trans_cmp a b c);
  total = λ a b ea eb h k. ground (arith, cmp-same a b, cmp_flip_more a b);
}

pub length-xor_bytes : (a b : List ℕ) → length a ≡ length b → length (xor_bytes a b) ≡ length a
unfolding xor_bytes
length-xor_bytes [] b e = refl
length-xor_bytes (x ∷ a) [] e = absurd (omega arith)
length-xor_bytes (x ∷ a) (y ∷ b) e = omega (arith, length-xor_bytes a b (omega arith))

pub xor_bytes-IsByte : (a b : List ℕ) → All IsByte a → All IsByte b → All IsByte (xor_bytes a b)
unfolding xor_bytes
xor_bytes-IsByte [] b ha hb = tt
xor_bytes-IsByte (x ∷ a) [] ha hb = tt
xor_bytes-IsByte (x ∷ a) (y ∷ b) (hx, ha) (hy, hb) =
    ((xor_checks x y hx hy).0, xor_bytes-IsByte a b ha hb)

xor_bytes_comm : (a b : List ℕ) → All IsByte a → All IsByte b → xor_bytes a b ≡ xor_bytes b a
unfolding xor_bytes
xor_bytes_comm [] [] ha hb = refl
xor_bytes_comm [] (y ∷ b) ha hb = refl
xor_bytes_comm (x ∷ a) [] ha hb = refl
xor_bytes_comm (x ∷ a) (y ∷ b) (hx, ha) (hy, hb) =
    ap₂ ◌∷◌ (xor_checks x y hx hy).1 (xor_bytes_comm a b ha hb)

zeros-All :
    (i : ℕ) (a b : List ℕ)
    → All IsByte a
    → All IsByte b
    → length a ≡ length b
    → leading_zeros_loop i (xor_bytes a b) ≡ i * 8 + length a * 8
    → a ≡ b
unfolding leading_zeros_loop xor_bytes
zeros-All i [] [] ha hb e h = refl
zeros-All i [] (y ∷ b) ha hb e h = absurd (omega arith)
zeros-All i (x ∷ a) [] ha hb e h = absurd (omega arith)
zeros-All i (x ∷ a) (y ∷ b) (hx, ha) (hy, hb) e h = elim (Bool-cases (bit_xor x y == 0)) [
  | inl zeroed ↦
      let same_head : x ≡ y = (xor_checks x y hx hy).2 (ground arith) in
      ap₂ ◌∷◌ same_head (zeros-All (i + 1) a b ha hb (omega arith) (ground arith))
  | inr differs ↦ absurd (ground (arith, zeros_of_pos (bit_xor x y) (xor_checks x y hx hy).0))
]

zeros_self :
    (i : ℕ) (a : List ℕ)
    → All IsByte a
    → leading_zeros_loop i (xor_bytes a a) ≡ i * 8 + length a * 8
unfolding leading_zeros_loop xor_bytes
zeros_self i [] h = omega arith
zeros_self i (x ∷ a) (hx, h) = ground (arith, xor_self x hx, zeros_self (i + 1) a h)

-- A hash: `IdLength` bytes.
abbrev pub IsHash : List ℕ → Type 0
IsHash a = (length a ≡ id_length) × All IsByte a

-- The distance of two hashes is there and is a hash, does not depend on their order, and has all
-- its 256 bits zero exactly if they are equal.
pub xor_distance-IsHash :
    (a b : List ℕ)
    → IsHash a
    → IsHash b
    → (d : List ℕ) × (xor_distance a b ≡ some d)
      × (xor_distance b a ≡ some d)
      × IsHash d
      × ((leading_zeros d ≡ 256) ↔ (a ≡ b))
unfolding xor_distance leading_zeros
xor_distance-IsHash a b (ea, ha) (eb, hb) =
    let e : length a ≡ length b = omega arith in
    (
      xor_bytes a b,
      ground arith,
      ground (arith, xor_bytes_comm a b ha hb),
      (length-xor_bytes a b e ∙ ea, xor_bytes-IsByte a b ha hb),
      (
        (λ h. zeros-All 0 a b ha hb e (omega arith)),
        (λ p.
            subst (λ t. leading_zeros_loop 0 (xor_bytes a t) ≡ 256) p
              (omega (arith, zeros_self 0 a ha))),
      ),
    )

pub leading_zeros-le : (d : List ℕ) → IsHash d → leading_zeros d ≤ 256
unfolding leading_zeros
leading_zeros-le d (e, h) = omega (arith, loop_bounds 0 d h)

pub not_lt_trans :
    (a b c : List ℕ)
    → length a ≡ length b
    → length b ≡ length c
    → lt b a ≡ false
    → lt c b ≡ false
    → lt c a ≡ false
unfolding lt cmp
not_lt_trans [] [] c e f h k = absurd_case c
  where
    absurd_case : (d : List ℕ) → lt d [] ≡ false
    absurd_case [] = refl
    absurd_case (x ∷ d) = refl
not_lt_trans [] (y ∷ b) c e f h k = absurd (omega arith)
not_lt_trans (x ∷ a) [] c e f h k = absurd (omega arith)
not_lt_trans (x ∷ a) (y ∷ b) [] e f h k = refl
not_lt_trans (x ∷ a) (y ∷ b) (z ∷ c) e f h k =
    ground (arith, not_lt_trans a b c (omega arith) (omega arith))

pub not_lt_of_lt : (a b : List ℕ) → lt a b ≡ true → lt b a ≡ false
unfolding lt
not_lt_of_lt a b h = ground (arith, cmp_flip a b)
