-- ===== src/Kademlia/RoutingTable/Positions.antt =====
-- libp2p/protocols/kademlia/routing_table.nim: the position of a peer in its bucket, and the bucket
-- without it.
use nim_libp2p.Common.{
  ℕ, zero, suc, ◌+◌, ◌-◌, ◌≤◌, ◌≡◌, arith, some, List, [], ◌∷◌, length, get_elem?, eqb, Bool-cases,
  inl, inr,
}
use nim_libp2p.Common.Sets.{count}
use nim_libp2p.Kademlia.RoutingTable.{find_from, peer_index_in_bucket}
use nim_libp2p.Kademlia.RoutingTable.Buckets.{one_if}

unfoldable pub delete_at : {K : Type 0} → ℕ → List K → List K
delete_at i [] = []
delete_at zero (p ∷ b) = b
delete_at (suc i) (p ∷ b) = p ∷ delete_at i b

pub length-delete_at-le : {K : Type 0} (i : ℕ) (b : List K) → length (delete_at i b) ≤ length b
unfolding delete_at
length-delete_at-le i [] = omega arith
length-delete_at-le zero (p ∷ b) = omega arith
length-delete_at-le (suc i) (p ∷ b) = omega (arith, length-delete_at-le i b)

module _ {K : Type 0} (dec : Discrete K) where
  pub count-delete_at :
      (k : K) (b : List K) (i : ℕ) (p : K)
      → get_elem? b i ≡ some p
      → count dec k (delete_at i b) + one_if dec k p ≡ count dec k b
  unfolding delete_at count
  count-delete_at k [] i p e = ground arith
  count-delete_at k (x ∷ b) zero p e = ground arith
  count-delete_at k (x ∷ b) (suc i) p e = ground (arith, count-delete_at k b i p e)

  find_from-some :
      (i : ℕ) (node : K) (b : List K) (j : ℕ)
      → find_from dec i node b ≡ some j
      → (i ≤ j) × (get_elem? b (j - i) ≡ some node)
  unfolding find_from
  find_from-some i node [] j e = ground arith
  find_from-some i node (p ∷ b) j e = elim (Bool-cases (eqb dec node p)) [
    | inl here ↦
        let same : i ≡ j = ground arith in
        let first : j - i ≡ 0 = omega arith in (omega arith, rw first (ground arith))
    | inr there ↦
        let (le, at) = find_from-some (i + 1) node b j (ground arith) in
        let next : j - i ≡ suc (j - (i + 1)) = omega arith in (omega arith, rw next at)
  ]

  pub peer_index-some :
      (b : List K) (node : K) (j : ℕ)
      → peer_index_in_bucket dec b node ≡ some j
      → get_elem? b j ≡ some node
  unfolding peer_index_in_bucket
  peer_index-some b node j e =
      let (_, at) = find_from-some 0 node b j e in let same : j ≡ j - 0 = omega arith in rw same at
