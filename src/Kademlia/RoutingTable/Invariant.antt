-- ===== src/Kademlia/RoutingTable/Invariant.antt =====
-- libp2p/protocols/kademlia/routing_table.nim: the invariant of a table and its registry.
use nim_libp2p.Common.{
  ℕ, ◌-◌, ◌≤◌, ◌<◌, ◌≡◌, refl, arith, dec_lt, min, false, some, List, [], length, ◌==◌,
  if◌then◌else◌,
}
use nim_libp2p.Common.Sets
use nim_libp2p.Common.Sets.{count}
use nim_libp2p.Common.Table.{lookup}
use nim_libp2p.Kademlia.Distance.{leading_zeros, xor_distance, xor_bytes}
use nim_libp2p.Kademlia.Distance.Order.{IsHash}
use nim_libp2p.Kademlia.PeerRegistry
use nim_libp2p.Kademlia.PeerRegistry.{PeerRegistry}
use nim_libp2p.Kademlia.PeerRegistry.Members.{is_member}
use nim_libp2p.Kademlia.RoutingTable.{
  RoutingTable, State, bucket_count, bucket_index, contains, self_hash, hash_for,
}
use nim_libp2p.Kademlia.RoutingTable.Buckets.{
  bucket_at, get_elem?-bucket_at, get_elem?-none, is_some-peer_index,
}

module _ {K : Type 0} (dec : Discrete K) (to_bytes : K → List ℕ) (hasher : List ℕ → List ℕ) where
  -- The hasher returns an array of `IdLength` bytes.
  abbrev pub HashesWell : Type 0
  HashesWell = (k : K) → IsHash (hash_for dec to_bytes hasher k)

  unfoldable pub bucket_of : RoutingTable K → K → ℕ
  bucket_of rt k =
      min
        (leading_zeros
          (xor_bytes (self_hash dec to_bytes hasher rt) (hash_for dec to_bytes hasher k)))
        (bucket_count rt.config.max_buckets - 1)

  -- The keys that the buckets hold, the registry's memberships of the table, and what the table
  -- never holds.
  pub record IsValid (s : State K) : Type 0 where
    pub keyed : IsHash (self_hash dec to_bytes hasher s.table)
    pub bounded : (i : ℕ) → length (bucket_at i s.table.buckets) ≤ s.table.config.replication
    pub placed :
        (k : K) (i : ℕ)
        → count dec k (bucket_at i s.table.buckets) ≤ (if i == bucket_of s.table k then 1 else 0)
    pub linked :
        (k : K)
        → is_member dec s.registry k s.table.self_id
          ≡ Sets.contains dec k (bucket_at (bucket_of s.table k) s.table.buckets)
    pub not_self :
        Sets.contains dec s.table.self_id
          (bucket_at (bucket_of s.table s.table.self_id) s.table.buckets)
        ≡ false
    pub not_local :
        Sets.contains dec s.table.local_node_id
          (bucket_at (bucket_of s.table s.table.local_node_id) s.table.buckets)
        ≡ false
    pub slots : length s.table.buckets ≤ bucket_count s.table.config.max_buckets

  pub bucket_of-lt :
      (rt : RoutingTable K) (k : K) → bucket_of rt k < bucket_count rt.config.max_buckets
  unfolding bucket_of bucket_count
  bucket_of-lt rt k = omega arith

  pub bucket_index-bucket_of :
      (rt : RoutingTable K) (k : K)
      → HashesWell
      → IsHash (self_hash dec to_bytes hasher rt)
      → bucket_index dec to_bytes hasher rt k ≡ some (bucket_of rt k)
  unfolding bucket_index bucket_of xor_distance
  bucket_index-bucket_of rt k hw hs = ground (arith, hw k)

  -- `contains` looks at one bucket only, and that is enough.
  pub contains-bucket_at :
      (rt : RoutingTable K) (k : K)
      → HashesWell
      → IsHash (self_hash dec to_bytes hasher rt)
      → contains dec to_bytes hasher rt k
        ≡ some (Sets.contains dec k (bucket_at (bucket_of rt k) rt.buckets))
  unfolding contains Sets.contains
  contains-bucket_at rt k hw hs = elim (dec_lt (bucket_of rt k) (length rt.buckets)) [
    | yes h ↦ ground (
      arith,
      bucket_index-bucket_of rt k hw hs,
      get_elem?-bucket_at (bucket_of rt k) rt.buckets h,
      is_some-peer_index dec k (bucket_at (bucket_of rt k) rt.buckets),
    )
    | no h ↦ ground (
      arith,
      bucket_index-bucket_of rt k hw hs,
      get_elem?-none (bucket_of rt k) rt.buckets (omega arith),
    )
  ]

  -- A new table over a new registry is valid.
  pub empty-IsValid :
      (rt : RoutingTable K)
      → rt.buckets ≡ []
      → IsHash (self_hash dec to_bytes hasher rt)
      → IsValid (record { table = rt; registry = PeerRegistry.new })
  empty-IsValid rt e h =
      let no_key : (j : K) (i : ℕ) → Sets.contains dec j (bucket_at i rt.buckets) ≡ false =
        λ j i. rw e (unfold Sets.contains in refl) in
      record {
        keyed = h;
        bounded = λ i. rw e (omega arith);
        placed = λ k i. rw e (unfold count in (omega arith));
        linked = λ k. rw (no_key k (bucket_of rt k)) (unfold lookup in refl);
        not_self = no_key rt.self_id (bucket_of rt rt.self_id);
        not_local = no_key rt.local_node_id (bucket_of rt rt.local_node_id);
        slots = rw e (omega arith);
      }
