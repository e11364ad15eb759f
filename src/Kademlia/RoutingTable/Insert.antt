-- ===== src/Kademlia/RoutingTable/Insert.antt =====
-- libp2p/protocols/kademlia/routing_table.nim: what `insert` does on each of its branches.
use nim_libp2p.Common.{
  ℕ, ◌≤◌, ◌<◌, ◌≡◌, ◌≢◌, refl, ap, ◌∙◌, arith, false, some, List, [], ◌∷◌, ◌++◌, length,
  length-append, length-set, get_elem?, set, ◌==◌, if◌then◌else◌,
}
use nim_libp2p.Common.Sets
use nim_libp2p.Common.Sets.{count}
use nim_libp2p.Kademlia.PeerRegistry.{PeerRegistry, upsert, add_membership}
use nim_libp2p.Kademlia.PeerRegistry.Members.{is_member, membership-add_membership}
use nim_libp2p.Kademlia.PeerRegistry.Linked.{upsert_tables}
use nim_libp2p.Kademlia.RoutingTable.{State, bucket_count, extend}
use nim_libp2p.Kademlia.RoutingTable.Buckets.{
  bucket_at, bucket_at-extend, length-extend, bucket_at-set, get_elem?-bucket_at, contains-count,
  count-add,
}
use nim_libp2p.Kademlia.RoutingTable.Invariant.{bucket_of, IsValid, bucket_of-lt}

-- What a registry must say after one bucket was written.
module _ {K : Type 0} (dec : Discrete K) (to_bytes : K → List ℕ) (hasher : List ℕ → List ℕ) where
  -- One bucket `b` in place of the one at `idx`, and a registry that agrees.
  pub record Rewrites (s : State K) (idx : ℕ) (b : List K) (bs : List (List K))
      (reg : PeerRegistry K) : Type 0 where
    pub buckets : (i : ℕ) → bucket_at i bs ≡ (if i == idx then b else bucket_at i s.table.buckets)
    pub slots : length bs ≤ bucket_count s.table.config.max_buckets
    pub bounded : length b ≤ s.table.config.replication
    pub placed :
        (k : K) → count dec k b ≤ (if idx == bucket_of dec to_bytes hasher s.table k then 1 else 0)
    pub linked :
        (k : K)
        → is_member dec reg k s.table.self_id ≡ (
            if bucket_of dec to_bytes hasher s.table k == idx
            then Sets.contains dec k b
            else is_member dec s.registry k s.table.self_id)
    pub not_self : Sets.contains dec s.table.self_id b ≡ false
    pub not_local : Sets.contains dec s.table.local_node_id b ≡ false

  abbrev pub rebuilt : State K → List (List K) → PeerRegistry K → State K
  rebuilt s bs reg = record { table = record (s.table) { buckets = bs }; registry = reg }

  pub Rewrites-IsValid :
      {s : State K} {idx : ℕ} {b : List K} {bs : List (List K)} {reg : PeerRegistry K}
      → IsValid dec to_bytes hasher s
      → Rewrites s idx b bs reg
      → IsValid dec to_bytes hasher (rebuilt s bs reg)
  unfolding bucket_of
  Rewrites-IsValid {s} {idx} {b} {bs} {reg} v w =
      let at : K → ℕ = bucket_of dec to_bytes hasher s.table in
      record {
        keyed = v.keyed;
        bounded = λ i. ground (arith, v.bounded i, w.buckets i, w.bounded);
        placed = λ k i. ground (arith, v.placed k i, w.buckets i, w.placed k);
        linked = λ k. ground (arith, v.linked k, w.buckets (at k), w.linked k);
        not_self = ground (arith, v.not_self, w.buckets (at s.table.self_id), w.not_self);
        not_local = ground (arith, v.not_local, w.buckets (at s.table.local_node_id), w.not_local);
        slots = w.slots;
      }

-- The bucket at `idx`, in the buckets made long enough for it.
module _ {K : Type 0} (idx : ℕ) (bs : List (List K)) where
  pub extend_long : idx < length (extend idx bs)
  extend_long = omega (arith, length-extend idx bs)

  pub get_elem?-extend : get_elem? (extend idx bs) idx ≡ some (bucket_at idx bs)
  get_elem?-extend =
      get_elem?-bucket_at idx (extend idx bs) extend_long ∙ ap some (bucket_at-extend idx idx bs)

  pub bucket_at-write :
      (b : List K) (i : ℕ)
      → bucket_at i (set (extend idx bs) idx b) ≡ (if i == idx then b else bucket_at i bs)
  bucket_at-write b i =
      bucket_at-set i idx b (extend idx bs) extend_long
      ∙ ap (λ c. if i == idx then b else c) (bucket_at-extend i idx bs)

  pub length-write :
      (b : List K) (most : ℕ)
      → length bs ≤ most
      → idx < most
      → length (set (extend idx bs) idx b) ≤ most
  length-write b most h k = omega (arith, length-set (extend idx bs) idx b, length-extend idx bs)

module _ {K : Type 0} (dec : Discrete K) (to_bytes : K → List ℕ) (hasher : List ℕ → List ℕ)
    (s : State K) (v : IsValid dec to_bytes hasher s) (node : K) (now : ℕ) where
  abbrev pub idx : ℕ
  idx = bucket_of dec to_bytes hasher s.table node

  abbrev pub old_bucket : List K
  old_bucket = bucket_at idx s.table.buckets

  pub is_member-upsert :
      (reg : PeerRegistry K) (k t : K)
      → is_member dec (upsert dec reg node now) k t ≡ is_member dec reg k t
  is_member-upsert reg k t = rw upsert_tables

  -- The bucket is written back as it was: nothing but `lastSeen` may change.
  pub Rewrites-same :
      (bs : List (List K)) (reg : PeerRegistry K)
      → ((i : ℕ) → bucket_at i bs ≡ bucket_at i s.table.buckets)
      → length bs ≤ bucket_count s.table.config.max_buckets
      → ((k : K) → is_member dec reg k s.table.self_id ≡ is_member dec s.registry k s.table.self_id)
      → Rewrites dec to_bytes hasher s idx old_bucket bs reg
  Rewrites-same bs reg same few members =
      let at : K → ℕ = bucket_of dec to_bytes hasher s.table in
      record {
        buckets = λ i. ground (arith, same i);
        slots = few;
        bounded = v.bounded idx;
        placed = λ k. v.placed k idx;
        linked = λ k. ground (arith, members k, v.linked k);
        not_self = ground (
          arith,
          v.not_self,
          v.placed s.table.self_id idx,
          contains-count dec s.table.self_id old_bucket,
        );
        not_local = ground (
          arith,
          v.not_local,
          v.placed s.table.local_node_id idx,
          contains-count dec s.table.local_node_id old_bucket,
        );
      }

  pub Rewrites-append :
      node ≢ s.table.self_id
      → node ≢ s.table.local_node_id
      → Sets.contains dec node old_bucket ≡ false
      → length old_bucket < s.table.config.replication
      → Rewrites dec to_bytes hasher s idx
          (old_bucket ++ node ∷ [])
          (set (extend idx s.table.buckets) idx (old_bucket ++ node ∷ []))
          (add_membership dec (upsert dec s.registry node now) node s.table.self_id now)
  Rewrites-append ns nl absent room =
      let b : List K = old_bucket ++ node ∷ [] in
      let same = Rewrites-same s.table.buckets s.registry (λ i. refl) v.slots (λ k. refl) in
      record {
        buckets = bucket_at-write idx s.table.buckets b;
        slots =
            length-write idx s.table.buckets b _ v.slots
              (bucket_of-lt dec to_bytes hasher s.table node);
        bounded = omega (arith, length-append old_bucket (node ∷ []));
        placed = λ k. ground (
          arith,
          v.placed k idx,
          count-add dec k old_bucket node,
          contains-count dec k old_bucket,
          absent,
        );
        linked = λ k. ground (
          arith,
          membership-add_membership dec (upsert dec s.registry node now) node s.table.self_id now k
              s.table.self_id,
          is_member-upsert s.registry k s.table.self_id,
          v.linked k,
          count-add dec k old_bucket node,
          contains-count dec k old_bucket,
          contains-count dec k b,
        );
        not_self = ground (
          arith,
          same.not_self,
          count-add dec s.table.self_id old_bucket node,
          contains-count dec s.table.self_id old_bucket,
          contains-count dec s.table.self_id b,
          ns,
        );
        not_local = ground (
          arith,
          same.not_local,
          count-add dec s.table.local_node_id old_bucket node,
          contains-count dec s.table.local_node_id old_bucket,
          contains-count dec s.table.local_node_id b,
          nl,
        );
      }
