-- ===== src/Kademlia/RoutingTable/Admit.antt =====
-- libp2p/protocols/kademlia/routing_table.nim: `insert` keeps the table valid, and what it admits.
use nim_libp2p.Common.{
  ℕ, ◌≡◌, ◌≢◌, refl, sym, ◌∙◌, arith, Bool, true, false, some, List, length, length-set, get_elem?,
  set, ltb, ◌||◌, eqb, is_some, ltb→lt, Bool-cases, Option-cases, inl, inr,
}
use nim_libp2p.Common.Sets
use nim_libp2p.Common.Sets.{count}
use nim_libp2p.Kademlia.PeerRegistry.{PeerRegistry, upsert, add_membership, remove_membership}
use nim_libp2p.Kademlia.PeerRegistry.Members.{
  membership-add_membership, membership-remove_membership,
}
use nim_libp2p.Kademlia.RoutingTable.{
  State, contains, extend, peer_index_in_bucket, try_replace_stale_peer, insert_into, insert,
}
use nim_libp2p.Kademlia.RoutingTable.Buckets.{
  bucket_at-extend, length-extend, is_some-peer_index, contains-count, contains-get_elem?,
  contains-set, contains-add, count-set, try_replace_stale_peer-oldest,
}
use nim_libp2p.Kademlia.RoutingTable.Invariant.{
  HashesWell, bucket_of, IsValid, bucket_of-lt, bucket_index-bucket_of, contains-bucket_at,
}
use nim_libp2p.Kademlia.RoutingTable.Insert.{
  Rewrites, rebuilt, Rewrites-IsValid, get_elem?-extend, bucket_at-write, length-write,
  is_member-upsert, Rewrites-same, Rewrites-append, idx, old_bucket,
}

module _ {K : Type 0} (dec : Discrete K) (to_bytes : K → List ℕ) (hasher : List ℕ → List ℕ)
    (s : State K) (v : IsValid dec to_bytes hasher s) (node : K) (now : ℕ) where
  abbrev at : ℕ
  at = idx dec to_bytes hasher s v node now

  abbrev bucket : List K
  bucket = old_bucket dec to_bytes hasher s v node now

  Rewrites-replace :
      (i : ℕ) (old : K)
      → node ≢ s.table.self_id
      → node ≢ s.table.local_node_id
      → Sets.contains dec node bucket ≡ false
      → get_elem? bucket i ≡ some old
      → Rewrites dec to_bytes hasher s at
          (set bucket i node)
          (set (extend at s.table.buckets) at (set bucket i node))
          (add_membership dec
            (upsert dec (remove_membership dec s.registry old s.table.self_id) node now)
            node
            s.table.self_id
            now)
  Rewrites-replace i old ns nl absent here =
      let b : List K = set bucket i node in
      let reg : PeerRegistry K = remove_membership dec s.registry old s.table.self_id in
      let same =
        Rewrites-same dec to_bytes hasher s v node now s.table.buckets s.registry (λ i. refl)
          v.slots (λ k. refl) in
      record {
        buckets = bucket_at-write at s.table.buckets b;
        slots =
            length-write at s.table.buckets b _ v.slots
              (bucket_of-lt dec to_bytes hasher s.table node);
        bounded = omega (arith, length-set bucket i node, v.bounded at);
        placed = λ k. ground (
          arith,
          v.placed k at,
          count-set dec k bucket i old node here,
          contains-count dec k bucket,
          absent,
        );
        linked = λ k. ground (
          arith,
          membership-add_membership dec (upsert dec reg node now) node s.table.self_id now k
              s.table.self_id,
          is_member-upsert dec to_bytes hasher s v node now reg k s.table.self_id,
          membership-remove_membership dec s.registry old s.table.self_id k s.table.self_id,
          v.linked k,
          v.placed k at,
          count-set dec k bucket i old node here,
          contains-count dec k bucket,
          contains-count dec k b,
          contains-get_elem? dec bucket i old here,
          absent,
        );
        not_self = ground (
          arith,
          same.not_self,
          count-set dec s.table.self_id bucket i old node here,
          contains-count dec s.table.self_id bucket,
          contains-count dec s.table.self_id b,
          ns,
        );
        not_local = ground (
          arith,
          same.not_local,
          count-set dec s.table.local_node_id bucket i old node here,
          contains-count dec s.table.local_node_id bucket,
          contains-count dec s.table.local_node_id b,
          nl,
        );
      }

  -- What `insert` has done: the table is valid, and either the node is in it, or no key was added
  -- or removed and the registry is as it was.
  pub record Inserted (r : Bool × State K) : Type 0 where
    pub valid : IsValid dec to_bytes hasher r.1
    pub admitted : r.0 ≡ true → contains dec to_bytes hasher r.1.table node ≡ some true
    pub refused : r.0 ≡ false → r.1.registry ≡ s.registry
    pub kept :
        r.0 ≡ false
        → (k : K)
        → contains dec to_bytes hasher r.1.table k ≡ contains dec to_bytes hasher s.table k

  wide : State K
  wide = rebuilt dec to_bytes hasher s (extend at s.table.buckets) s.registry

  Inserted-Rewrites :
      {b : List K} {bs : List (List K)} {reg : PeerRegistry K}
      → HashesWell dec to_bytes hasher
      → Rewrites dec to_bytes hasher s at b bs reg
      → Sets.contains dec node b ≡ true
      → Inserted (true, rebuilt dec to_bytes hasher s bs reg)
  unfolding bucket_of
  Inserted-Rewrites {b} {bs} {reg} hw w there = record {
    valid = Rewrites-IsValid dec to_bytes hasher v w;
    admitted = λ _. ground (
      arith,
      contains-bucket_at dec to_bytes hasher (rebuilt dec to_bytes hasher s bs reg).table node hw
          v.keyed,
      w.buckets at,
    );
    refused = λ e. cc;
    kept = λ e. cc;
  }

  wide_same : Rewrites dec to_bytes hasher s at bucket (extend at s.table.buckets) s.registry
  wide_same =
      Rewrites-same dec to_bytes hasher s v node now (extend at s.table.buckets) s.registry
        (λ i. bucket_at-extend i at s.table.buckets)
        (omega (
          arith,
          length-extend at s.table.buckets,
          bucket_of-lt dec to_bytes hasher s.table node,
          v.slots,
        ))
        (λ k. refl)

  Inserted-refused : HashesWell dec to_bytes hasher → Inserted (false, wide)
  unfolding wide bucket_of
  Inserted-refused hw = record {
    valid = Rewrites-IsValid dec to_bytes hasher v wide_same;
    admitted = λ e. cc;
    refused = λ _. refl;
    kept = λ _ k. ground (
      arith,
      contains-bucket_at dec to_bytes hasher wide.table k hw v.keyed,
      contains-bucket_at dec to_bytes hasher s.table k hw v.keyed,
      bucket_at-extend (bucket_of dec to_bytes hasher s.table k) at s.table.buckets,
    );
  }

  upserted :
      Rewrites dec to_bytes hasher s at bucket
        (extend at s.table.buckets)
        (upsert dec s.registry node now)
  upserted =
      Rewrites-same dec to_bytes hasher s v node now (extend at s.table.buckets)
        (upsert dec s.registry node now) (λ i. bucket_at-extend i at s.table.buckets)
        wide_same.slots
        (λ k. is_member-upsert dec to_bytes hasher s v node now s.registry k s.table.self_id)

  insert_into-Inserted :
      HashesWell dec to_bytes hasher
      → node ≢ s.table.self_id
      → node ≢ s.table.local_node_id
      → Inserted (insert_into dec wide at bucket node now)
  unfolding wide insert_into
  insert_into-Inserted hw ns nl =
      elim (Bool-cases (is_some (peer_index_in_bucket dec bucket node))) [
        | inl there ↦
            rw there
              (Inserted-Rewrites hw upserted (sym (is_some-peer_index dec node bucket) ∙ there))
        | inr absent ↦
            let absent' : Sets.contains dec node bucket ≡ false =
              sym (is_some-peer_index dec node bucket) ∙ absent in
            rw absent (elim (Bool-cases (ltb (length bucket) s.table.config.replication)) [
              | inl room ↦ rw room (
                  Inserted-Rewrites hw
                    (Rewrites-append dec to_bytes hasher s v node now ns nl absent'
                      (ltb→lt _ _ room))
                    (contains-add dec bucket node))
              | inr full ↦
                  rw full (elim (Option-cases (try_replace_stale_peer dec wide bucket node now)) [
                    | inl none_left ↦ rw none_left (Inserted-refused hw)
                    | inr ((b', reg), replaced) ↦
                        let (i, old, _, here, eb, er, _, _) =
                          try_replace_stale_peer-oldest dec wide bucket node now replaced in
                        rw (replaced, eb, er)
                          (Inserted-Rewrites hw (Rewrites-replace i old ns nl absent' here)
                            (contains-set dec bucket i old node here))
                  ])
            ])
      ]

  unchanged : Inserted (false, s)
  unchanged = record { valid = v; admitted = λ e. cc; refused = λ _. refl; kept = λ _ k. refl }

  -- On a valid table `insert` runs with no failed assertion and keeps the table valid: no bucket
  -- over its capacity, every key once and in the bucket of its distance, the registry's
  -- memberships exactly the keys held, and never the table's own ids. If it answers true the node
  -- is in the table; if it answers false the same keys are in it and the registry is as it was.
  pub insert-Inserted :
      HashesWell dec to_bytes hasher
      → (r : Bool × State K) × (insert dec to_bytes hasher s node now ≡ some r) × Inserted r
  unfolding insert wide
  insert-Inserted hw = elim (Bool-cases s.table.detached) [
    | inl gone ↦ ((false, s), rw gone, unchanged)
    | inr attached ↦
        elim (Bool-cases (eqb dec node s.table.self_id || eqb dec node s.table.local_node_id)) [
          | inl own ↦ ((false, s), ground arith, unchanged)
          | inr other ↦ (
            insert_into dec wide at bucket node now,
            ground (
              arith,
              bucket_index-bucket_of dec to_bytes hasher s.table node hw v.keyed,
              get_elem?-extend at s.table.buckets,
            ),
            insert_into-Inserted hw (λ e. ground arith) (λ e. ground arith),
          )
        ]
  ]
