-- ===== src/Kademlia/RoutingTable/Remove.antt =====
-- libp2p/protocols/kademlia/routing_table.nim: `removePeer`, `detachAll` and `markUseful`.
use nim_libp2p.Common.{
  ℕ, ◌<◌, ◌≡◌, ◌≢◌, refl, sym, ap, ◌∙◌, arith, dec_lt, Bool, true, false, Option, none, some, List,
  [], length, length-set, get_elem?, set, ◌||◌, eqb, if◌then◌else◌, Bool-cases, Option-cases, inl,
  inr,
}
use nim_libp2p.Common.Sets
use nim_libp2p.Common.Sets.{count}
use nim_libp2p.Common.Table.{Distinct}
use nim_libp2p.Kademlia.PeerRegistry.{mark_useful, drop_table, remove_membership}
use nim_libp2p.Kademlia.PeerRegistry.Members.{
  is_member, membership-remove_membership, membership-drop_table,
}
use nim_libp2p.Kademlia.RoutingTable.{State, bucket_index, contains, peer_index_in_bucket, insert}
use nim_libp2p.Kademlia.RoutingTable.Buckets.{
  bucket_at, bucket_at-set, get_elem?-bucket_at, get_elem?-none, is_some-peer_index, contains-count,
  contains-get_elem?,
}
use nim_libp2p.Kademlia.RoutingTable.Invariant.{
  HashesWell, bucket_of, IsValid, bucket_index-bucket_of, contains-bucket_at,
}
use nim_libp2p.Kademlia.RoutingTable.Insert.{Rewrites, rebuilt, Rewrites-IsValid, idx}
use nim_libp2p.Kademlia.RoutingTable.Positions.{
  delete_at, length-delete_at-le, count-delete_at, peer_index-some,
}

module _ {K : Type 0} (dec : Discrete K) where
  unfoldable pub mark_useful_in : State K → K → ℕ → State K
  mark_useful_in s node now =
      if s.table.detached then s else record s { registry = mark_useful dec s.registry node now }

  unfoldable pub detach_all : State K → State K
  detach_all s = record {
    table = record (s.table) { detached = true; buckets = [] };
    registry = drop_table dec s.registry s.table.self_id;
  }

module _ {K : Type 0} (dec : Discrete K) (to_bytes : K → List ℕ) (hasher : List ℕ → List ℕ) where
  -- `none` is a failed assertion.
  unfoldable pub remove_peer : State K → K → Option (Bool × State K)
  remove_peer s node =
      if eqb dec node s.table.self_id || eqb dec node s.table.local_node_id
      then some (false, s)
      else elim (bucket_index dec to_bytes hasher s.table node) [
        | none ↦ none
        | some idx ↦ elim (get_elem? s.table.buckets idx) [
          | none ↦ some (false, s)
          | some bucket ↦ elim (peer_index_in_bucket dec bucket node) [
            | none ↦ some (false, s)
            | some pos ↦ some (
              true,
              record {
                table = record (s.table) {
                  buckets = set s.table.buckets idx (delete_at pos bucket);
                };
                registry = remove_membership dec s.registry node s.table.self_id;
              },
            )
          ]
        ]
      ]

module _ {K : Type 0} (dec : Discrete K) (to_bytes : K → List ℕ) (hasher : List ℕ → List ℕ)
    (s : State K) (v : IsValid dec to_bytes hasher s) (node : K)
    (hw : HashesWell dec to_bytes hasher) where
  at : ℕ
  at = bucket_of dec to_bytes hasher s.table node

  bucket : List K
  unfolding at
  bucket = bucket_at at s.table.buckets

  -- What `removePeer` has done: the table is valid, the node is gone, and the answer says whether
  -- it was there; every other key is there exactly if it was.
  pub record Removed (r : Bool × State K) : Type 0 where
    pub valid : IsValid dec to_bytes hasher r.1
    pub gone : contains dec to_bytes hasher r.1.table node ≡ some false
    pub answer : contains dec to_bytes hasher s.table node ≡ some r.0
    pub others :
        (k : K)
        → k ≢ node
        → contains dec to_bytes hasher r.1.table k ≡ contains dec to_bytes hasher s.table k

  Removed-absent : Sets.contains dec node bucket ≡ false → Removed (false, s)
  unfolding bucket
  Removed-absent absent = record {
    valid = v;
    gone = contains-bucket_at dec to_bytes hasher s.table node hw v.keyed ∙ ap some absent;
    answer = contains-bucket_at dec to_bytes hasher s.table node hw v.keyed ∙ ap some absent;
    others = λ k _. refl;
  }

  Rewrites-delete :
      (pos : ℕ)
      → at < length s.table.buckets
      → get_elem? bucket pos ≡ some node
      → Rewrites dec to_bytes hasher s at
          (delete_at pos bucket)
          (set s.table.buckets at (delete_at pos bucket))
          (remove_membership dec s.registry node s.table.self_id)
  unfolding bucket
  Rewrites-delete pos h here =
      let b : List K = delete_at pos bucket in
      let own : (k : K)
          → Sets.contains dec k
              (bucket_at (bucket_of dec to_bytes hasher s.table k) s.table.buckets)
            ≡ false
          → Sets.contains dec k b ≡ false =
        λ k e. ground (
          arith,
          e,
          v.placed k at,
          contains-count dec k bucket,
          contains-count dec k b,
          count-delete_at dec k bucket pos node here,
        ) in
      record {
        buckets = λ i. bucket_at-set i at b s.table.buckets h;
        slots = omega (arith, length-set s.table.buckets at b, v.slots);
        bounded = omega (arith, length-delete_at-le pos bucket, v.bounded at);
        placed = λ k. ground (arith, v.placed k at, count-delete_at dec k bucket pos node here);
        linked = λ k. ground (
          arith,
          membership-remove_membership dec s.registry node s.table.self_id k s.table.self_id,
          v.linked k,
          v.placed k at,
          count-delete_at dec k bucket pos node here,
          contains-count dec k bucket,
          contains-count dec k b,
        );
        not_self = own s.table.self_id v.not_self;
        not_local = own s.table.local_node_id v.not_local;
      }

  Removed-here :
      (pos : ℕ)
      → at < length s.table.buckets
      → get_elem? bucket pos ≡ some node
      → Removed (
        true,
        rebuilt dec to_bytes hasher s
            (set s.table.buckets at (delete_at pos bucket))
            (remove_membership dec s.registry node s.table.self_id),
      )
  unfolding bucket bucket_of
  Removed-here pos h here =
      let b : List K = delete_at pos bucket in
      let w = Rewrites-delete pos h here in
      let s' =
        rebuilt dec to_bytes hasher s (set s.table.buckets at b)
          (remove_membership dec s.registry node s.table.self_id) in
      let was : Sets.contains dec node bucket ≡ true =
        contains-get_elem? dec bucket pos node here in
      record {
        valid = Rewrites-IsValid dec to_bytes hasher v w;
        gone = ground (
          arith,
          contains-bucket_at dec to_bytes hasher s'.table node hw v.keyed,
          w.buckets at,
          v.placed node at,
          count-delete_at dec node bucket pos node here,
          contains-count dec node b,
        );
        answer = contains-bucket_at dec to_bytes hasher s.table node hw v.keyed ∙ ap some was;
        others = λ k other. ground (
          arith,
          other,
          contains-bucket_at dec to_bytes hasher s'.table k hw v.keyed,
          contains-bucket_at dec to_bytes hasher s.table k hw v.keyed,
          w.buckets (bucket_of dec to_bytes hasher s.table k),
          count-delete_at dec k bucket pos node here,
          contains-count dec k bucket,
          contains-count dec k b,
        );
      }

  -- On a valid table `removePeer` runs with no failed assertion and keeps the table valid. The node
  -- is not in it afterwards, the answer says whether it was, and no other key comes or goes.
  pub remove_peer-Removed :
      (r : Bool × State K) × (remove_peer dec to_bytes hasher s node ≡ some r) × Removed r
  unfolding remove_peer at bucket
  remove_peer-Removed =
      elim (Bool-cases (eqb dec node s.table.self_id || eqb dec node s.table.local_node_id)) [
        | inl own ↦ ((false, s), rw own, Removed-absent (ground (arith, v.not_self, v.not_local)))
        | inr other ↦ elim (dec_lt at (length s.table.buckets)) [
          | no far ↦ (
            (false, s),
            ground (
              arith,
              bucket_index-bucket_of dec to_bytes hasher s.table node hw v.keyed,
              get_elem?-none at s.table.buckets (omega arith),
            ),
            Removed-absent (
                unfold Sets.contains in
                rw ((get_elem?-none at s.table.buckets (omega arith)).1) refl),
          )
          | yes h ↦ elim (Option-cases (peer_index_in_bucket dec bucket node)) [
            | inl absent ↦ (
              (false, s),
              ground (
                arith,
                bucket_index-bucket_of dec to_bytes hasher s.table node hw v.keyed,
                get_elem?-bucket_at at s.table.buckets h,
              ),
              Removed-absent (ground (arith, is_some-peer_index dec node bucket)),
            )
            | inr (pos, found) ↦ (
              (
                true,
                rebuilt dec to_bytes hasher s (set s.table.buckets at (delete_at pos bucket))
                    (remove_membership dec s.registry node s.table.self_id),
              ),
              ground (
                arith,
                bucket_index-bucket_of dec to_bytes hasher s.table node hw v.keyed,
                get_elem?-bucket_at at s.table.buckets h,
              ),
              Removed-here pos h (peer_index-some dec bucket node pos found),
            )
          ]
        ]
      ]

  -- `detachAll` empties the table, takes every membership of it out of the registry, and blocks
  -- further inserts.
  pub detach_all-IsValid :
      (k : K) (now : ℕ)
      → Distinct dec s.registry.tables_by_peer
      → IsValid dec to_bytes hasher (detach_all dec s)
        × (contains dec to_bytes hasher (detach_all dec s).table k ≡ some false)
        × (is_member dec (detach_all dec s).registry k s.table.self_id ≡ false)
        × (insert dec to_bytes hasher (detach_all dec s) k now ≡ some (false, detach_all dec s))
  unfolding detach_all bucket_of insert
  detach_all-IsValid k now d =
      let no_key : (j : K) → Sets.contains dec j [] ≡ false = λ j. unfold Sets.contains in refl in
      let no_count : (j : K) → count dec j [] ≡ 0 = λ j. unfold count in refl in
      let no_member : (j : K)
          → is_member dec (drop_table dec s.registry s.table.self_id) j s.table.self_id ≡ false =
        λ j.
          ground
            (arith, membership-drop_table dec s.registry s.table.self_id j s.table.self_id d) in
      (
        record {
          keyed = v.keyed;
          bounded = λ i. omega arith;
          placed = λ j i. ground (arith, no_count j);
          linked = λ j. no_member j ∙ sym (no_key j);
          not_self = no_key s.table.self_id;
          not_local = no_key s.table.local_node_id;
          slots = omega arith;
        },
        contains-bucket_at dec to_bytes hasher (detach_all dec s).table k hw v.keyed
            ∙ ap some (no_key k),
        no_member k,
        refl,
      )
