-- ===== src/Kademlia/RoutingTable.antt =====
-- libp2p/protocols/kademlia/routing_table.nim: k-buckets of keys over the shared registry. The
-- registry is passed beside the table, since several tables write to one. A table's `now` is the
-- moment that every `Moment.now()` of one call returns, and `Moment.low` is 0.
pub mod Buckets
pub mod Invariant
pub mod Insert
pub mod Admit
pub mod Positions
pub mod Remove
pub mod Closest
use nim_libp2p.Common.{
  ℕ, zero, suc, ◌+◌, ◌-◌, ◌*◌, min, max, Bool, true, false, Option, none, some, List, [], ◌∷◌, ◌++◌,
  length, take, get_elem?, set, ltb, leb, ◌==◌, ◌||◌, ◌&&◌, not, eqb, is_some, if◌then◌else◌,
}
use nim_libp2p.Common.Sets
use nim_libp2p.Kademlia.Distance.{id_length, leading_zeros, lt, xor_distance}
use nim_libp2p.Kademlia.PeerRegistry
use nim_libp2p.Kademlia.PeerRegistry.{
  PeerRecord, PeerRegistry, upsert, add_membership, remove_membership, drop_table,
}

pub record Config : Type 0 where
  pub replication : ℕ
  pub max_buckets : ℕ
  pub self_id_pre_hashed : Bool
  pub usefulness_grace_period : ℕ
  pub bucket_stale_time : ℕ

pub record RoutingTable (K : Type 0) : Type 0 where
  pub self_id : K
  pub local_node_id : K
  pub buckets : List (List K)
  pub config : Config
  pub detached : Bool

-- A table with the registry that it shares.
pub record State (K : Type 0) : Type 0 where
  pub table : RoutingTable K
  pub registry : PeerRegistry K

abbrev pub max_buckets_limit : ℕ
max_buckets_limit = id_length * 8

unfoldable pub bucket_count : ℕ → ℕ
bucket_count max_buckets = min (max max_buckets 1) max_buckets_limit

-- `setLen(idx + 1)`, where that makes the sequence longer.
unfoldable pub extend : {K : Type 0} → ℕ → List (List K) → List (List K)
extend zero [] = [] ∷ []
extend zero (b ∷ bs) = b ∷ bs
extend (suc idx) [] = [] ∷ extend idx []
extend (suc idx) (b ∷ bs) = b ∷ extend idx bs

abbrev pub peer_count_of : {K : Type 0} → List (List K) → ℕ
peer_count_of [] = 0
peer_count_of (b ∷ bs) = length b + peer_count_of bs

abbrev pub peer_count : {K : Type 0} → RoutingTable K → ℕ
peer_count rt = peer_count_of rt.buckets

module _ {K : Type 0} (dec : Discrete K) where
  -- `find`, from index `i` on.
  unfoldable pub find_from : ℕ → K → List K → Option ℕ
  find_from i node [] = none
  find_from i node (p ∷ ps) =
      let rest = find_from (i + 1) node ps in if eqb dec node p then some i else rest

  unfoldable pub peer_index_in_bucket : List K → K → Option ℕ
  unfolding find_from
  peer_index_in_bucket bucket node = find_from 0 node bucket

  abbrev pub last_seen : PeerRegistry K → K → ℕ
  last_seen r p = elim (PeerRegistry.get dec r p) [ none ↦ 0 | some row ↦ row.last_seen ]

  -- The body of the loop of `replaceableCandidate` at index `i`: the best index so far, with the
  -- moment at which its peer was seen.
  unfoldable pub better : PeerRegistry K → K → ℕ → ℕ → ℕ → Option (ℕ × ℕ) → K → Option (ℕ × ℕ)
  better r self_id grace now i best p =
      if PeerRegistry.is_replaceable dec r p self_id grace now
      then elim best [
        | none ↦ some (i, last_seen r p)
        | some (j, t) ↦ if ltb (last_seen r p) t then some (i, last_seen r p) else some (j, t)
      ]
      else best

  unfoldable pub candidate_loop :
      PeerRegistry K → K → ℕ → ℕ → ℕ → Option (ℕ × ℕ) → List K → Option ℕ
  unfolding better
  candidate_loop r self_id grace now i best [] = elim best [ none ↦ none | some (j, t) ↦ some j ]
  candidate_loop r self_id grace now i best (p ∷ ps) =
      candidate_loop r self_id grace now (i + 1) (better r self_id grace now i best p) ps

  unfoldable pub replaceable_candidate : State K → List K → ℕ → ℕ → Option ℕ
  unfolding candidate_loop
  replaceable_candidate s bucket grace now =
      candidate_loop s.registry s.table.self_id grace now 0 none bucket

  -- The new bucket and registry; `none` where the source returns false.
  unfoldable pub try_replace_stale_peer :
      State K → List K → K → ℕ → Option (List K × PeerRegistry K)
  try_replace_stale_peer s bucket new_node now =
      if ltb (length bucket) s.table.config.replication
      then none
      else elim (replaceable_candidate s bucket s.table.config.usefulness_grace_period now) [
        | none ↦ none
        | some idx ↦ elim (get_elem? bucket idx) [
          | none ↦ none
          | some old ↦
              some (set bucket idx new_node, remove_membership dec s.registry old s.table.self_id)
        ]
      ]

  -- `insert` from the lookup in the bucket on; the buckets are long enough here.
  unfoldable pub insert_into : State K → ℕ → List K → K → ℕ → Bool × State K
  insert_into s idx bucket node now =
      if is_some (peer_index_in_bucket bucket node)
      then (true, record s { registry = upsert dec s.registry node now })
      else if ltb (length bucket) s.table.config.replication
      then (
        true,
        record {
          table = record (s.table) { buckets = set s.table.buckets idx (bucket ++ node ∷ []) };
          registry = add_membership dec (upsert dec s.registry node now) node s.table.self_id now;
        },
      )
      else elim (try_replace_stale_peer s bucket node now) [
        | none ↦ (false, s)
        | some (bucket', registry) ↦ (
          true,
          record {
            table = record (s.table) { buckets = set s.table.buckets idx bucket' };
            registry = add_membership dec (upsert dec registry node now) node s.table.self_id now;
          },
        )
      ]

  module _ (to_bytes : K → List ℕ) (hasher : List ℕ → List ℕ) where
    abbrev pub hash_for : K → List ℕ
    hash_for k = hasher (to_bytes k)

    abbrev pub self_hash : RoutingTable K → List ℕ
    self_hash rt = if rt.config.self_id_pre_hashed then to_bytes rt.self_id else hash_for rt.self_id

    -- `none` is the failed assertion of `xorDistance`.
    unfoldable pub bucket_index : RoutingTable K → K → Option ℕ
    bucket_index rt key = elim (xor_distance (self_hash rt) (hash_for key)) [
      | none ↦ none
      | some d ↦ some (min (leading_zeros d) (bucket_count rt.config.max_buckets - 1))
    ]

    unfoldable pub insert : State K → K → ℕ → Option (Bool × State K)
    insert s node now =
        if s.table.detached
        then some (false, s)
        else if eqb dec node s.table.self_id || eqb dec node s.table.local_node_id
        then some (false, s)
        else elim (bucket_index s.table node) [
          | none ↦ none
          | some idx ↦
              let buckets = extend idx s.table.buckets in
              elim (get_elem? buckets idx) [
                | none ↦ none
                | some bucket ↦ some (
                    insert_into (record s { table = record (s.table) { buckets = buckets } }) idx
                      bucket node now)
              ]
        ]

    unfoldable pub contains : RoutingTable K → K → Option Bool
    contains rt node = elim (bucket_index rt node) [
      | none ↦ none
      | some idx ↦ elim (get_elem? rt.buckets idx) [
        | none ↦ some false
        | some bucket ↦ some (is_some (peer_index_in_bucket bucket node))
      ]
    ]

    unfoldable pub is_replaceable : State K → K → ℕ → ℕ → Option Bool
    is_replaceable s node grace now = elim (bucket_index s.table node) [
      | none ↦ none
      | some idx ↦ elim (get_elem? s.table.buckets idx) [
        | none ↦ some false
        | some bucket ↦ some (
            is_some (peer_index_in_bucket bucket node)
            && PeerRegistry.is_replaceable dec s.registry node s.table.self_id grace now)
      ]
    ]
