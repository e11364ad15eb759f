-- ===== src/Kademlia/Tests.antt =====
-- libp2p/protocols/kademlia: the theorems at concrete inputs.
use nim_libp2p.Common.{
  ◌*◌, ◌^◌, ltb, ◌==◌, ℕ, ◌+◌, ◌%◌, ◌<◌, ◌≡◌, ◌↔◌, refl, arith, ℕ_discrete, Bool, true, false, ◌&&◌,
  ◌||◌, eqb, if◌then◌else◌, Option, none, some, List, [], ◌∷◌, length, All, min,
}
use nim_libp2p.Common.Sets.{count}
use nim_libp2p.Common.Table.{lookup}
use nim_libp2p.Kademlia.Distance.{count_leading_zero_bits, leading_zeros, lt, xor_distance}
use nim_libp2p.Kademlia.Distance.Order.{IsHash, lt_of_leading_zeros, xor_distance-IsHash}
use nim_libp2p.Kademlia.PeerRegistry
use nim_libp2p.Kademlia.ProbeBackoff
use nim_libp2p.Kademlia.ProbeBackoff.Held.{sum, record_failure-backed_off}
use nim_libp2p.Kademlia.PeerRegistry.{
  PeerRegistry, Membership, membership, add_membership, remove_membership, drop_table, drop_peer,
  mark_useful, upsert,
}
use nim_libp2p.Kademlia.PeerRegistry.Members.{is_member, membership-drop_table}
use nim_libp2p.Kademlia.PeerRegistry.Linked.{
  IsLinked, table_count, new-IsLinked, operations-IsLinked,
}
use nim_libp2p.Kademlia.RoutingTable.{
  Config, RoutingTable, State, insert, contains, last_seen, peer_count,
}
use nim_libp2p.Kademlia.RoutingTable.Invariant.{HashesWell, IsValid, empty-IsValid}
use nim_libp2p.Kademlia.RoutingTable.Admit.{Inserted, insert-Inserted}
use nim_libp2p.Kademlia.RoutingTable.Remove.{
  Removed, remove_peer, remove_peer-Removed, detach_all, detach_all-IsValid,
}
use nim_libp2p.Kademlia.RoutingTable.Closest.{
  find_closest, find_closest_best, IsSorted, NotCloser, hash_distance, all_keys,
}

-- A hasher that keeps the first byte: keys are numbers, read as one byte.
abbrev zeros : ℕ → List ℕ
zeros n = elim n [ ℕ.zero ↦ [] | ℕ.suc (m → ih) ↦ 0 ∷ ih ]

abbrev one_byte : List ℕ → List ℕ
one_byte [] = zeros 32
one_byte (b ∷ bs) = b % 256 ∷ zeros 31

abbrev to_bytes : ℕ → List ℕ
to_bytes k = k ∷ []

one_byte-HashesWell : HashesWell ℕ_discrete to_bytes one_byte
one_byte-HashesWell k = omega arith

abbrev config : Config
config = record {
  replication = 2;
  max_buckets = 256;
  self_id_pre_hashed = false;
  usefulness_grace_period = 10;
  bucket_stale_time = 100;
}

abbrev fresh : State ℕ
fresh = record {
  table = record {
    self_id = 7;
    local_node_id = 7;
    buckets = [];
    config = config;
    detached = false;
  };
  registry = PeerRegistry.new;
}

fresh-IsValid : IsValid ℕ_discrete to_bytes one_byte fresh
fresh-IsValid = empty-IsValid ℕ_discrete to_bytes one_byte fresh.table refl (one_byte-HashesWell 7)

after_insert : Option (Bool × State ℕ)
after_insert = insert ℕ_discrete to_bytes one_byte fresh 200 5

insert-Inserted_example :
    (r : Bool × State ℕ) × (insert ℕ_discrete to_bytes one_byte fresh 200 5 ≡ some r)
    × Inserted ℕ_discrete to_bytes one_byte fresh fresh-IsValid 200 5 r
insert-Inserted_example =
    insert-Inserted ℕ_discrete to_bytes one_byte fresh fresh-IsValid 200 5 one_byte-HashesWell

remove_peer-Removed_example :
    (r : Bool × State ℕ) × (remove_peer ℕ_discrete to_bytes one_byte fresh 200 ≡ some r)
    × Removed ℕ_discrete to_bytes one_byte fresh fresh-IsValid 200 one_byte-HashesWell r
remove_peer-Removed_example =
    remove_peer-Removed ℕ_discrete to_bytes one_byte fresh fresh-IsValid 200 one_byte-HashesWell

detach_all-IsValid_example :
    IsValid ℕ_discrete to_bytes one_byte (detach_all ℕ_discrete fresh)
    × (contains ℕ_discrete to_bytes one_byte (detach_all ℕ_discrete fresh).table 200 ≡ some false)
    × (is_member ℕ_discrete (detach_all ℕ_discrete fresh).registry 200 7 ≡ false)
    × (insert ℕ_discrete to_bytes one_byte (detach_all ℕ_discrete fresh) 200 9
        ≡ some (false, detach_all ℕ_discrete fresh))
detach_all-IsValid_example =
    detach_all-IsValid ℕ_discrete to_bytes one_byte fresh fresh-IsValid 200 one_byte-HashesWell 200
      9 tt

-- The registry that an insert of peer 200 into table 7 at moment 5 leaves.
abbrev one_peer : PeerRegistry ℕ
one_peer = record {
  peers = (200, record { node_id = 200; last_seen = 5; last_useful_at = none }) ∷ [];
  tables_by_peer = (200, (7, record { added_at = 5 }) ∷ []) ∷ [];
}

abbrev one_peer_table : RoutingTable ℕ
one_peer_table = record (fresh.table) { buckets = (200 ∷ 201 ∷ []) ∷ [] }

find_closest_best_example :
    (rest : List ℕ) × (length (find_closest ℕ_discrete to_bytes one_byte one_peer_table 201 1)
      ≡ min 1 (peer_count one_peer_table))
    × IsSorted
        (hash_distance ℕ_discrete to_bytes one_byte (one_byte (to_bytes 201)))
        (find_closest ℕ_discrete to_bytes one_byte one_peer_table 201 1)
    × All
        (λ p.
          All
            (NotCloser (hash_distance ℕ_discrete to_bytes one_byte (one_byte (to_bytes 201))) p)
            rest)
        (find_closest ℕ_discrete to_bytes one_byte one_peer_table 201 1)
    × ((k : ℕ)
        → count ℕ_discrete k (find_closest ℕ_discrete to_bytes one_byte one_peer_table 201 1)
            + count ℕ_discrete k rest
          ≡ count ℕ_discrete k (all_keys one_peer_table.buckets))
find_closest_best_example =
    find_closest_best ℕ_discrete to_bytes one_byte one_peer_table 201 1 one_byte-HashesWell

closest_is_self : find_closest ℕ_discrete to_bytes one_byte one_peer_table 201 1 ≡ 201 ∷ []
unfolding find_closest xor_distance lt
closest_is_self = refl

-- A full bucket of two peers, the second one never useful since it was added at moment 5.
abbrev full : State ℕ
full = record {
  table = record (fresh.table) { config = record config { replication = 1 } };
  registry = one_peer;
}

abbrev other_peer : List ℕ
other_peer = 201 ∷ []

lt_of_leading_zeros_example : lt (1 ∷ 0 ∷ []) (2 ∷ 255 ∷ []) ≡ true
unfolding count_leading_zero_bits
lt_of_leading_zeros_example =
    lt_of_leading_zeros (2 ∷ 255 ∷ []) (1 ∷ 0 ∷ []) (omega arith) (omega arith) refl zeros_grow
  where
    zeros_grow : leading_zeros (2 ∷ 255 ∷ []) < leading_zeros (1 ∷ 0 ∷ [])
    zeros_grow = unfold leading_zeros in omega arith

xor_distance-IsHash_example :
    (d : List ℕ) × (xor_distance (one_byte (to_bytes 3)) (one_byte (to_bytes 5)) ≡ some d)
    × (xor_distance (one_byte (to_bytes 5)) (one_byte (to_bytes 3)) ≡ some d)
    × IsHash d
    × ((leading_zeros d ≡ 256) ↔ (one_byte (to_bytes 3) ≡ one_byte (to_bytes 5)))
xor_distance-IsHash_example =
    xor_distance-IsHash (one_byte (to_bytes 3)) (one_byte (to_bytes 5)) (one_byte-HashesWell 3)
      (one_byte-HashesWell 5)

operations-IsLinked_example :
    IsLinked ℕ_discrete
      (add_membership ℕ_discrete (upsert ℕ_discrete PeerRegistry.new 200 5) 200 7 5)
    × IsLinked ℕ_discrete (mark_useful ℕ_discrete PeerRegistry.new 200 5)
    × IsLinked ℕ_discrete (remove_membership ℕ_discrete PeerRegistry.new 200 7)
    × IsLinked ℕ_discrete (drop_table ℕ_discrete PeerRegistry.new 7)
    × IsLinked ℕ_discrete (drop_peer ℕ_discrete PeerRegistry.new 200)
    × ((k : ℕ)
        → PeerRegistry.contains ℕ_discrete (upsert ℕ_discrete PeerRegistry.new 200 5) k ≡ (
            eqb ℕ_discrete k 200
            || ltb 0 (table_count ℕ_discrete (upsert ℕ_discrete PeerRegistry.new 200 5) k)))
    × ((k : ℕ)
        → ltb 0 (table_count ℕ_discrete (add_membership ℕ_discrete PeerRegistry.new 200 7 5) k) ≡ (
            eqb ℕ_discrete k 200
            || PeerRegistry.contains ℕ_discrete
                (add_membership ℕ_discrete PeerRegistry.new 200 7 5)
                k))
operations-IsLinked_example =
    operations-IsLinked ℕ_discrete PeerRegistry.new 200 7 5 (new-IsLinked ℕ_discrete)

membership-drop_table_example :
    membership ℕ_discrete (drop_table ℕ_discrete one_peer 7) 200 7
    ≡ (if eqb ℕ_discrete 7 7 then none else membership ℕ_discrete one_peer 200 7)
unfolding lookup
membership-drop_table_example = membership-drop_table ℕ_discrete one_peer 7 200 7 (refl, tt)

record_failure-backed_off_example :
    ProbeBackoff.backed_off ℕ_discrete 7
      (1 ∷ 2 ∷ [])
      14
      (ProbeBackoff.record_failure ℕ_discrete 7 (2 ∷ 1 ∷ []) 5 60 100 10 []).1
    ≡ (ltb 14 (10 + min (5 * 2 ^ 0) 60) && (sum (2 ∷ 1 ∷ []) % 2 ^ 64 == sum (1 ∷ 2 ∷ []) % 2 ^ 64))
unfolding lookup
record_failure-backed_off_example =
    record_failure-backed_off ℕ_discrete 7 (2 ∷ 1 ∷ []) (1 ∷ 2 ∷ []) 5 60 100 10 14 0 [] refl
