-- ===== src/Kademlia/PeerRegistry.antt =====
-- libp2p/protocols/kademlia/peer_registry.nim: the peer rows that routing tables share. A `Moment`
-- is a number of nanoseconds, and a `Duration` is one too; the difference of two moments is 0 where
-- the second is the later one.
pub mod Linked
pub mod Members
use nim_libp2p.Common.{
  ℕ, zero, suc, ◌+◌, ◌-◌, Bool, true, false, Option, none, some, List, [], ◌∷◌, length, ltb, ◌==◌,
  if◌then◌else◌, map,
}
use nim_libp2p.Common.Table.{lookup, insert, del, has_key}

pub record PeerRecord (K : Type 0) : Type 0 where
  pub node_id : K
  pub last_seen : ℕ
  pub last_useful_at : Option ℕ

-- `Membership` holds one field, `addedAt`.
pub record Membership : Type 0 where
  pub added_at : ℕ

pub record PeerRegistry (K : Type 0) : Type 0 where
  pub peers : List (K × PeerRecord K)
  pub tables_by_peer : List (K × List (K × Membership))

pub last_activity : {K : Type 0} → PeerRecord K → Membership → ℕ
last_activity row m = elim (row.last_useful_at) [ none ↦ m.added_at | some t ↦ t ]

unfoldable pub row_is_replaceable : {K : Type 0} → PeerRecord K → Membership → ℕ → ℕ → Bool
unfolding last_activity
row_is_replaceable row m grace now = ltb grace (now - last_activity row m)

abbrev pub new : {K : Type 0} → PeerRegistry K
new = record { peers = []; tables_by_peer = [] }

module _ {K : Type 0} (dec : Discrete K) where
  abbrev pub contains : PeerRegistry K → K → Bool
  contains r node = has_key dec node r.peers

  abbrev pub get : PeerRegistry K → K → Option (PeerRecord K)
  get r node = lookup dec node r.peers

  abbrev pub membership : PeerRegistry K → K → K → Option Membership
  membership r node table = elim (lookup dec node r.tables_by_peer) [
    | none ↦ none
    | some ts ↦ lookup dec table ts
  ]

  abbrev pub is_replaceable : PeerRegistry K → K → K → ℕ → ℕ → Bool
  is_replaceable r node table grace now = elim (membership r node table) [
    | none ↦ true
    | some m ↦ elim (get r node) [ none ↦ true | some row ↦ row_is_replaceable row m grace now ]
  ]

  pub upsert : PeerRegistry K → K → ℕ → PeerRegistry K
  upsert r node now = elim (lookup dec node r.peers) [
    | some row ↦ record r { peers = insert dec node (record row { last_seen = now }) r.peers }
    | none ↦ record r {
      peers =
          insert dec node (record { node_id = node; last_seen = now; last_useful_at = none })
            r.peers;
    }
  ]

  pub mark_useful : PeerRegistry K → K → ℕ → PeerRegistry K
  mark_useful r node now = elim (lookup dec node r.peers) [
    | some row ↦ record r {
      peers = insert dec node (record row { last_seen = now; last_useful_at = some now }) r.peers;
    }
    | none ↦ r
  ]

  -- The inner table of the node, made if it is missing.
  pub tables_of : PeerRegistry K → K → List (K × Membership)
  tables_of r node = elim (lookup dec node r.tables_by_peer) [ none ↦ [] | some ts ↦ ts ]

  pub add_membership : PeerRegistry K → K → K → ℕ → PeerRegistry K
  unfolding tables_of
  add_membership r node table now =
      let ts = tables_of r node in
      record r {
        tables_by_peer =
            insert dec node
              (if has_key dec table ts then ts else insert dec table (record { added_at = now }) ts)
              r.tables_by_peer;
      }

  pub drop_peer : PeerRegistry K → K → PeerRegistry K
  drop_peer r node = record {
    peers = del dec node r.peers;
    tables_by_peer = del dec node r.tables_by_peer;
  }

  pub remove_membership : PeerRegistry K → K → K → PeerRegistry K
  unfolding drop_peer
  remove_membership r node table = elim (lookup dec node r.tables_by_peer) [
    | some ts ↦
        let left = del dec table ts in
        if ltb 0 (length left)
        then record r { tables_by_peer = insert dec node left r.tables_by_peer }
        else drop_peer r node
    | none ↦ if has_key dec node r.peers then record r { peers = del dec node r.peers } else r
  ]

  -- The first loop of `dropTable`: the table's membership goes from every inner table.
  pub strip : K → List (K × List (K × Membership)) → List (K × List (K × Membership))
  strip table [] = []
  strip table ((node, ts) ∷ rest) = (node, del dec table ts) ∷ strip table rest

  -- The peers whose inner table is empty.
  pub empty_peers : List (K × List (K × Membership)) → List K
  empty_peers [] = []
  empty_peers ((node, ts) ∷ rest) =
      let more = empty_peers rest in if length ts == 0 then node ∷ more else more

  pub drop_peers : List K → PeerRegistry K → PeerRegistry K
  unfolding drop_peer
  drop_peers [] r = r
  drop_peers (node ∷ nodes) r = drop_peers nodes (drop_peer r node)

  pub drop_table : PeerRegistry K → K → PeerRegistry K
  unfolding strip empty_peers drop_peers
  drop_table r table =
      let stripped = strip table r.tables_by_peer in
      drop_peers (empty_peers stripped) (record r { tables_by_peer = stripped })

  pub table_ids : PeerRegistry K → K → List K
  unfolding tables_of
  table_ids r node = map (λ e. e.0) (tables_of r node)
