-- ===== src/Kademlia/PeerRegistry/Linked.antt =====
-- libp2p/protocols/kademlia/peer_registry.nim: when a peer has a row exactly if a table indexes it.
use nim_libp2p.Common.{
  ℕ, ◌<◌, ◌≡◌, refl, arith, true, false, none, some, List, [], ◌∷◌, length, ltb, ◌||◌, eqb,
  Option-cases, Bool-cases, inl, inr,
}
use nim_libp2p.Common.Table.{
  lookup, insert, del, has_key, Distinct, lookup-insert, lookup-del, length-insert, length-del-le,
  insert-Distinct, del-Distinct,
}
use nim_libp2p.Kademlia.PeerRegistry.{
  PeerRecord, Membership, PeerRegistry, contains, upsert, mark_useful, tables_of, add_membership,
  drop_peer, remove_membership, strip, empty_peers, drop_table,
}
use nim_libp2p.Kademlia.PeerRegistry.Members.{
  lookup-strip, strip-Distinct, contains-empty_peers, lookup-drop_peers, drop_peers-Distinct,
}

module _ {K : Type 0} (dec : Discrete K) where
  abbrev pub table_count : PeerRegistry K → K → ℕ
  table_count r k = elim (lookup dec k r.tables_by_peer) [ none ↦ 0 | some ts ↦ length ts ]

  -- A peer has a row, and an inner table, exactly if some table indexes it.
  pub record IsLinked (r : PeerRegistry K) : Type 0 where
    pub distinct : Distinct dec r.tables_by_peer
    pub rows : (k : K) → contains dec r k ≡ ltb 0 (table_count r k)
    pub filled : (k : K) → has_key dec k r.tables_by_peer ≡ ltb 0 (table_count r k)

  pub new-IsLinked : IsLinked (record { peers = []; tables_by_peer = [] })
  unfolding lookup
  new-IsLinked = record { distinct = tt; rows = λ k. refl; filled = λ k. refl }

  pub mark_useful-IsLinked :
      (r : PeerRegistry K) (node : K) (now : ℕ) → IsLinked r → IsLinked (mark_useful dec r node now)
  unfolding mark_useful
  mark_useful-IsLinked r node now v = elim (Option-cases (lookup dec node r.peers)) [
    | inl e ↦ rw (e, mark_useful) v
    | inr (row, e) ↦
        rw (e, mark_useful)
          (record {
            distinct = v.distinct;
            rows = λ k. ground (
              arith,
              v.rows k,
              e,
              lookup-insert dec k node (record row { last_seen = now; last_useful_at = some now })
                  r.peers,
            );
            filled = v.filled;
          })
  ]

  contains-upsert :
      (r : PeerRegistry K) (node : K) (now : ℕ) (k : K)
      → contains dec (upsert dec r node now) k ≡ (eqb dec k node || contains dec r k)
  unfolding upsert
  contains-upsert r node now k = elim (Option-cases (lookup dec node r.peers)) [
    | inl e ↦
        let row : PeerRecord K = record {
          node_id = node;
          last_seen = now;
          last_useful_at = none;
        } in
        ground (arith, e, lookup-insert dec k node row r.peers)
    | inr (row, e) ↦
        ground (arith, e, lookup-insert dec k node (record row { last_seen = now }) r.peers)
  ]

  pub upsert_tables :
      (r : PeerRegistry K) (node : K) (now : ℕ)
      → (upsert dec r node now).tables_by_peer ≡ r.tables_by_peer
  unfolding upsert
  upsert_tables r node now = ground arith

  some_entry :
      (table : K) (ts : List (K × Membership)) → has_key dec table ts ≡ true → 0 < length ts
  unfolding lookup
  some_entry table [] h = ground arith
  some_entry table (t ∷ ts) h = omega arith

  add_membership_peers :
      (r : PeerRegistry K) (node table : K) (now : ℕ)
      → (add_membership dec r node table now).peers ≡ r.peers
  unfolding add_membership
  add_membership_peers r node table now = refl

  lookup-add_membership :
      (r : PeerRegistry K) (node table : K) (now : ℕ) (k : K)
      → (ltb 0 (table_count (add_membership dec r node table now) k)
          ≡ (eqb dec k node || ltb 0 (table_count r k)))
        × (has_key dec k (add_membership dec r node table now).tables_by_peer
            ≡ (eqb dec k node || has_key dec k r.tables_by_peer))
  unfolding add_membership
  lookup-add_membership r node table now k =
      let fresh : Membership = record { added_at = now } in
      let ts : List (K × Membership) = tables_of dec r node in
      elim (Bool-cases (has_key dec table ts)) [
        | inl old ↦
            ground
              (arith, old, some_entry table ts old, lookup-insert dec k node ts r.tables_by_peer)
        | inr absent ↦ ground (
          arith,
          absent,
          length-insert dec table fresh ts,
          lookup-insert dec k node (insert dec table fresh ts) r.tables_by_peer,
        )
      ]

  add_membership-Distinct :
      (r : PeerRegistry K) (node table : K) (now : ℕ)
      → Distinct dec r.tables_by_peer
      → Distinct dec (add_membership dec r node table now).tables_by_peer
  unfolding add_membership
  add_membership-Distinct r node table now d = insert-Distinct dec node _ r.tables_by_peer d

  -- A row alone makes no membership, and a membership alone makes no row.
  contains-upsert_alone :
      (r : PeerRegistry K) (node : K) (now : ℕ) (k : K)
      → IsLinked r
      → contains dec (upsert dec r node now) k
        ≡ (eqb dec k node || ltb 0 (table_count (upsert dec r node now) k))
  contains-upsert_alone r node now k v =
      ground (arith, v.rows k, contains-upsert r node now k, upsert_tables r node now)

  contains-add_membership_alone :
      (r : PeerRegistry K) (node table : K) (now : ℕ) (k : K)
      → IsLinked r
      → ltb 0 (table_count (add_membership dec r node table now) k)
        ≡ (eqb dec k node || contains dec (add_membership dec r node table now) k)
  contains-add_membership_alone r node table now k v = ground (
    arith,
    v.rows k,
    add_membership_peers r node table now,
    lookup-add_membership r node table now k,
  )

  -- What `insert` of a routing table does for a peer that it indexes: a row, then a membership.
  pub upsert_add-IsLinked :
      (r : PeerRegistry K) (node table : K) (now : ℕ)
      → IsLinked r
      → IsLinked (add_membership dec (upsert dec r node now) node table now)
  upsert_add-IsLinked r node table now v =
      let u = upsert dec r node now in
      record {
        distinct =
            add_membership-Distinct u node table now (rw (upsert_tables r node now) v.distinct);
        rows = λ k. ground (
          arith,
          v.rows k,
          add_membership_peers u node table now,
          contains-upsert r node now k,
          lookup-add_membership u node table now k,
          upsert_tables r node now,
        );
        filled = λ k.
            ground (
              arith,
              v.filled k,
              lookup-add_membership u node table now k,
              upsert_tables r node now,
            );
      }

  drop_peer-IsLinked :
      (r : PeerRegistry K) (node : K) → IsLinked r → IsLinked (drop_peer dec r node)
  unfolding drop_peer
  drop_peer-IsLinked r node v = record {
    distinct = del-Distinct dec node r.tables_by_peer v.distinct;
    rows = λ k.
        ground
          (arith, v.rows k, lookup-del dec k node r.peers, lookup-del dec k node r.tables_by_peer);
    filled = λ k. ground (arith, v.filled k, lookup-del dec k node r.tables_by_peer);
  }

  pub remove_membership-IsLinked :
      (r : PeerRegistry K) (node table : K)
      → IsLinked r
      → IsLinked (remove_membership dec r node table)
  unfolding remove_membership
  remove_membership-IsLinked r node table v =
      elim (Option-cases (lookup dec node r.tables_by_peer)) [
        | inl e ↦
            let no_row : has_key dec node r.peers ≡ false = ground (arith, v.rows node, e) in
            rw (e, remove_membership) (rw no_row v)
        | inr (ts, e) ↦
            rw (e, remove_membership)
              (elim (Bool-cases (ltb 0 (length (del dec table ts)))) [
                | inl some_left ↦ rw some_left (record {
                  distinct =
                      insert-Distinct dec node (del dec table ts) r.tables_by_peer v.distinct;
                  rows = λ k. ground (
                    arith,
                    v.rows k,
                    e,
                    some_left,
                    length-del-le dec table ts,
                    lookup-insert dec k node (del dec table ts) r.tables_by_peer,
                  );
                  filled = λ k. ground (
                    arith,
                    v.filled k,
                    some_left,
                    lookup-insert dec k node (del dec table ts) r.tables_by_peer,
                  );
                })
                | inr none_left ↦ rw none_left (drop_peer-IsLinked r node v)
              ])
      ]

  pub drop_table-IsLinked :
      (r : PeerRegistry K) (table : K) → IsLinked r → IsLinked (drop_table dec r table)
  unfolding drop_table
  drop_table-IsLinked r table v =
      let stripped = strip dec table r.tables_by_peer in
      let stripped_distinct : Distinct dec stripped =
        strip-Distinct dec table r.tables_by_peer v.distinct in
      record {
        distinct =
            drop_peers-Distinct dec (empty_peers dec stripped)
              (record r { tables_by_peer = stripped }) stripped_distinct;
        rows = λ k. ground (
          arith,
          v.rows k,
          v.filled k,
          lookup-drop_peers dec (empty_peers dec stripped) (record r { tables_by_peer = stripped })
              k,
          lookup-strip dec table k r.tables_by_peer,
          contains-empty_peers dec k stripped stripped_distinct,
        );
        filled = λ k. ground (
          arith,
          v.rows k,
          v.filled k,
          lookup-drop_peers dec (empty_peers dec stripped) (record r { tables_by_peer = stripped })
              k,
          lookup-strip dec table k r.tables_by_peer,
          contains-empty_peers dec k stripped stripped_distinct,
        );
      }

  -- That a peer has a row exactly if some table indexes it is kept when a row is made and then a
  -- membership, when a peer proves useful, when a membership is removed, and when a table or a peer is
  -- dropped. After `upsert` alone the node has a row whether or not a table indexes it, after
  -- `addMembership` alone a table indexes it whether or not it has a row, and every other peer still
  -- has a row exactly if a table indexes it.
  pub operations-IsLinked :
      (r : PeerRegistry K) (node table : K) (now : ℕ)
      → IsLinked r
      → IsLinked (add_membership dec (upsert dec r node now) node table now)
        × IsLinked (mark_useful dec r node now)
        × IsLinked (remove_membership dec r node table)
        × IsLinked (drop_table dec r table)
        × IsLinked (drop_peer dec r node)
        × ((k : K)
            → contains dec (upsert dec r node now) k
              ≡ (eqb dec k node || ltb 0 (table_count (upsert dec r node now) k)))
        × ((k : K)
            → ltb 0 (table_count (add_membership dec r node table now) k)
              ≡ (eqb dec k node || contains dec (add_membership dec r node table now) k))
  operations-IsLinked r node table now v = (
    upsert_add-IsLinked r node table now v,
    mark_useful-IsLinked r node now v,
    remove_membership-IsLinked r node table v,
    drop_table-IsLinked r table v,
    drop_peer-IsLinked r node v,
    λ k. contains-upsert_alone r node now k v,
    λ k. contains-add_membership_alone r node table now k v,
  )
