-- ===== src/Kademlia/PeerRegistry/Members.antt =====
-- libp2p/protocols/kademlia/peer_registry.nim: what each operation does to the memberships.
use nim_libp2p.Common.{
  ℕ, ◌≡◌, refl, arith, Bool, false, none, some, List, [], ◌∷◌, length, ◌==◌, ◌&&◌, not, eqb,
  is_some, if◌then◌else◌, Option-cases, inl, inr,
}
use nim_libp2p.Common.Sets
use nim_libp2p.Common.Table.{lookup, insert, del, Distinct, lookup-insert, lookup-del, del-Distinct}
use nim_libp2p.Kademlia.PeerRegistry.{
  Membership, PeerRegistry, membership, add_membership, drop_peer, remove_membership, strip,
  empty_peers, drop_peers, drop_table,
}

lookup_empty :
    {K V : Type 0} (dec : Discrete K) (k : K) (t : List (K × V))
    → length t ≡ 0
    → lookup dec k t ≡ none
unfolding lookup
lookup_empty dec k [] e = refl
lookup_empty dec k (x ∷ t) e = absurd (omega arith)

module _ {K : Type 0} (dec : Discrete K) where
  abbrev pub is_member : PeerRegistry K → K → K → Bool
  is_member r node table = is_some (membership dec r node table)

  -- `addMembership` keeps the moment of an existing membership, gives a new one the present
  -- moment, and leaves every other membership as it was.
  pub membership-add_membership :
      (r : PeerRegistry K) (node table : K) (now : ℕ) (n t : K)
      → membership dec (add_membership dec r node table now) n t ≡ (
          if eqb dec n node && eqb dec t table && not (is_member r node table)
          then some (record { added_at = now })
          else membership dec r n t)
  unfolding add_membership lookup
  membership-add_membership r node table now n t =
      let fresh : Membership = record { added_at = now } in
      elim (Option-cases (lookup dec node r.tables_by_peer)) [
        | inl e ↦ ground (
          arith,
          e,
          lookup-insert dec n node (insert dec table fresh []) r.tables_by_peer,
          lookup-insert dec t table fresh [],
        )
        | inr (ts, e) ↦ ground (
          arith,
          e,
          lookup-insert dec n node ts r.tables_by_peer,
          lookup-insert dec n node (insert dec table fresh ts) r.tables_by_peer,
          lookup-insert dec t table fresh ts,
        )
      ]

  -- `removeMembership` takes away this membership and no other.
  pub membership-remove_membership :
      (r : PeerRegistry K) (node table : K) (n t : K)
      → membership dec (remove_membership dec r node table) n t
        ≡ (if eqb dec n node && eqb dec t table then none else membership dec r n t)
  unfolding remove_membership
  membership-remove_membership r node table n t =
      elim (Option-cases (lookup dec node r.tables_by_peer)) [
        | inl e ↦ ground (arith, e)
        | inr (ts, e) ↦ ground (
          arith,
          e,
          lookup-insert dec n node (del dec table ts) r.tables_by_peer,
          lookup-del dec n node r.tables_by_peer,
          lookup-del dec t table ts,
          lookup_empty dec t (del dec table ts),
        )
      ]

  pub lookup-strip :
      (table n : K) (s : List (K × List (K × Membership)))
      → lookup dec n (strip dec table s)
        ≡ elim (lookup dec n s) [ none ↦ none | some ts ↦ some (del dec table ts) ]
  unfolding lookup strip
  lookup-strip table n [] = refl
  lookup-strip table n ((k, ts) ∷ s) = ground (arith, lookup-strip table n s)

  pub strip-Distinct :
      (table : K) (s : List (K × List (K × Membership)))
      → Distinct dec s
      → Distinct dec (strip dec table s)
  unfolding strip
  strip-Distinct table [] d = d
  strip-Distinct table ((k, ts) ∷ s) (new, d) =
      (ground (arith, lookup-strip table k s), strip-Distinct table s d)

  -- A peer is dropped if its inner table is there and empty.
  pub contains-empty_peers :
      (n : K) (s : List (K × List (K × Membership)))
      → Distinct dec s
      → Sets.contains dec n (empty_peers dec s)
        ≡ elim (lookup dec n s) [ none ↦ false | some ts ↦ length ts == 0 ]
  unfolding lookup empty_peers Sets.contains
  contains-empty_peers n [] d = refl
  contains-empty_peers n ((k, ts) ∷ s) (new, d) = ground (arith, contains-empty_peers n s d)

  pub lookup-drop_peers :
      (nodes : List K) (r : PeerRegistry K) (n : K)
      → (lookup dec n (drop_peers dec nodes r).tables_by_peer
          ≡ (if Sets.contains dec n nodes then none else lookup dec n r.tables_by_peer))
        × (lookup dec n (drop_peers dec nodes r).peers
            ≡ (if Sets.contains dec n nodes then none else lookup dec n r.peers))
  unfolding drop_peers Sets.contains
  lookup-drop_peers [] r n = (refl, refl)
  lookup-drop_peers (k ∷ nodes) r n = ground (
    arith,
    lookup-drop_peers nodes (drop_peer dec r k) n,
    lookup-del dec n k r.peers,
    lookup-del dec n k r.tables_by_peer,
  )

  pub drop_peers-Distinct :
      (nodes : List K) (r : PeerRegistry K)
      → Distinct dec r.tables_by_peer
      → Distinct dec (drop_peers dec nodes r).tables_by_peer
  unfolding drop_peers
  drop_peers-Distinct [] r d = d
  drop_peers-Distinct (k ∷ nodes) r d =
      drop_peers-Distinct nodes (drop_peer dec r k) (del-Distinct dec k r.tables_by_peer d)

  -- `dropTable` takes away every membership of the table, and no other.
  pub membership-drop_table :
      (r : PeerRegistry K) (table n t : K)
      → Distinct dec r.tables_by_peer
      → membership dec (drop_table dec r table) n t
        ≡ (if eqb dec t table then none else membership dec r n t)
  unfolding drop_table
  membership-drop_table r table n t d =
      let stripped = strip dec table r.tables_by_peer in
      elim (Option-cases (lookup dec n r.tables_by_peer)) [
        | inl e ↦ ground (
          arith,
          e,
          lookup-drop_peers (empty_peers dec stripped) (record r { tables_by_peer = stripped }) n,
          lookup-strip table n r.tables_by_peer,
        )
        | inr (ts, e) ↦ ground (
          arith,
          e,
          lookup-drop_peers (empty_peers dec stripped) (record r { tables_by_peer = stripped }) n,
          lookup-strip table n r.tables_by_peer,
          contains-empty_peers n stripped (strip-Distinct table r.tables_by_peer d),
          lookup-del dec t table ts,
          lookup_empty dec t (del dec table ts),
        )
      ]
