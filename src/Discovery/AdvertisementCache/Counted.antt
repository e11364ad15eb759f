-- ===== src/Discovery/AdvertisementCache/Counted.antt =====
-- libp2p/protocols/service_discovery/advertisement_cache.nim: the count of the cache, through all its
-- operations.
use nim_libp2p.Common.{
  ℕ, ◌+◌, ◌-◌, ◌≡◌, inl, inr, refl, ap, ◌∙◌, arith, none, [], ◌∷◌, length, ℕ_discrete,
  if◌then◌else◌, Option-cases,
}
use nim_libp2p.Common.Table
use nim_libp2p.Utils.IpTree
use nim_libp2p.Discovery.AdvertisementCache.{
  Peers, AdvertisementCache, peers_of, service_peers, put_peers, remove_from, remove, contains,
}
use nim_libp2p.Discovery.AdvertisementCache.Services.{
  total, IsTable, total-insert, total-del, insert-IsTable, del-IsTable, IsTable-lookup,
}

-- The count is the number of advertisements, in tables without empty services.
pub record IsValid (c : AdvertisementCache) : Type 0 where
  pub tables : IsTable c.by_service
  pub counted : c.count ≡ total c.by_service

-- The peers of a service are replaced, and the count by as many.
put_peers-IsValid :
    (s : ℕ) (peers : Peers) (c : AdvertisementCache)
    → IsTable c.by_service
    → Table.Distinct ℕ_discrete peers
    → c.count + length (service_peers s c) ≡ total c.by_service + length peers
    → IsValid (put_peers s peers c)
unfolding put_peers
put_peers-IsValid s [] c v d e = record {
  tables = del-IsTable s c.by_service v;
  counted = omega (arith, total-del s c.by_service v, e);
}
put_peers-IsValid s (p ∷ peers) c v d e = record {
  tables = insert-IsTable s (p ∷ peers) c.by_service (omega arith) d v;
  counted = omega (arith, total-insert s (p ∷ peers) c.by_service, e);
}

put_peers-count :
    (s : ℕ) (peers : Peers) (c : AdvertisementCache) → (put_peers s peers c).count ≡ c.count
unfolding put_peers
put_peers-count s [] c = refl
put_peers-count s (p ∷ peers) c = refl

-- A removal keeps the cache valid, and counts one less if the advertisement was there.
pub remove-IsValid :
    (s p : ℕ) (c : AdvertisementCache)
    → IsValid c
    → IsValid (remove s p c) × ((remove s p c).count + (if contains s p c then 1 else 0) ≡ c.count)
unfolding remove remove_from Table.lookup
remove-IsValid s p c v = elim (Option-cases (Table.lookup ℕ_discrete s c.by_service)) [
  | inl e ↦ rw (e, remove) (v, omega arith)
  | inr (peers, e) ↦
      let (some_ads, d, least) = IsTable-lookup s c.by_service peers v.tables e in
      let same : service_peers s c ≡ peers = ap peers_of e in
      elim (Option-cases (Table.lookup ℕ_discrete p peers)) [
        | inl e' ↦
            rw (e, remove)
              (rw (e', remove_from)
                (
                  put_peers-IsValid s peers c v.tables d (omega (arith, v.counted, ap length same)),
                  omega (arith, put_peers-count s peers c),
                ))
        | inr (cached, e') ↦
            let shorter = Table.length-del ℕ_discrete p peers cached d e' in
            let fewer : AdvertisementCache = record c {
              ip_tree = IpTree.remove_ips cached.ips c.ip_tree;
              count = c.count - 1;
            } in
            rw (e, remove)
              (rw (e', remove_from)
                (
                  put_peers-IsValid s (Table.del ℕ_discrete p peers) fewer v.tables
                      (Table.del-Distinct ℕ_discrete p peers d)
                      (omega (arith, v.counted, ap length same, shorter, least)),
                  omega (
                    arith,
                    put_peers-count s (Table.del ℕ_discrete p peers) fewer,
                    v.counted,
                    least,
                    some_ads,
                  ),
                ))
      ]
]

-- What was not there is not there after a removal.
absent-put_peers :
    (j q s : ℕ) (peers : Peers) (c : AdvertisementCache)
    → Table.lookup ℕ_discrete q (service_peers j c) ≡ none
    → (j ≡ s → Table.lookup ℕ_discrete q peers ≡ none)
    → Table.lookup ℕ_discrete q (service_peers j (put_peers s peers c)) ≡ none
unfolding put_peers Table.lookup
absent-put_peers j q s [] c h hs = ground (arith, Table.lookup-del ℕ_discrete j s c.by_service)
absent-put_peers j q s (p ∷ peers) c h hs =
    ground (arith, Table.lookup-insert ℕ_discrete j s (p ∷ peers) c.by_service)

pub absent-remove :
    (j q s p : ℕ) (c : AdvertisementCache)
    → Table.lookup ℕ_discrete q (service_peers j c) ≡ none
    → Table.lookup ℕ_discrete q (service_peers j (remove s p c)) ≡ none
unfolding remove remove_from
absent-remove j q s p c h = elim (Option-cases (Table.lookup ℕ_discrete s c.by_service)) [
  | inl e ↦ rw (e, remove) h
  | inr (peers, e) ↦
      let here : j ≡ s → Table.lookup ℕ_discrete q peers ≡ none =
        λ k. rw (← ap peers_of e) (rw (← k) h) in
      elim (Option-cases (Table.lookup ℕ_discrete p peers)) [
        | inl e' ↦ rw (e, remove) (rw (e', remove_from) (absent-put_peers j q s peers c h here))
        | inr (cached, e') ↦
            rw (e, remove)
              (rw (e', remove_from)
                (absent-put_peers j q s (Table.del ℕ_discrete p peers) _ h
                  (λ k. Table.lookup-del ℕ_discrete q p peers ∙ ground (arith, here k))))
      ]
]

put_peers-capacity :
    (s : ℕ) (peers : Peers) (c : AdvertisementCache) → (put_peers s peers c).capacity ≡ c.capacity
unfolding put_peers
put_peers-capacity s [] c = refl
put_peers-capacity s (p ∷ peers) c = refl

pub remove-capacity : (s p : ℕ) (c : AdvertisementCache) → (remove s p c).capacity ≡ c.capacity
unfolding remove remove_from
remove-capacity s p c = elim (Option-cases (Table.lookup ℕ_discrete s c.by_service)) [
  | inl e ↦ rw (e, remove) refl
  | inr (peers, e) ↦ elim (Option-cases (Table.lookup ℕ_discrete p peers)) [
    | inl e' ↦ rw (e, remove) (rw (e', remove_from) (put_peers-capacity s peers c))
    | inr (cached, e') ↦ rw (e, remove) (rw (e', remove_from) (put_peers-capacity s _ _))
  ]
]
