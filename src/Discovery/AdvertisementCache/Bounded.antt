-- ===== src/Discovery/AdvertisementCache/Bounded.antt =====
-- libp2p/protocols/service_discovery/advertisement_cache.nim: `put` and the capacity.
use nim_libp2p.Common.{
  ℕ, suc, ◌+◌, max, ◌≤◌, ◌<◌, ◌≡◌, ◌⊎◌, inl, inr, refl, ◌∙◌, arith, true, none, some, List, [], ◌∷◌,
  length, ℕ_discrete, is_some, Option-cases, Bool-cases, leb,
}
use nim_libp2p.Common.Table
use nim_libp2p.Utils.IpTree
use nim_libp2p.Discovery.AdvertisementCache.{
  Advertisement, CachedAd, Peers, AdvertisementCache, peers_of, service_peers, remove, evict_oldest,
  remove_all, Oldest, is_oldest, oldest_of_peers, remove_superseded, replace_ad, add_ad, put_ad,
  put, has_newer, superseded, find_oldest,
}
use nim_libp2p.Discovery.AdvertisementCache.Services.{
  total, IsTable, total-insert, insert-IsTable, IsTable-lookup,
}
use nim_libp2p.Discovery.AdvertisementCache.Counted.{
  IsValid, remove-IsValid, absent-remove, remove-capacity,
}

-- The oldest is one so far, or of these peers.
oldest_of_peers-found :
    (s : ℕ) (peers : Peers) (s' p' t' : ℕ) (best : Oldest)
    → oldest_of_peers s peers best ≡ some (s', p', t')
    → (best ≡ some (s', p', t')) ⊎ ((s' ≡ s) × (Table.has_key ℕ_discrete p' peers ≡ true))
unfolding oldest_of_peers Table.lookup
oldest_of_peers-found s [] s' p' t' best e = inl e
oldest_of_peers-found s ((p, cached) ∷ peers) s' p' t' best e =
    elim (Bool-cases (is_oldest cached.timestamp best)) [
      | inl older ↦
          ground (arith, oldest_of_peers-found s peers s' p' t' (some (s, p, cached.timestamp)))
      | inr newer ↦ ground (arith, oldest_of_peers-found s peers s' p' t' best)
    ]

oldest_of_peers-some :
    (s : ℕ) (peers : Peers) (best : Oldest)
    → (is_some best ≡ true) ⊎ (0 < length peers)
    → is_some (oldest_of_peers s peers best) ≡ true
unfolding oldest_of_peers
oldest_of_peers-some s [] best (inl h) = h
oldest_of_peers-some s [] best (inr h) = absurd (omega arith)
oldest_of_peers-some s ((p, cached) ∷ peers) none h =
    oldest_of_peers-some s peers (some (s, p, cached.timestamp)) (inl refl)
oldest_of_peers-some s ((p, cached) ∷ peers) (some b) h =
    elim (Bool-cases (is_oldest cached.timestamp (some b))) [
      | inl older ↦
          rw (older, oldest_of_peers)
            (oldest_of_peers-some s peers (some (s, p, cached.timestamp)) (inl refl))
      | inr newer ↦ rw (newer, oldest_of_peers) (oldest_of_peers-some s peers (some b) (inl refl))
    ]

find_oldest-found :
    (t : List (ℕ × Peers)) (s' p' t' : ℕ) (best : Oldest)
    → IsTable t
    → find_oldest t best ≡ some (s', p', t')
    → (best ≡ some (s', p', t'))
      ⊎ (Table.has_key ℕ_discrete p' (peers_of (Table.lookup ℕ_discrete s' t)) ≡ true)
unfolding find_oldest Table.lookup
find_oldest-found [] s' p' t' best v e = inl e
find_oldest-found ((s, peers) ∷ t) s' p' t' best (new, some_ads, d, v) e = ground (
  arith,
  find_oldest-found t s' p' t' (oldest_of_peers s peers best) v e,
  oldest_of_peers-found s peers s' p' t' best,
)

find_oldest-some :
    (t : List (ℕ × Peers)) (best : Oldest)
    → IsTable t
    → (is_some best ≡ true) ⊎ (0 < total t)
    → is_some (find_oldest t best) ≡ true
unfolding find_oldest
find_oldest-some [] best v (inl h) = h
find_oldest-some [] best v (inr h) = absurd (omega arith)
find_oldest-some ((s, peers) ∷ t) best (new, some_ads, d, v) h =
    find_oldest-some t (oldest_of_peers s peers best) v
      (inl (oldest_of_peers-some s peers best (inr some_ads)))

-- An eviction takes one advertisement, if there is one.
evict_oldest-IsValid :
    (c : AdvertisementCache)
    → IsValid c
    → IsValid (evict_oldest c) × ((evict_oldest c).count + 1 ≤ max c.count 1)
unfolding evict_oldest
evict_oldest-IsValid c v = elim (Option-cases (find_oldest c.by_service none)) [
  | inl e ↦
      rw (e, evict_oldest)
        (v, ground (arith, v.counted, find_oldest-some c.by_service none v.tables))
  | inr ((s, p, oldest), e) ↦
      let (valid, fewer) = remove-IsValid s p c v in
      let here = find_oldest-found c.by_service s p oldest none v.tables e in
      rw (e, evict_oldest) (valid, ground (arith, fewer, here))
]

evict-absent :
    (j q : ℕ) (c : AdvertisementCache)
    → Table.lookup ℕ_discrete q (service_peers j c) ≡ none
    → Table.lookup ℕ_discrete q (service_peers j (evict_oldest c)) ≡ none
unfolding evict_oldest
evict-absent j q c h = elim (Option-cases (find_oldest c.by_service none)) [
  | inl e ↦ rw (e, evict_oldest) h
  | inr ((s, p, oldest), e) ↦ rw (e, evict_oldest) (absent-remove j q s p c h)
]

pub remove_all-IsValid :
    (s : ℕ) (ps : List ℕ) (c : AdvertisementCache)
    → IsValid c
    → IsValid (remove_all s ps c) × ((remove_all s ps c).count ≤ c.count)
unfolding remove_all
remove_all-IsValid s [] c v = (v, omega arith)
remove_all-IsValid s (p ∷ ps) c v =
    let (valid, fewer) = remove-IsValid s p c v in
    let (w, more) = remove_all-IsValid s ps (remove s p c) valid in (w, omega (arith, more, fewer))

peers-Distinct :
    (s : ℕ) (c : AdvertisementCache) → IsValid c → Table.Distinct ℕ_discrete (service_peers s c)
peers-Distinct s c v = elim (Option-cases (Table.lookup ℕ_discrete s c.by_service)) [
  | inl e ↦ rw e tt
  | inr (peers, e) ↦ rw e ((IsTable-lookup s c.by_service peers v.tables e).1)
]

nonempty :
    (q : ℕ) (old : CachedAd) (peers : Peers)
    → Table.lookup ℕ_discrete q peers ≡ some old
    → 0 < length peers
unfolding Table.lookup
nonempty q old [] e = absurd (ground arith)
nonempty q old (x ∷ peers) e = omega arith

replaced_count :
    (s : ℕ) (old cached : CachedAd) (c : AdvertisementCache) {n : ℕ}
    → c.count ≤ n
    → (replace_ad s old cached c).count ≤ n
unfolding replace_ad
replaced_count s old cached c h = h

added_count :
    (s : ℕ) (cached : CachedAd) (c : AdvertisementCache) (n : ℕ)
    → c.count + 1 ≤ n
    → (add_ad s cached c).count ≤ n
unfolding add_ad
added_count s cached c n h = h

replace_ad-IsValid :
    (s : ℕ) (old cached : CachedAd) (c : AdvertisementCache)
    → Table.lookup ℕ_discrete cached.advertiser (service_peers s c) ≡ some old
    → IsValid c
    → IsValid (replace_ad s old cached c)
unfolding replace_ad
replace_ad-IsValid s old cached c e v =
    let d = peers-Distinct s c v in
    let peers : Peers = Table.insert ℕ_discrete cached.advertiser cached (service_peers s c) in
    let len = Table.length-insert ℕ_discrete cached.advertiser cached (service_peers s c) in
    let same : length peers ≡ length (service_peers s c) = ground (arith, len, e) in
    record {
      tables =
          insert-IsTable s peers c.by_service
            (ground (arith, same, nonempty cached.advertiser old (service_peers s c) e))
            (Table.insert-Distinct ℕ_discrete cached.advertiser cached (service_peers s c) d)
            v.tables;
      counted = omega (arith, v.counted, total-insert s peers c.by_service, same);
    }

add_ad-IsValid :
    (s : ℕ) (cached : CachedAd) (c : AdvertisementCache)
    → Table.lookup ℕ_discrete cached.advertiser (service_peers s c) ≡ none
    → IsValid c
    → IsValid (add_ad s cached c)
unfolding add_ad
add_ad-IsValid s cached c e v =
    let d = peers-Distinct s c v in
    let peers : Peers = Table.insert ℕ_discrete cached.advertiser cached (service_peers s c) in
    let len = Table.length-insert ℕ_discrete cached.advertiser cached (service_peers s c) in
    let longer : length peers ≡ suc (length (service_peers s c)) = ground (arith, len, e) in
    record {
      tables =
          insert-IsTable s peers c.by_service (omega (arith, longer))
            (Table.insert-Distinct ℕ_discrete cached.advertiser cached (service_peers s c) d)
            v.tables;
      counted = omega (arith, v.counted, total-insert s peers c.by_service, longer);
    }

put_ad-IsValid :
    (s : ℕ) (cached : CachedAd) (c : AdvertisementCache)
    → IsValid c
    → c.count ≤ max c.capacity 1
    → IsValid (put_ad s cached c) × ((put_ad s cached c).count ≤ max c.capacity 1)
unfolding put_ad
put_ad-IsValid s cached c v h =
    elim (Option-cases (Table.lookup ℕ_discrete cached.advertiser (service_peers s c))) [
      | inr (old, e) ↦ rw (e, put_ad) (replace_ad-IsValid s old cached c e v, replaced old)
      | inl e ↦ elim (Bool-cases (leb c.capacity c.count)) [
        | inl full ↦
            let (w, fewer) = evict_oldest-IsValid c v in
            rw (e, put_ad)
              (rw (full, put_ad)
                (
                  add_ad-IsValid s cached (evict_oldest c) (evict-absent s cached.advertiser c e) w,
                  added (evict_oldest c) (omega (arith, fewer, h)),
                ))
        | inr room ↦
            rw (e, put_ad)
              (rw (room, put_ad) (add_ad-IsValid s cached c e v, added c (ground arith)))
      ]
    ]
  where
    replaced : (old : CachedAd) → (replace_ad s old cached c).count ≤ max c.capacity 1
    replaced old = replaced_count s old cached c h

    added :
        (r : AdvertisementCache)
        → r.count + 1 ≤ max c.capacity 1
        → (add_ad s cached r).count ≤ max c.capacity 1
    added r k = added_count s cached r (max c.capacity 1) k

remove_all-capacity :
    (s : ℕ) (ps : List ℕ) (c : AdvertisementCache) → (remove_all s ps c).capacity ≡ c.capacity
unfolding remove_all
remove_all-capacity s [] c = refl
remove_all-capacity s (p ∷ ps) c = remove_all-capacity s ps (remove s p c) ∙ remove-capacity s p c

-- `put` keeps a valid cache valid, and a cache of at most its capacity within it; the capacity 0 counts
-- as 1 here, since `put` makes room before it adds.
pub put-IsValid_within :
    (s p : ℕ) (ad : Advertisement) (ips : List IpTree.IpAddress) (now : ℕ) (c : AdvertisementCache)
    → IsValid c
    → c.count ≤ max c.capacity 1
    → IsValid (put s p ad ips now c) × ((put s p ad ips now c).count ≤ max c.capacity 1)
unfolding put remove_superseded
put-IsValid_within s p ad ips now c v h = elim (Bool-cases (has_newer s ad c)) [
  | inl newer ↦ rw (newer, put) (v, h)
  | inr older ↦
      let gone : List ℕ = superseded ad (service_peers s c) in
      let cached : CachedAd = record { ad = ad; advertiser = p; ips = ips; timestamp = now } in
      let (w, fewer) = remove_all-IsValid s gone c v in
      let same = remove_all-capacity s gone c in
      let (u, least) =
        put_ad-IsValid s cached (remove_all s gone c) w (omega (arith, fewer, h, same)) in
      rw (older, put) (u, omega (arith, least, same))
]
