-- ===== src/Discovery/AdvertisementCache.antt =====
-- libp2p/protocols/service_discovery/advertisement_cache.nim: the cached advertisements of each
-- service. A service id and a peer id are numbers; `notified` lists the calls of
-- `onServiceRemoved`.
pub mod Services
pub mod Counted
pub mod Bounded
use nim_libp2p.Common.{
  ℕ, zero, suc, ◌+◌, ◌-◌, max, Bool, true, false, Option, none, some, List, [], ◌∷◌, ◌++◌, map,
  length, take, ltb, leb, ◌==◌, ◌&&◌, not, is_some, ℕ_discrete, if◌then◌else◌,
}
use nim_libp2p.Common.Table
use nim_libp2p.Utils.IpTree

pub record Advertisement : Type 0 where
  pub peer_id : ℕ
  pub seq_no : ℕ

pub record CachedAd : Type 0 where
  pub ad : Advertisement
  pub advertiser : ℕ
  pub ips : List IpTree.IpAddress
  pub timestamp : ℕ

abbrev pub Peers : Type 0
Peers = List (ℕ × CachedAd)

pub record AdvertisementCache : Type 0 where
  pub by_service : List (ℕ × Peers)
  pub ip_tree : IpTree.Tree
  pub capacity : ℕ
  pub count : ℕ
  pub notified : List ℕ

abbrev pub peers_of : Option Peers → Peers
peers_of none = []
peers_of (some peers) = peers

abbrev pub service_peers : ℕ → AdvertisementCache → Peers
service_peers service c = peers_of (Table.lookup ℕ_discrete service c.by_service)

abbrev pub contains : ℕ → ℕ → AdvertisementCache → Bool
contains service advertiser c = Table.has_key ℕ_discrete advertiser (service_peers service c)

unfoldable pub get_service_cached_ads : ℕ → ℕ → AdvertisementCache → List CachedAd
get_service_cached_ads service limit c = take limit (map (λ e. e.1) (service_peers service c))

unfoldable pub get_cached_ad : ℕ → ℕ → AdvertisementCache → Option CachedAd
get_cached_ad service advertiser c = Table.lookup ℕ_discrete advertiser (service_peers service c)

-- The tail of `remove`: a service that is left without peers goes.
unfoldable pub put_peers : ℕ → Peers → AdvertisementCache → AdvertisementCache
put_peers service [] c = record c {
  by_service = Table.del ℕ_discrete service c.by_service;
  notified = c.notified ++ service ∷ [];
}
put_peers service (p ∷ peers) c = record c {
  by_service = Table.insert ℕ_discrete service (p ∷ peers) c.by_service;
}

unfoldable pub remove_from : ℕ → ℕ → Peers → AdvertisementCache → AdvertisementCache
unfolding put_peers
remove_from service advertiser peers c = elim (Table.lookup ℕ_discrete advertiser peers) [
  | none ↦ put_peers service peers c
  | some cached ↦
      put_peers service (Table.del ℕ_discrete advertiser peers)
        (record c { ip_tree = IpTree.remove_ips cached.ips c.ip_tree; count = c.count - 1 })
]

unfoldable pub remove : ℕ → ℕ → AdvertisementCache → AdvertisementCache
remove service advertiser c = elim (Table.lookup ℕ_discrete service c.by_service) [
  | none ↦ c
  | some peers ↦ remove_from service advertiser peers c
]

-- The oldest so far: its service, its advertiser and its moment. Of equal moments the last counts.
abbrev pub Oldest : Type 0
Oldest = Option (ℕ × ℕ × ℕ)

abbrev pub is_oldest : ℕ → Oldest → Bool
is_oldest timestamp none = true
is_oldest timestamp (some (s, p, oldest)) = leb timestamp oldest

unfoldable pub oldest_of_peers : ℕ → Peers → Oldest → Oldest
oldest_of_peers service [] best = best
oldest_of_peers service ((p, cached) ∷ peers) best =
    oldest_of_peers service peers
      (if is_oldest cached.timestamp best then some (service, p, cached.timestamp) else best)

unfoldable pub find_oldest : List (ℕ × Peers) → Oldest → Oldest
unfolding oldest_of_peers
find_oldest [] best = best
find_oldest ((s, peers) ∷ t) best = find_oldest t (oldest_of_peers s peers best)

unfoldable pub evict_oldest : AdvertisementCache → AdvertisementCache
evict_oldest c = elim (find_oldest c.by_service none) [
  | none ↦ c
  | some (service, advertiser, oldest) ↦ remove service advertiser c
]

unfoldable pub any_newer : Advertisement → Peers → Bool
any_newer ad [] = false
any_newer ad ((p, cached) ∷ peers) =
    if (cached.ad.peer_id == ad.peer_id) && ltb ad.seq_no cached.ad.seq_no
    then true
    else any_newer ad peers

abbrev pub has_newer : ℕ → Advertisement → AdvertisementCache → Bool
has_newer service ad c = any_newer ad (service_peers service c)

unfoldable pub superseded : Advertisement → Peers → List ℕ
superseded ad [] = []
superseded ad ((p, cached) ∷ peers) =
    if (cached.ad.peer_id == ad.peer_id) && ltb cached.ad.seq_no ad.seq_no
    then p ∷ superseded ad peers
    else superseded ad peers

unfoldable pub remove_all : ℕ → List ℕ → AdvertisementCache → AdvertisementCache
remove_all service [] c = c
remove_all service (p ∷ ps) c = remove_all service ps (remove service p c)

unfoldable pub remove_superseded : ℕ → Advertisement → AdvertisementCache → AdvertisementCache
remove_superseded service ad c = remove_all service (superseded ad (service_peers service c)) c

-- The part of `put` for an advertiser that the service has already.
unfoldable pub replace_ad : ℕ → CachedAd → CachedAd → AdvertisementCache → AdvertisementCache
replace_ad service old cached c = record c {
  by_service =
      Table.insert ℕ_discrete service
        (Table.insert ℕ_discrete cached.advertiser cached (service_peers service c)) c.by_service;
  ip_tree = IpTree.insert_ips cached.ips (IpTree.remove_ips old.ips c.ip_tree);
}

-- The part of `put` for a new advertiser, with room made for it.
unfoldable pub add_ad : ℕ → CachedAd → AdvertisementCache → AdvertisementCache
add_ad service cached c = record c {
  by_service =
      Table.insert ℕ_discrete service
        (Table.insert ℕ_discrete cached.advertiser cached (service_peers service c)) c.by_service;
  ip_tree = IpTree.insert_ips cached.ips c.ip_tree;
  count = c.count + 1;
}

unfoldable pub put_ad : ℕ → CachedAd → AdvertisementCache → AdvertisementCache
put_ad service cached c =
    let room : AdvertisementCache = if leb c.capacity c.count then evict_oldest c else c in
    elim (Table.lookup ℕ_discrete cached.advertiser (service_peers service c)) [
      | some old ↦ replace_ad service old cached c
      | none ↦ add_ad service cached room
    ]

unfoldable pub put :
    ℕ → ℕ → Advertisement → List IpTree.IpAddress → ℕ → AdvertisementCache → AdvertisementCache
put service advertiser ad ips now c =
    let cached : CachedAd = record {
      ad = ad;
      advertiser = advertiser;
      ips = ips;
      timestamp = now;
    } in
    if has_newer service ad c then c else put_ad service cached (remove_superseded service ad c)

unfoldable pub expired_peers : ℕ → ℕ → Peers → List (ℕ × ℕ)
expired_peers cutoff service [] = []
expired_peers cutoff service ((p, cached) ∷ peers) =
    if ltb cached.timestamp cutoff
    then (service, p) ∷ expired_peers cutoff service peers
    else expired_peers cutoff service peers

unfoldable pub expired : ℕ → List (ℕ × Peers) → List (ℕ × ℕ)
expired cutoff [] = []
expired cutoff ((s, peers) ∷ t) = expired_peers cutoff s peers ++ expired cutoff t

unfoldable pub remove_pairs : List (ℕ × ℕ) → AdvertisementCache → AdvertisementCache
remove_pairs [] c = c
remove_pairs ((s, p) ∷ es) c = remove_pairs es (remove s p c)

-- The answer is the number of removals. A moment is not before 0, so neither is the cutoff.
unfoldable pub prune_expired : ℕ → ℕ → AdvertisementCache → ℕ × AdvertisementCache
prune_expired now expiry c =
    let gone : List (ℕ × ℕ) = expired (now - expiry) c.by_service in
    (length gone, remove_pairs gone c)

unfoldable pub clear : AdvertisementCache → AdvertisementCache
clear c = record c {
  by_service = [];
  ip_tree = IpTree.new;
  count = 0;
  notified = c.notified ++ map (λ e. e.0) c.by_service;
}
