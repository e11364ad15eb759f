-- ===== src/Discovery/Tests.antt =====
-- libp2p/protocols/service_discovery: the cache at concrete inputs.
use nim_libp2p.Common.{◌+◌, max, ◌≤◌, ◌≡◌, refl, arith, [], ◌∷◌, if◌then◌else◌}
use nim_libp2p.Common.Table
use nim_libp2p.Utils.IpTree
use nim_libp2p.Discovery.AdvertisementCache.{
  Advertisement, AdvertisementCache, put, remove, contains,
}
use nim_libp2p.Discovery.AdvertisementCache.Counted.{IsValid, remove-IsValid}
use nim_libp2p.Discovery.AdvertisementCache.Bounded.{put-IsValid_within}

abbrev signed : Advertisement
signed = record { peer_id = 4; seq_no = 1 }

-- Full, with one advertisement of service 9.
abbrev full_cache : AdvertisementCache
full_cache = record {
  by_service = (9, (4, record { ad = signed; advertiser = 4; ips = []; timestamp = 3 }) ∷ []) ∷ [];
  ip_tree = IpTree.new;
  capacity = 1;
  count = 1;
  notified = [];
}

full_cache-IsValid : IsValid full_cache
unfolding Table.lookup
full_cache-IsValid = record { tables = (refl, omega arith, (refl, tt), tt); counted = refl }

put-IsValid_within_example :
    IsValid (put 8 5 signed (IpTree.ipv4 [] ∷ []) 7 full_cache)
    × ((put 8 5 signed (IpTree.ipv4 [] ∷ []) 7 full_cache).count ≤ max full_cache.capacity 1)
put-IsValid_within_example =
    put-IsValid_within 8 5 signed (IpTree.ipv4 [] ∷ []) 7 full_cache full_cache-IsValid
      (omega arith)

remove-IsValid_example :
    IsValid (remove 9 4 full_cache)
    × ((remove 9 4 full_cache).count + (if contains 9 4 full_cache then 1 else 0)
        ≡ full_cache.count)
remove-IsValid_example = remove-IsValid 9 4 full_cache full_cache-IsValid
