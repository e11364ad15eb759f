-- ===== src/Discovery/AdvertisementCache/Services.antt =====
-- libp2p/protocols/service_discovery/advertisement_cache.nim: the number of cached advertisements in
-- the table of services.
use nim_libp2p.Common.{
  ℕ, ◌+◌, ◌≤◌, ◌<◌, ◌≡◌, refl, subst, arith, none, some, List, [], ◌∷◌, length, ℕ_discrete,
}
use nim_libp2p.Common.Table
use nim_libp2p.Discovery.AdvertisementCache.{Peers, peers_of}

abbrev pub total : List (ℕ × Peers) → ℕ
total [] = 0
total ((s, peers) ∷ t) = length peers + total t

-- No service and no advertiser stands in a table twice, and no service is without advertisements.
abbrev pub IsTable : List (ℕ × Peers) → Type 0
IsTable [] = Unit
IsTable ((s, peers) ∷ t) =
    (Table.lookup ℕ_discrete s t ≡ none)
    × (0 < length peers)
    × Table.Distinct ℕ_discrete peers
    × IsTable t

pub total-insert :
    (s : ℕ) (peers : Peers) (t : List (ℕ × Peers))
    → total (Table.insert ℕ_discrete s peers t) + length (peers_of (Table.lookup ℕ_discrete s t))
      ≡ total t + length peers
unfolding Table.insert Table.lookup
total-insert s peers [] = omega arith
total-insert s peers ((j, old) ∷ t) = ground (arith, total-insert s peers t)

pub total-del :
    (s : ℕ) (t : List (ℕ × Peers))
    → IsTable t
    → total (Table.del ℕ_discrete s t) + length (peers_of (Table.lookup ℕ_discrete s t)) ≡ total t
unfolding Table.del Table.lookup
total-del s [] v = omega arith
total-del s ((j, old) ∷ t) (new, some_ads, d, v) =
    ground (arith, total-del s t v, Table.del_absent ℕ_discrete s t)

pub insert-IsTable :
    (s : ℕ) (peers : Peers) (t : List (ℕ × Peers))
    → 0 < length peers
    → Table.Distinct ℕ_discrete peers
    → IsTable t
    → IsTable (Table.insert ℕ_discrete s peers t)
unfolding Table.insert Table.lookup
insert-IsTable s peers [] h d v = (refl, h, d, tt)
insert-IsTable s peers ((j, old) ∷ t) h d (new, some_ads, dj, v) =
    ground (arith, insert-IsTable s peers t h d v, Table.lookup-insert ℕ_discrete j s peers t)

pub del-IsTable : (s : ℕ) (t : List (ℕ × Peers)) → IsTable t → IsTable (Table.del ℕ_discrete s t)
unfolding Table.del
del-IsTable s [] v = tt
del-IsTable s ((j, old) ∷ t) (new, some_ads, dj, v) =
    ground (arith, del-IsTable s t v, Table.lookup-del ℕ_discrete j s t)

-- What a service has.
pub IsTable-lookup :
    (s : ℕ) (t : List (ℕ × Peers)) (peers : Peers)
    → IsTable t
    → Table.lookup ℕ_discrete s t ≡ some peers
    → (0 < length peers) × Table.Distinct ℕ_discrete peers × (length peers ≤ total t)
unfolding Table.lookup
IsTable-lookup s [] peers v e = absurd (ground arith)
IsTable-lookup s ((j, old) ∷ t) peers (new, some_ads, dj, v) e = elim (ℕ_discrete s j) [
  | yes p ↦
      subst (λ q. (0 < length q) × Table.Distinct ℕ_discrete q × (length q ≤ length old + total t))
        {x = old} {y = peers} (ground arith) (some_ads, dj, omega arith)
  | no n ↦ let (a, b, c) = IsTable-lookup s t peers v (ground arith) in (a, b, omega arith)
]
