-- ===== src/Kademlia/RoutingTable/Buckets.antt =====
-- libp2p/protocols/kademlia/routing_table.nim: lemmas on a sequence of buckets and on one bucket.
use nim_libp2p.Common.{
  ℕ, zero, suc, ◌+◌, ◌≤◌, ◌<◌, ◌≡◌, refl, subst, arith, max, Bool, true, Option, none, some, List,
  [], ◌∷◌, ◌++◌, length, All, get_elem?, set, ltb, ◌==◌, eqb, is_some, if◌then◌else◌, Bool-cases,
  Option-cases, inl, inr, ◌⊎◌,
}
use nim_libp2p.Common.Sets.{count}
use nim_libp2p.Common.Sets
use nim_libp2p.Kademlia.PeerRegistry
use nim_libp2p.Kademlia.PeerRegistry.{PeerRegistry, remove_membership}
use nim_libp2p.Kademlia.RoutingTable.{
  State, extend, find_from, peer_index_in_bucket, last_seen, better, candidate_loop,
  replaceable_candidate, try_replace_stale_peer,
}

module _ {K : Type 0} where
  -- A bucket that is not there yet is empty.
  abbrev pub bucket_at : ℕ → List (List K) → List K
  bucket_at i [] = []
  bucket_at zero (b ∷ bs) = b
  bucket_at (suc i) (b ∷ bs) = bucket_at i bs

  pub bucket_at-extend :
      (i idx : ℕ) (bs : List (List K)) → bucket_at i (extend idx bs) ≡ bucket_at i bs
  unfolding extend
  bucket_at-extend zero zero [] = refl
  bucket_at-extend (suc i) zero [] = refl
  bucket_at-extend zero (suc idx) [] = refl
  bucket_at-extend (suc i) (suc idx) [] = bucket_at-extend i idx []
  bucket_at-extend i zero (b ∷ bs) = refl
  bucket_at-extend zero (suc idx) (b ∷ bs) = refl
  bucket_at-extend (suc i) (suc idx) (b ∷ bs) = bucket_at-extend i idx bs

  pub length-extend :
      (idx : ℕ) (bs : List (List K)) → length (extend idx bs) ≡ max (length bs) (suc idx)
  unfolding extend
  length-extend zero [] = omega arith
  length-extend zero (b ∷ bs) = omega arith
  length-extend (suc idx) [] = omega (arith, length-extend idx [])
  length-extend (suc idx) (b ∷ bs) = omega (arith, length-extend idx bs)

  pub bucket_at-set :
      (i idx : ℕ) (b : List K) (bs : List (List K))
      → idx < length bs
      → bucket_at i (set bs idx b) ≡ (if i == idx then b else bucket_at i bs)
  bucket_at-set i idx b [] h = absurd (omega arith)
  bucket_at-set zero zero b (c ∷ bs) h = refl
  bucket_at-set (suc i) zero b (c ∷ bs) h = ground arith
  bucket_at-set zero (suc idx) b (c ∷ bs) h = ground arith
  bucket_at-set (suc i) (suc idx) b (c ∷ bs) h =
      ground (arith, bucket_at-set i idx b bs (omega arith))

  pub get_elem?-bucket_at :
      (i : ℕ) (bs : List (List K)) → i < length bs → get_elem? bs i ≡ some (bucket_at i bs)
  get_elem?-bucket_at i [] h = absurd (omega arith)
  get_elem?-bucket_at zero (b ∷ bs) h = refl
  get_elem?-bucket_at (suc i) (b ∷ bs) h = get_elem?-bucket_at i bs (omega arith)

  pub get_elem?-none :
      (i : ℕ) (bs : List (List K)) → length bs ≤ i → (get_elem? bs i ≡ none) × (bucket_at i bs ≡ [])
  get_elem?-none i [] h = (refl, refl)
  get_elem?-none zero (b ∷ bs) h = absurd (omega arith)
  get_elem?-none (suc i) (b ∷ bs) h = get_elem?-none i bs (omega arith)

module _ {K : Type 0} (dec : Discrete K) where
  abbrev pub one_if : K → K → ℕ
  one_if k p = if eqb dec k p then 1 else 0

  pub contains-count : (k : K) (b : List K) → Sets.contains dec k b ≡ ltb 0 (count dec k b)
  unfolding Sets.contains count
  contains-count k [] = refl
  contains-count k (p ∷ b) = ground (arith, contains-count k b)

  pub find_from-contains :
      (i : ℕ) (node : K) (b : List K) → is_some (find_from dec i node b) ≡ Sets.contains dec node b
  unfolding find_from Sets.contains
  find_from-contains i node [] = refl
  find_from-contains i node (p ∷ b) = ground (arith, find_from-contains (i + 1) node b)

  pub is_some-peer_index :
      (node : K) (b : List K) → is_some (peer_index_in_bucket dec b node) ≡ Sets.contains dec node b
  unfolding peer_index_in_bucket
  is_some-peer_index node b = find_from-contains 0 node b

  pub count-add :
      (k : K) (b : List K) (p : K) → count dec k (b ++ p ∷ []) ≡ count dec k b + one_if k p
  unfolding count
  count-add k [] p = ground arith
  count-add k (x ∷ b) p = ground (arith, count-add k b p)

  pub count-set :
      (k : K) (b : List K) (i : ℕ) (old new : K)
      → get_elem? b i ≡ some old
      → count dec k (set b i new) + one_if k old ≡ count dec k b + one_if k new
  unfolding count
  count-set k [] i old new e = ground arith
  count-set k (x ∷ b) zero old new e = ground arith
  count-set k (x ∷ b) (suc i) old new e = ground (arith, count-set k b i old new e)

  pub contains-get_elem? :
      (b : List K) (i : ℕ) (p : K) → get_elem? b i ≡ some p → Sets.contains dec p b ≡ true
  unfolding Sets.contains
  contains-get_elem? [] i p e = ground arith
  contains-get_elem? (x ∷ b) zero p e = ground arith
  contains-get_elem? (x ∷ b) (suc i) p e = ground (arith, contains-get_elem? b i p e)

  pub contains-set :
      (b : List K) (i : ℕ) (old p : K)
      → get_elem? b i ≡ some old
      → Sets.contains dec p (set b i p) ≡ true
  unfolding Sets.contains
  contains-set [] i old p e = ground arith
  contains-set (x ∷ b) zero old p e = ground arith
  contains-set (x ∷ b) (suc i) old p e = ground (arith, contains-set b i old p e)

  pub contains-add : (b : List K) (p : K) → Sets.contains dec p (b ++ p ∷ []) ≡ true
  unfolding Sets.contains
  contains-add b p = ground (arith, Sets.contains-append dec p b (p ∷ []))

-- The peer that a full bucket gives up.
module _ {K : Type 0} (dec : Discrete K) (r : PeerRegistry K) (self_id : K) (grace now : ℕ) where
  abbrev pub past_grace : K → Bool
  past_grace p = PeerRegistry.is_replaceable dec r p self_id grace now

  -- Every peer past its grace period was seen at `t` or later.
  abbrev pub SeenSince : ℕ → List K → Type 0
  SeenSince t = All (λ q. past_grace q ≡ true → t ≤ last_seen dec r q)

  abbrev NotBefore : ℕ → Option (ℕ × ℕ) → Type 0
  NotBefore t none = Unit
  NotBefore t (some (k, u)) = t ≤ u

  -- The loop keeps its best, or takes a peer of the rest that is at least as good.
  Old : Option (ℕ × ℕ) → List K → ℕ → Type 0
  Old best b j = (t : ℕ) × (best ≡ some (j, t)) × SeenSince t b

  New : ℕ → Option (ℕ × ℕ) → List K → ℕ → Type 0
  New i best b j =
      (m : ℕ) × (p : K) × (j ≡ i + m)
      × (get_elem? b m ≡ some p)
      × (past_grace p ≡ true)
      × SeenSince (last_seen dec r p) b
      × NotBefore (last_seen dec r p) best

  chosen_step :
      (i : ℕ) (best : Option (ℕ × ℕ)) (p : K) (b : List K) (j : ℕ)
      → Old (better dec r self_id grace now i best p) b j
        ⊎ New (i + 1) (better dec r self_id grace now i best p) b j
      → Old best (p ∷ b) j ⊎ New i best (p ∷ b) j
  unfolding better Old New
  chosen_step i none p b j (inl (t, e, old)) = elim (Bool-cases (past_grace p)) [
    | inl past ↦ inr (
      0,
      p,
      ground arith,
      refl,
      past,
      (
        (λ _. omega arith),
        subst (λ v. SeenSince v b) (let q : t ≡ last_seen dec r p = ground arith in q) old,
      ),
      tt,
    )
    | inr fresh ↦ absurd (ground arith)
  ]
  chosen_step i none p b j (inr (m, q, at, e, past, old, nb)) =
      inr (suc m, q, omega arith, e, past, ((λ h. ground arith), old), tt)
  chosen_step i (some (k, u)) p b j (inl (t, e, old)) = elim (Bool-cases (past_grace p)) [
    | inl past ↦ elim (Bool-cases (ltb (last_seen dec r p) u)) [
      | inl older ↦ inr (
        0,
        p,
        ground arith,
        refl,
        past,
        (
          (λ _. omega arith),
          subst (λ v. SeenSince v b) (let q : t ≡ last_seen dec r p = ground arith in q) old,
        ),
        ground arith,
      )
      | inr newer ↦ inl (
        u,
        ground arith,
        ((λ _. ground arith), subst (λ v. SeenSince v b) (let q : t ≡ u = ground arith in q) old),
      )
    ]
    | inr fresh ↦ inl (t, ground arith, ((λ h. cc), old))
  ]
  chosen_step i (some (k, u)) p b j (inr (m, q, at, e, past, old, nb)) =
      inr (suc m, q, omega arith, e, past, ((λ h. ground arith), old), ground arith)

  chosen :
      (i : ℕ) (best : Option (ℕ × ℕ)) (b : List K) (j : ℕ)
      → candidate_loop dec r self_id grace now i best b ≡ some j
      → Old best b j ⊎ New i best b j
  unfolding candidate_loop Old
  chosen i none [] j e = absurd (ground arith)
  chosen i (some (k, u)) [] j e = inl (u, ground arith, tt)
  chosen i best (p ∷ b) j e =
      chosen_step i best p b j (chosen (i + 1) (better dec r self_id grace now i best p) b j e)

  -- The replaced peer is past its grace period, and no such peer of the bucket was seen earlier.
  pub replaceable_candidate-oldest :
      (s : State K) (b : List K) (j : ℕ)
      → s.registry ≡ r
      → s.table.self_id ≡ self_id
      → replaceable_candidate dec s b grace now ≡ some j
      → (p : K) × (get_elem? b j ≡ some p) × (past_grace p ≡ true) × SeenSince (last_seen dec r p) b
  unfolding replaceable_candidate Old New
  replaceable_candidate-oldest s b j er es e = elim (chosen 0 none b j (rw (er, es) at e)) [
    | inl (t, q, _) ↦ absurd (ground arith)
    | inr (m, p, at, here, past, old, _) ↦
        let same : j ≡ m = omega arith in (p, rw same here, past, old)
  ]

pub try_replace_stale_peer-oldest :
    {K : Type 0} (dec : Discrete K) (s : State K) (b : List K) (node : K) (now : ℕ) {b' : List K}
    {reg : PeerRegistry K}
    → try_replace_stale_peer dec s b node now ≡ some (b', reg)
    → (i : ℕ) × (old : K) × (s.table.config.replication ≤ length b)
      × (get_elem? b i ≡ some old)
      × (b' ≡ set b i node)
      × (reg ≡ remove_membership dec s.registry old s.table.self_id)
      × (past_grace dec s.registry s.table.self_id s.table.config.usefulness_grace_period now old
          ≡ true)
      × SeenSince dec s.registry s.table.self_id s.table.config.usefulness_grace_period now
          (last_seen dec s.registry old)
          b
unfolding try_replace_stale_peer
try_replace_stale_peer-oldest dec s b node now e =
    let grace : ℕ = s.table.config.usefulness_grace_period in
    elim (Option-cases (replaceable_candidate dec s b grace now)) [
      | inl stop ↦ absurd (ground arith)
      | inr (j, found) ↦
          let (p, here, past, old) =
            replaceable_candidate-oldest dec s.registry s.table.self_id grace now s b j refl refl
              found in
          (j, p, ground arith, here, ground arith, ground arith, past, old)
    ]
