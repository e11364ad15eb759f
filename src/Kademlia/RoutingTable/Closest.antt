-- ===== src/Kademlia/RoutingTable/Closest.antt =====
-- libp2p/protocols/kademlia/routing_table.nim: `findClosest`, and `nearestToCenter`.
use nim_libp2p.Common.{
  ℕ, suc, ◌+◌, ◌≡◌, refl, sym, ap, ◌∙◌, arith, min, false, none, some, List, [], ◌∷◌, ◌++◌, length,
  length-append, length-take, take, drop, take-append-drop, All, if◌then◌else◌, Bool-cases, inl,
  inr,
}
use nim_libp2p.Common.Sets.{count, count-append}
use nim_libp2p.Kademlia.Distance.{lt, xor_distance, id_length}
use nim_libp2p.Kademlia.Distance.Order.{xor_distance-IsHash, not_lt_trans, not_lt_of_lt}
use nim_libp2p.Kademlia.RoutingTable.{RoutingTable, hash_for, peer_count, peer_count_of}
use nim_libp2p.Kademlia.RoutingTable.Invariant.{HashesWell}

abbrev pub all_keys : {K : Type 0} → List (List K) → List K
all_keys [] = []
all_keys (b ∷ bs) = b ++ all_keys bs

pub length-all_keys : {K : Type 0} (bs : List (List K)) → length (all_keys bs) ≡ peer_count_of bs
length-all_keys [] = refl
length-all_keys (b ∷ bs) = omega (arith, length-append b (all_keys bs), length-all_keys bs)

module _ {K : Type 0} (dist : K → List ℕ) where
  -- `sort` with the comparison of distances; like the library's, it is stable.
  unfoldable pub insert_key : K → List K → List K
  insert_key x [] = x ∷ []
  insert_key x (y ∷ ys) = if lt (dist y) (dist x) then y ∷ insert_key x ys else x ∷ y ∷ ys

  unfoldable pub sort_keys : List K → List K
  unfolding insert_key
  sort_keys [] = []
  sort_keys (x ∷ xs) = insert_key x (sort_keys xs)

  -- `q` is not closer than `p`.
  abbrev pub NotCloser : K → K → Type 0
  NotCloser p q = lt (dist q) (dist p) ≡ false

  abbrev pub IsSorted : List K → Type 0
  IsSorted [] = Unit
  IsSorted (x ∷ xs) = All (NotCloser x) xs × IsSorted xs

  module _ (n : ℕ) (sized : (k : K) → length (dist k) ≡ n) where
    NotCloser-trans : (p q r : K) → NotCloser p q → NotCloser q r → NotCloser p r
    NotCloser-trans p q r h k =
        not_lt_trans (dist p) (dist q) (dist r) (sized p ∙ sym (sized q)) (sized q ∙ sym (sized r))
          h k

    All-NotCloser :
        (p q : K) (ys : List K) → NotCloser p q → All (NotCloser q) ys → All (NotCloser p) ys
    All-NotCloser p q [] h a = tt
    All-NotCloser p q (y ∷ ys) h (hy, a) = (NotCloser-trans p q y h hy, All-NotCloser p q ys h a)

    All-insert_key :
        (p x : K) (ys : List K)
        → NotCloser p x
        → All (NotCloser p) ys
        → All (NotCloser p) (insert_key x ys)
    unfolding insert_key
    All-insert_key p x [] h a = (h, tt)
    All-insert_key p x (y ∷ ys) h (hy, a) = elim (Bool-cases (lt (dist y) (dist x))) [
      | inl closer ↦ rw closer (hy, All-insert_key p x ys h a)
      | inr no_closer ↦ rw no_closer (h, (hy, a))
    ]

    insert_key-IsSorted : (x : K) (ys : List K) → IsSorted ys → IsSorted (insert_key x ys)
    unfolding insert_key
    insert_key-IsSorted x [] s = (tt, tt)
    insert_key-IsSorted x (y ∷ ys) (a, s) = elim (Bool-cases (lt (dist y) (dist x))) [
      | inl closer ↦ rw closer (
        All-insert_key y x ys (not_lt_of_lt (dist y) (dist x) closer) a,
        insert_key-IsSorted x ys s,
      )
      | inr no_closer ↦ rw no_closer ((no_closer, All-NotCloser x y ys no_closer a), (a, s))
    ]

    pub sort_keys-IsSorted : (xs : List K) → IsSorted (sort_keys xs)
    unfolding sort_keys
    sort_keys-IsSorted [] = tt
    sort_keys-IsSorted (x ∷ xs) = insert_key-IsSorted x (sort_keys xs) (sort_keys-IsSorted xs)

  length-insert_key : (x : K) (ys : List K) → length (insert_key x ys) ≡ suc (length ys)
  unfolding insert_key
  length-insert_key x [] = refl
  length-insert_key x (y ∷ ys) = ground (arith, length-insert_key x ys)

  pub length-sort_keys : (xs : List K) → length (sort_keys xs) ≡ length xs
  unfolding sort_keys
  length-sort_keys [] = refl
  length-sort_keys (x ∷ xs) = omega (arith, length-insert_key x (sort_keys xs), length-sort_keys xs)

  module _ (dec : Discrete K) where
    count-insert_key :
        (k x : K) (ys : List K) → count dec k (insert_key x ys) ≡ count dec k (x ∷ ys)
    unfolding insert_key count
    count-insert_key k x [] = refl
    count-insert_key k x (y ∷ ys) = ground (arith, count-insert_key k x ys)

    pub count-sort_keys : (k : K) (xs : List K) → count dec k (sort_keys xs) ≡ count dec k xs
    unfolding sort_keys count
    count-sort_keys k [] = refl
    count-sort_keys k (x ∷ xs) =
        ground (arith, count-insert_key k x (sort_keys xs), count-sort_keys k xs)

  IsSorted-split :
      (xs ys : List K) → IsSorted (xs ++ ys) → IsSorted xs × All (λ p. All (NotCloser p) ys) xs
  IsSorted-split [] ys s = (tt, tt)
  IsSorted-split (x ∷ xs) ys (a, s) =
      let (sx, far) = IsSorted-split xs ys s in
      let (ax, ay) = All-split xs a in ((ax, sx), (ay, far))
    where
      All-split :
          (zs : List K) → All (NotCloser x) (zs ++ ys) → All (NotCloser x) zs × All (NotCloser x) ys
      All-split [] b = (tt, b)
      All-split (z ∷ zs) (h, b) = let (l, r) = All-split zs b in ((h, l), r)

  pub IsSorted-take :
      (n : ℕ) (xs : List K)
      → IsSorted xs
      → IsSorted (take n xs) × All (λ p. All (NotCloser p) (drop n xs)) (take n xs)
  IsSorted-take n xs s = IsSorted-split (take n xs) (drop n xs) (rw (take-append-drop n xs) s)

module _ {K : Type 0} (dec : Discrete K) (to_bytes : K → List ℕ) (hasher : List ℕ → List ℕ) where
  -- Both are hashes, so the assertion of `xorDistance` holds.
  unfoldable pub hash_distance : List ℕ → K → List ℕ
  hash_distance target_hash k = elim (xor_distance (hash_for dec to_bytes hasher k) target_hash) [
    | none ↦ []
    | some d ↦ d
  ]

  unfoldable pub find_closest : RoutingTable K → K → ℕ → List K
  unfolding hash_distance sort_keys
  find_closest rt target_id n =
      let all_nodes = all_keys rt.buckets in
      take (min n (length all_nodes))
        (sort_keys (hash_distance (hash_for dec to_bytes hasher target_id)) all_nodes)

  length-hash_distance :
      HashesWell dec to_bytes hasher
      → (t k : K) → length (hash_distance (hash_for dec to_bytes hasher t) k) ≡ id_length
  unfolding hash_distance
  length-hash_distance hw t k =
      let (d, e, _, h, _) = xor_distance-IsHash _ _ (hw k) (hw t) in rw (e, hash_distance) h.0

  -- `findClosest` gives as many keys as asked for, if the table holds them, and else all; closest
  -- first; and together with keys that are not closer than any of them they are the table's keys.
  pub find_closest_best :
      (rt : RoutingTable K) (t : K) (n : ℕ)
      → HashesWell dec to_bytes hasher
      → (rest : List K) × (length (find_closest rt t n) ≡ min n (peer_count rt))
        × IsSorted (hash_distance (hash_for dec to_bytes hasher t)) (find_closest rt t n)
        × All
            (λ p. All (NotCloser (hash_distance (hash_for dec to_bytes hasher t)) p) rest)
            (find_closest rt t n)
        × ((k : K)
            → count dec k (find_closest rt t n) + count dec k rest
              ≡ count dec k (all_keys rt.buckets))
  unfolding find_closest
  find_closest_best rt t n hw =
      let dist : K → List ℕ = hash_distance (hash_for dec to_bytes hasher t) in
      let all : List K = all_keys rt.buckets in
      let m : ℕ = min n (length all) in
      let sorted : List K = sort_keys dist all in
      let (s, far) =
        IsSorted-take dist m sorted
          (sort_keys-IsSorted dist id_length (length-hash_distance hw t) all) in
      (
        drop m sorted,
        omega (arith, length-take m sorted, length-sort_keys dist all, length-all_keys rt.buckets),
        s,
        far,
        λ k.
            sym (count-append dec k (take m sorted) (drop m sorted))
            ∙ ap (count dec k) (take-append-drop m sorted)
            ∙ count-sort_keys dist dec k all,
      )
