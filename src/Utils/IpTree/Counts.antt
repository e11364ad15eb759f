-- ===== src/Utils/IpTree/Counts.antt =====
-- libp2p/utils/iptree.nim: the counters against the number of times that each address was inserted.
use nim_libp2p.Common.{
  ℕ, zero, suc, ◌+◌, ◌-◌, ◌≤◌, ◌<◌, ◌≡◌, inl, inr, refl, ap, ◌∙◌, arith, Bool, true, false, List,
  [], ◌∷◌, length, ltb, if◌then◌else◌, Bool-cases,
}
use nim_libp2p.Utils.IpTree.{
  Node, nil, node, counter, step, insert_bits, is_path, dec_path, is_dead, unlink, prune_path,
  remove_bits,
}

-- The leaf's counter.
abbrev pub times : List Bool → Node → ℕ
times [] v = counter v
times (b ∷ bs) v = times bs (step b v)

abbrev pub same : List Bool → List Bool → Bool
same [] [] = true
same [] (c ∷ cs) = false
same (b ∷ bs) [] = false
same (true ∷ bs) (true ∷ cs) = same bs cs
same (false ∷ bs) (false ∷ cs) = same bs cs
same (true ∷ bs) (false ∷ cs) = false
same (false ∷ bs) (true ∷ cs) = false

-- Above the leaves, at depth `n`, each counter is the sum of the children's.
abbrev pub IsCounted : ℕ → Node → Type 0
IsCounted zero v = Unit
IsCounted (suc n) nil = Unit
IsCounted (suc n) (node c l r) = (c ≡ counter l + counter r) × IsCounted n l × IsCounted n r

times-nil : (bs : List Bool) → times bs nil ≡ 0
times-nil [] = refl
times-nil (b ∷ bs) = times-nil bs

nil-IsCounted : (n : ℕ) → IsCounted n nil
nil-IsCounted zero = tt
nil-IsCounted (suc n) = tt

times-insert :
    (bs cs : List Bool) (v : Node)
    → length bs ≡ length cs
    → times cs (insert_bits bs v) ≡ times cs v + (if same cs bs then 1 else 0)
unfolding insert_bits
times-insert [] [] nil e = refl
times-insert [] [] (node c l r) e = omega arith
times-insert [] (c ∷ cs) v e = absurd (omega arith)
times-insert (b ∷ bs) [] v e = absurd (omega arith)
times-insert (true ∷ bs) (true ∷ cs) nil e = times-insert bs cs nil (omega arith)
times-insert (true ∷ bs) (false ∷ cs) nil e = omega (arith, times-nil cs)
times-insert (false ∷ bs) (true ∷ cs) nil e = omega (arith, times-nil cs)
times-insert (false ∷ bs) (false ∷ cs) nil e = times-insert bs cs nil (omega arith)
times-insert (true ∷ bs) (true ∷ cs) (node c l r) e = times-insert bs cs r (omega arith)
times-insert (true ∷ bs) (false ∷ cs) (node c l r) e = omega arith
times-insert (false ∷ bs) (true ∷ cs) (node c l r) e = omega arith
times-insert (false ∷ bs) (false ∷ cs) (node c l r) e = times-insert bs cs l (omega arith)

is_path-nil : (bs : List Bool) → is_path bs nil ≡ false
unfolding is_path
is_path-nil [] = refl
is_path-nil (b ∷ bs) = refl

times_le_counter : (bs : List Bool) (v : Node) → IsCounted (length bs) v → times bs v ≤ counter v
times_le_counter [] v h = omega arith
times_le_counter (b ∷ bs) nil h = omega (arith, times-nil bs)
times_le_counter (true ∷ bs) (node c l r) (e, hl, hr) = omega (arith, times_le_counter bs r hr)
times_le_counter (false ∷ bs) (node c l r) (e, hl, hr) = omega (arith, times_le_counter bs l hl)

-- The walk reaches the leaf exactly if the address was inserted.
pub is_path-times :
    (bs : List Bool) (v : Node) → IsCounted (length bs) v → is_path bs v ≡ ltb 0 (times bs v)
unfolding is_path
is_path-times [] v h = refl
is_path-times (b ∷ bs) nil h = ground (arith, times-nil bs)
is_path-times (true ∷ bs) (node c l r) (e, hl, hr) =
    ground (arith, is_path-times bs r hr, times_le_counter bs r hr)
is_path-times (false ∷ bs) (node c l r) (e, hl, hr) =
    ground (arith, is_path-times bs l hl, times_le_counter bs l hl)

counter-insert : (bs : List Bool) (v : Node) → counter (insert_bits bs v) ≡ suc (counter v)
unfolding insert_bits
counter-insert [] nil = refl
counter-insert [] (node c l r) = refl
counter-insert (true ∷ bs) nil = refl
counter-insert (false ∷ bs) nil = refl
counter-insert (true ∷ bs) (node c l r) = refl
counter-insert (false ∷ bs) (node c l r) = refl

pub insert_bits-IsCounted :
    (bs : List Bool) (v : Node) → IsCounted (length bs) v → IsCounted (length bs) (insert_bits bs v)
unfolding insert_bits
insert_bits-IsCounted [] v h = tt
insert_bits-IsCounted (true ∷ bs) nil h = (
  omega (arith, counter-insert bs nil),
  nil-IsCounted (length bs),
  insert_bits-IsCounted bs nil (nil-IsCounted (length bs)),
)
insert_bits-IsCounted (false ∷ bs) nil h = (
  omega (arith, counter-insert bs nil),
  insert_bits-IsCounted bs nil (nil-IsCounted (length bs)),
  nil-IsCounted (length bs),
)
insert_bits-IsCounted (true ∷ bs) (node c l r) (e, hl, hr) =
    (omega (arith, counter-insert bs r), hl, insert_bits-IsCounted bs r hr)
insert_bits-IsCounted (false ∷ bs) (node c l r) (e, hl, hr) =
    (omega (arith, counter-insert bs l), insert_bits-IsCounted bs l hl, hr)

abbrev taken : List Bool → Node → Node
taken bs v = prune_path bs (dec_path bs v)

counter-unlink : (v : Node) → counter (unlink v) ≡ counter v
counter-unlink nil = refl
counter-unlink (node c l r) = ground arith

counter-taken : (bs : List Bool) (v : Node) → counter (taken bs v) ≡ counter v - 1
unfolding prune_path dec_path
counter-taken [] nil = omega arith
counter-taken [] (node c l r) = refl
counter-taken (b ∷ bs) nil = omega arith
counter-taken (true ∷ bs) (node c l r) = refl
counter-taken (false ∷ bs) (node c l r) = refl

unlink-IsCounted : (n : ℕ) (v : Node) → IsCounted n v → IsCounted n (unlink v)
unlink-IsCounted n nil h = h
unlink-IsCounted n (node c l r) h = go (is_dead (node c l r))
  where
    go : (b : Bool) → IsCounted n (if b then nil else node c l r)
    go true = nil-IsCounted n
    go false = h

times-unlink : (bs : List Bool) (v : Node) → times bs (unlink v) ≡ times bs v
times-unlink bs nil = refl
times-unlink [] (node c l r) = counter-unlink (node c l r)
times-unlink (true ∷ bs) (node c l r) = ground (arith, times-nil bs)
times-unlink (false ∷ bs) (node c l r) = ground (arith, times-nil bs)

is_path-pos : (bs : List Bool) (v : Node) → is_path bs v ≡ true → 0 < counter v
unfolding is_path
is_path-pos [] v p = ground arith
is_path-pos (b ∷ bs) v p = ground arith

taken-IsCounted :
    (bs : List Bool) (v : Node)
    → is_path bs v ≡ true
    → IsCounted (length bs) v
    → IsCounted (length bs) (taken bs v)
unfolding prune_path dec_path is_path
taken-IsCounted [] v p h = tt
taken-IsCounted (b ∷ bs) nil p h = tt
taken-IsCounted (true ∷ bs) (node c l r) p (e, hl, hr) =
    let q : is_path bs r ≡ true = ground arith in
    let some_left = is_path-pos bs r q in
    (
      omega (arith, counter-unlink (taken bs r), counter-taken bs r, some_left),
      hl,
      unlink-IsCounted (length bs) (taken bs r) (taken-IsCounted bs r q hr),
    )
taken-IsCounted (false ∷ bs) (node c l r) p (e, hl, hr) =
    let q : is_path bs l ≡ true = ground arith in
    let some_left = is_path-pos bs l q in
    (
      omega (arith, counter-unlink (taken bs l), counter-taken bs l, some_left),
      unlink-IsCounted (length bs) (taken bs l) (taken-IsCounted bs l q hl),
      hr,
    )

times-taken :
    (bs cs : List Bool) (v : Node)
    → length bs ≡ length cs
    → times cs (taken bs v) ≡ times cs v - (if same cs bs then 1 else 0)
unfolding prune_path dec_path
times-taken [] [] nil e = omega arith
times-taken [] [] (node c l r) e = refl
times-taken [] (c ∷ cs) v e = absurd (omega arith)
times-taken (b ∷ bs) [] v e = absurd (omega arith)
times-taken (b ∷ bs) (c ∷ cs) nil e = omega (arith, times-nil cs)
times-taken (true ∷ bs) (true ∷ cs) (node c l r) e =
    times-unlink cs (taken bs r) ∙ times-taken bs cs r (omega arith)
times-taken (true ∷ bs) (false ∷ cs) (node c l r) e = omega arith
times-taken (false ∷ bs) (true ∷ cs) (node c l r) e = omega arith
times-taken (false ∷ bs) (false ∷ cs) (node c l r) e =
    times-unlink cs (taken bs l) ∙ times-taken bs cs l (omega arith)

same_refl : (bs cs : List Bool) → same cs bs ≡ true → cs ≡ bs
same_refl [] [] e = refl
same_refl [] (c ∷ cs) e = absurd (ground arith)
same_refl (b ∷ bs) [] e = absurd (ground arith)
same_refl (true ∷ bs) (true ∷ cs) e = ap (λ x. true ∷ x) (same_refl bs cs e)
same_refl (false ∷ bs) (false ∷ cs) e = ap (λ x. false ∷ x) (same_refl bs cs e)
same_refl (true ∷ bs) (false ∷ cs) e = absurd (ground arith)
same_refl (false ∷ bs) (true ∷ cs) e = absurd (ground arith)

-- In a tree whose counters are sums, insertion counts its address once more and no other, removal
-- counts its address once less (down to 0) and no other, both keep the counters sums, and the root
-- counts the insertion.
pub counts_lem :
    (bs cs : List Bool) (v : Node)
    → length bs ≡ length cs
    → IsCounted (length bs) v
    → (times cs (insert_bits bs v) ≡ times cs v + (if same cs bs then 1 else 0))
      × (times cs (remove_bits bs v) ≡ times cs v - (if same cs bs then 1 else 0))
      × IsCounted (length bs) (insert_bits bs v)
      × IsCounted (length bs) (remove_bits bs v)
      × (counter (insert_bits bs v) ≡ suc (counter v))
unfolding remove_bits
counts_lem bs cs v e h = (
  times-insert bs cs v e,
  removed.0,
  insert_bits-IsCounted bs v h,
  removed.1,
  counter-insert bs v,
)
  where
    absent : is_path bs v ≡ false → times cs v ≡ times cs v - (if same cs bs then 1 else 0)
    absent n = elim (Bool-cases (same cs bs)) [
      | inl s ↦ ground (arith, is_path-times bs v h, ap (λ x. times x v) (same_refl bs cs s))
      | inr s ↦ rw s (omega arith)
    ]

    go :
        (b : Bool)
        → is_path bs v ≡ b
        → (times cs (if b then taken bs v else v) ≡ times cs v - (if same cs bs then 1 else 0))
          × IsCounted (length bs) (if b then taken bs v else v)
    go true p = (times-taken bs cs v e, taken-IsCounted bs v p h)
    go false p = (absent p, h)

    removed :
        (times cs (remove_bits bs v) ≡ times cs v - (if same cs bs then 1 else 0))
        × IsCounted (length bs) (remove_bits bs v)
    removed = go (is_path bs v) refl
