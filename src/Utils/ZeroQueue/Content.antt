-- ===== src/Utils/ZeroQueue/Content.antt =====
-- libp2p/utils/zeroqueue.nim: the bytes that a queue stands for, and what `push` and `popChunk` do
-- to them.
use nim_libp2p.Common.{
  ℕ, suc, ◌+◌, ◌-◌, ◌≤◌, ◌<◌, ◌≡◌, ◌⊎◌, inl, inr, refl, sym, ap, ◌∙◌, arith, List, [], ◌∷◌, ◌++◌,
  length, All, leb, append-nil, append_assoc, length-append, length-take, length-drop, take, drop,
  drop-take, drop-drop, take-take_le, take-append-drop, Bool-cases, take_all, some, lt→ltb, leb→le,
}
use nim_libp2p.Utils.ZeroQueue.{
  Chunk, ZeroQueue, len_chunk, chunk_view, new_chunk, push, split_chunk, pop_chunk,
}

abbrev pub content_of : List Chunk → List ℕ
content_of [] = []
content_of (c ∷ cs) = chunk_view c ++ content_of cs

abbrev pub content : ZeroQueue → List ℕ
content q = content_of q.chunks

-- A chunk in the queue has bytes left, and its end lies within its data.
abbrev pub IsGood : Chunk → Type 0
IsGood c = (c.start < c.size) × (c.size ≤ length c.bytes)

pub record IsValid (q : ZeroQueue) : Type 0 where
  pub good : All IsGood q.chunks
  pub counted : q.queued_bytes ≡ length (content q)

pub length-chunk_view : (c : Chunk) → IsGood c → length (chunk_view c) ≡ len_chunk c
length-chunk_view c g =
    length-take (len_chunk c) (drop c.start c.bytes) ∙ omega (arith, length-drop c.start c.bytes)

content-append : (cs ds : List Chunk) → content_of (cs ++ ds) ≡ content_of cs ++ content_of ds
content-append [] ds = refl
content-append (c ∷ cs) ds =
    rw (content-append cs ds) (sym (append_assoc (chunk_view c) (content_of cs) (content_of ds)))

IsGood-append : (cs ds : List Chunk) → All IsGood cs → All IsGood ds → All IsGood (cs ++ ds)
IsGood-append [] ds g h = h
IsGood-append (c ∷ cs) ds (gc, g) h = (gc, IsGood-append cs ds g h)

length-content-good :
    (c : Chunk) (cs : List Chunk) → IsGood c → len_chunk c ≤ length (content_of (c ∷ cs))
length-content-good c cs g =
    omega (arith, length-append (chunk_view c) (content_of cs), length-chunk_view c g)

view_new : (b : List ℕ) → chunk_view (new_chunk b) ≡ b
unfolding new_chunk
view_new b = take_all (length b - 0) b (omega arith)

new_chunk_bounds : (x : ℕ) (b : List ℕ) → IsGood (new_chunk (x ∷ b))
unfolding new_chunk
new_chunk_bounds x b = omega arith

-- `push` appends the bytes to the queue's content, and keeps the queue valid.
pub push-content :
    (b : List ℕ) (q : ZeroQueue)
    → IsValid q
    → IsValid (push b q) × (content (push b q) ≡ content q ++ b)
unfolding push
push-content [] q v = (v, sym (append-nil (content q)))
push-content (x ∷ b) q v =
    let e : content_of (q.chunks ++ new_chunk (x ∷ b) ∷ []) ≡ content q ++ (x ∷ b) =
      content-append q.chunks (new_chunk (x ∷ b) ∷ [])
      ∙ ap (λ t. content q ++ t) (append-nil (chunk_view (new_chunk (x ∷ b))) ∙ view_new (x ∷ b)) in
    rw (lt→ltb 0 (suc (length b)) (omega arith)) (
      record {
        good = IsGood-append q.chunks _ v.good (new_chunk_bounds x b, tt);
        counted = omega (arith, v.counted, ap length e, length-append (content q) (x ∷ b));
      },
      e,
    )

-- What `popChunk` gives back: a part of at most `count` bytes off the front of the content.
pub record Pops (count : ℕ) (q : ZeroQueue) (c : Chunk) (q' : ZeroQueue) : Type 0 where
  pub valid : IsValid q'
  pub good : IsGood c
  pub split : chunk_view c ++ content q' ≡ content q
  pub at_most : len_chunk c ≤ count
  pub progress : (length q'.chunks < length q.chunks) ⊎ (len_chunk c ≡ count)

split_whole :
    (count queued : ℕ) (c : Chunk) (cs : List Chunk)
    → IsGood c
    → All IsGood cs
    → queued ≡ length (content_of (c ∷ cs))
    → len_chunk c ≤ count
    → Pops count
        (record { chunks = c ∷ cs; queued_bytes = queued })
        c
        (record { chunks = cs; queued_bytes = queued - len_chunk c })
split_whole count queued c cs g gs e h = record {
  valid = record {
    good = gs;
    counted = omega (arith, length-append (chunk_view c) (content_of cs), length-chunk_view c g);
  };
  good = g;
  split = refl;
  at_most = h;
  progress = inl (omega arith);
}

-- The bytes of a chunk are those of its first `count` and of what stays behind them.
view-split :
    (count : ℕ) (c : Chunk)
    → count ≤ len_chunk c
    → chunk_view (record c { size = c.start + count })
        ++ chunk_view (record c { start = c.start + count })
      ≡ chunk_view c
view-split count c h =
    let bytes = drop c.start c.bytes in
    let front : take (c.start + count - c.start) bytes ≡ take count (chunk_view c) =
      ap (λ k. take k bytes) (let e : c.start + count - c.start ≡ count = omega arith in e)
      ∙ sym (take-take_le count (len_chunk c) bytes h) in
    let back : take (c.size - (c.start + count)) (drop (c.start + count) c.bytes)
        ≡ drop count (chunk_view c) =
      ap (λ k. take k (drop (c.start + count) c.bytes))
        (let e : c.size - (c.start + count) ≡ len_chunk c - count = omega arith in e)
      ∙ ap (take (len_chunk c - count)) (sym (drop-drop count c.start c.bytes))
      ∙ sym (drop-take count (len_chunk c) bytes) in
    rw (front, back) (take-append-drop count (chunk_view c))

split_part :
    (count queued : ℕ) (c : Chunk) (cs : List Chunk)
    → IsGood c
    → All IsGood cs
    → queued ≡ length (content_of (c ∷ cs))
    → 0 < count
    → count < len_chunk c
    → Pops count
        (record { chunks = c ∷ cs; queued_bytes = queued })
        (record c { size = c.start + count })
        (record {
          chunks = record c { start = c.start + count } ∷ cs;
          queued_bytes = queued - count;
        })
split_part count queued c cs g gs e pos h =
    let taken : Chunk = record c { size = c.start + count } in
    let left : Chunk = record c { start = c.start + count } in
    let taken_good : IsGood taken = omega arith in
    let left_good : IsGood left = omega arith in
    let whole : chunk_view taken ++ content_of (left ∷ cs) ≡ content_of (c ∷ cs) =
      sym (append_assoc (chunk_view taken) (chunk_view left) (content_of cs))
      ∙ ap (λ t. t ++ content_of cs) (view-split count c (omega arith)) in
    record {
      valid = record {
        good = (left_good, gs);
        counted = omega (
          arith,
          ap length whole,
          length-append (chunk_view taken) (content_of (left ∷ cs)),
          length-chunk_view taken taken_good,
        );
      };
      good = taken_good;
      split = whole;
      at_most = omega arith;
      progress = inr (omega arith);
    }

-- `popChunk` on a valid queue that is not empty: it succeeds, and takes a part off the front.
pub pop_chunk-Pops :
    (count : ℕ) (q : ZeroQueue)
    → IsValid q
    → 0 < count
    → 0 < length q.chunks
    → (r : Chunk × ZeroQueue) × (pop_chunk count q ≡ some r) × Pops count q r.0 r.1
unfolding pop_chunk
pop_chunk-Pops count q v pos busy = go q.chunks v.good v.counted busy
  where
    whole-or-part :
        (c : Chunk) (cs : List Chunk)
        → IsGood c
        → All IsGood cs
        → q.queued_bytes ≡ length (content_of (c ∷ cs))
        → Pops count
            (record { chunks = c ∷ cs; queued_bytes = q.queued_bytes })
            (split_chunk count c cs q.queued_bytes).0
            (split_chunk count c cs q.queued_bytes).1
    whole-or-part c cs g gs e = elim (Bool-cases (leb (len_chunk c) count)) [
      | inl fits ↦ rw fits (split_whole count q.queued_bytes c cs g gs e (leb→le _ _ fits))
      | inr over ↦ rw over (split_part count q.queued_bytes c cs g gs e pos (ground arith))
    ]

    go :
        (cs : List Chunk)
        → All IsGood cs
        → q.queued_bytes ≡ length (content_of cs)
        → 0 < length cs
        → (r : Chunk × ZeroQueue) × (pop_chunk count
              (record { chunks = cs; queued_bytes = q.queued_bytes })
            ≡ some r)
          × Pops count (record { chunks = cs; queued_bytes = q.queued_bytes }) r.0 r.1
    go [] gs e h = absurd (omega arith)
    go (c ∷ cs) (g, gs) e h =
        rw (lt→ltb 0 count pos)
          (split_chunk count c cs q.queued_bytes, refl, whole-or-part c cs g gs e)
