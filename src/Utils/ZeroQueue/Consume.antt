-- ===== src/Utils/ZeroQueue/Consume.antt =====
-- libp2p/utils/zeroqueue.nim: `consumeTo` and `popChunkSeq` against the queue's content.
use nim_libp2p.Common.{
  ℕ, zero, suc, ◌-◌, ◌≤◌, ◌<◌, ◌≡◌, ◌⊎◌, inl, inr, refl, sym, ap, ◌∙◌, arith, List, [], ◌∷◌, ◌++◌,
  length, true, false, ◌==◌, ◌||◌, Bool-cases, some, take, drop, take-append_ge, drop-append_ge,
}
use nim_libp2p.Utils.ZeroQueue.{
  Chunk, ZeroQueue, len_chunk, chunk_view, is_empty, pop_chunk, consume_loop, consume_to,
  pop_chunk_seq,
}
use nim_libp2p.Utils.ZeroQueue.Content.{content, IsValid, Pops, length-chunk_view, pop_chunk-Pops}

-- What a read of up to `want` bytes does: it gives the first of them, and leaves the others.
abbrev pub Reads : ℕ → ZeroQueue → List ℕ × ZeroQueue → Type 0
Reads want q r = IsValid r.1 × (r.0 ≡ take want (content q)) × (content r.1 ≡ drop want (content q))

Reads-stop :
    (want : ℕ) (q : ZeroQueue) → IsValid q → (want == 0 || is_empty q) ≡ true → Reads want q ([], q)
Reads-stop zero q v h = (v, refl, refl)
Reads-stop (suc want) q v h = go q.chunks v h
  where
    go :
        (cs : List Chunk)
        → IsValid (record q { chunks = cs })
        → (suc want == 0 || is_empty (record q { chunks = cs })) ≡ true
        → Reads (suc want) (record q { chunks = cs }) ([], record q { chunks = cs })
    go [] v h = (v, refl, refl)
    go (c ∷ cs) v h = absurd (ground arith)

take-part :
    {want k : ℕ} (xs ys : List ℕ)
    → length xs ≡ k
    → k ≤ want
    → (take want (xs ++ ys) ≡ xs ++ take (want - k) ys)
      × (drop want (xs ++ ys) ≡ drop (want - k) ys)
take-part {want} xs ys e h =
    let fits : length xs ≤ want = omega arith in
    (rw (← e) (take-append_ge want xs ys fits), rw (← e) (drop-append_ge want xs ys fits))

-- One part off the front, then a read of what is still wanted.
Reads-next :
    {want : ℕ} {q q' : ZeroQueue} {c : Chunk} (r : List ℕ × ZeroQueue)
    → Pops want q c q'
    → Reads (want - len_chunk c) q' r
    → Reads want q (chunk_view c ++ r.0, r.1)
Reads-next {want} {q} {q'} {c} r p (v, out, left) =
    let part =
      take-part {want = want} (chunk_view c) (content q') (length-chunk_view c p.good) p.at_most in
    (
      v,
      ap (λ t. chunk_view c ++ t) out ∙ sym part.0 ∙ ap (take want) p.split,
      left ∙ sym part.1 ∙ ap (drop want) p.split,
    )

busy :
    (want : ℕ) (q : ZeroQueue)
    → (want == 0 || is_empty q) ≡ false
    → (0 < want) × (0 < length q.chunks)
busy want q h = (ground arith, go q.chunks (ground arith))
  where
    go : (cs : List Chunk) → is_empty (record q { chunks = cs }) ≡ false → 0 < length cs
    go [] e = absurd (ground arith)
    go (c ∷ cs) e = omega arith

loop-stop :
    (fuel want : ℕ) (q : ZeroQueue)
    → (want == 0 || is_empty q) ≡ true
    → consume_loop (suc fuel) want q ≡ some ([], q)
unfolding consume_loop
loop-stop fuel want q e = rw (e, consume_loop)

loop-next :
    (fuel want : ℕ) (q : ZeroQueue) {c : Chunk} {q' : ZeroQueue} {r : List ℕ × ZeroQueue}
    → (want == 0 || is_empty q) ≡ false
    → pop_chunk want q ≡ some (c, q')
    → consume_loop fuel (want - len_chunk c) q' ≡ some r
    → consume_loop (suc fuel) want q ≡ some (chunk_view c ++ r.0, r.1)
unfolding consume_loop
loop-next fuel want q more popped rest =
    rw (more, consume_loop) (rw (popped, consume_loop) (rw (rest, consume_loop)))

rounds_left :
    {fuel want : ℕ} {q q' : ZeroQueue} {c : Chunk}
    → 0 < want
    → Pops want q c q'
    → (want ≡ 0) ⊎ (length q.chunks < suc fuel)
    → (want - len_chunk c ≡ 0) ⊎ (length q'.chunks < fuel)
rounds_left pos p (inl e) = absurd (omega arith)
rounds_left pos p (inr h) = elim p.progress [
  | inl shorter ↦ inr (omega arith)
  | inr full ↦ inl (omega arith)
]

-- The chunks left and one round more bound the rounds, unless nothing more is wanted.
consume_loop-Reads :
    (fuel want : ℕ) (q : ZeroQueue)
    → IsValid q
    → (want ≡ 0) ⊎ (length q.chunks < fuel)
    → (r : List ℕ × ZeroQueue) × (consume_loop (suc fuel) want q ≡ some r) × Reads want q r
consume_loop-Reads zero want q v (inl e) =
    let stop : (want == 0 || is_empty q) ≡ true = ground arith in
    (([], q), loop-stop zero want q stop, Reads-stop want q v stop)
consume_loop-Reads zero want q v (inr h) = absurd (omega arith)
consume_loop-Reads (suc fuel) want q v h = elim (Bool-cases (want == 0 || is_empty q)) [
  | inl stop ↦ (([], q), loop-stop (suc fuel) want q stop, Reads-stop want q v stop)
  | inr more ↦
      let (pos, some_chunk) = busy want q more in
      let ((c, q'), popped, p) = pop_chunk-Pops want q v pos some_chunk in
      let (r, rest, reads) =
        consume_loop-Reads fuel (want - len_chunk c) q' p.valid (rounds_left pos p h) in
      (
        (chunk_view c ++ r.0, r.1),
        loop-next (suc fuel) want q more popped rest,
        Reads-next r p reads,
      )
]

-- On a valid queue `consumeTo` ends, copies the first `nbytes` bytes of the content (all of it, if
-- there are fewer), and leaves a valid queue that holds the others.
pub consume_to-Reads :
    (nbytes : ℕ) (q : ZeroQueue)
    → IsValid q
    → (r : List ℕ × ZeroQueue) × (consume_to nbytes q ≡ some r) × Reads nbytes q r
unfolding consume_to
consume_to-Reads nbytes q v =
    consume_loop-Reads (suc (length q.chunks)) nbytes q v (inr (omega arith))

-- On a valid queue `popChunkSeq` gives at most `count` bytes off the front of the content and
-- leaves the others; it gives none only if `count` is 0 or the queue is empty.
pub pop_chunk_seq-split :
    (count : ℕ) (q : ZeroQueue)
    → IsValid q
    → (r : List ℕ × ZeroQueue) × (pop_chunk_seq count q ≡ some r)
      × IsValid r.1
      × (r.0 ++ content r.1 ≡ content q)
      × (length r.0 ≤ count)
      × (r.0 ≡ [] → (count ≡ 0) ⊎ (q.chunks ≡ []))
unfolding pop_chunk_seq
pop_chunk_seq-split count q v = elim (Bool-cases (count == 0 || is_empty q)) [
  | inl stop ↦ (([], q), rw (stop, pop_chunk_seq), v, refl, omega arith, λ _. idle q.chunks stop)
  | inr more ↦
      let (pos, some_chunk) = busy count q more in
      let ((c, q'), popped, p) = pop_chunk-Pops count q v pos some_chunk in
      let n : length (chunk_view c) ≡ len_chunk c = length-chunk_view c p.good in
      let fits : length (chunk_view c) ≤ count = omega (arith, p.at_most) in
      let some_bytes : 0 < length (chunk_view c) = omega (arith, p.good) in
      (
        (chunk_view c, q'),
        rw (more, pop_chunk_seq) (rw (popped, pop_chunk_seq)),
        p.valid,
        p.split,
        fits,
        λ e. absurd (omega (arith, ap length e)),
      )
]
  where
    idle :
        (cs : List Chunk)
        → (count == 0 || is_empty (record q { chunks = cs })) ≡ true
        → (count ≡ 0) ⊎ (cs ≡ [])
    idle [] e = inr refl
    idle (c ∷ cs) e = inl (ground arith)
