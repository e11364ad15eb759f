-- ===== src/Utils/ZeroQueue.antt =====
-- libp2p/utils/zeroqueue.nim: a queue of byte chunks that is read without copying.
pub mod Content
pub mod Consume
use nim_libp2p.Common.{
  ℕ, zero, suc, ◌+◌, ◌-◌, Bool, true, false, Option, none, some, List, [], ◌∷◌, ◌++◌, length, take,
  drop, ltb, leb, ◌==◌, ◌||◌, if◌then◌else◌,
}

-- A `ref object` in the source. A chunk that left the queue is a `clone`, or is held by nobody
-- else, so no write to a chunk is seen through another reference.
pub record Chunk : Type 0 where
  pub bytes : List ℕ
  pub size : ℕ
  pub start : ℕ

pub record ZeroQueue : Type 0 where
  pub chunks : List Chunk
  pub queued_bytes : ℕ

pub new_chunk : List ℕ → Chunk
new_chunk b = record { bytes = b; size = length b; start = 0 }

abbrev pub len_chunk : Chunk → ℕ
len_chunk c = c.size - c.start

-- The bytes that `copyMem` takes from a chunk: `len` of them, from `start` on.
abbrev pub chunk_view : Chunk → List ℕ
chunk_view c = take (len_chunk c) (drop c.start c.bytes)

unfoldable pub clear : ZeroQueue → ZeroQueue
clear q = record { chunks = []; queued_bytes = 0 }

abbrev pub is_empty : ZeroQueue → Bool
is_empty q = elim (q.chunks) [ [] ↦ true | c ∷ cs ↦ false ]

abbrev pub len : ZeroQueue → ℕ
len q = q.queued_bytes

unfoldable pub push : List ℕ → ZeroQueue → ZeroQueue
unfolding new_chunk
push b q =
    if ltb 0 (length b)
    then record { chunks = q.chunks ++ new_chunk b ∷ []; queued_bytes = q.queued_bytes + length b }
    else q

-- The part of `popChunk` behind `popFirst`: `first` is off the queue, and `rest` is what is left.
pub split_chunk : ℕ → Chunk → List Chunk → ℕ → Chunk × ZeroQueue
split_chunk count first rest queued =
    if leb (len_chunk first) count
    then (first, record { chunks = rest; queued_bytes = queued - len_chunk first })
    else (
      record first { size = first.start + count },
      record {
        chunks = record first { start = first.start + count } ∷ rest;
        queued_bytes = queued - count;
      },
    )

-- `none` is a defect: the assertion fails, or `popFirst` finds the queue empty.
pub pop_chunk : ℕ → ZeroQueue → Option (Chunk × ZeroQueue)
unfolding split_chunk
pop_chunk count q =
    if ltb 0 count
    then elim (q.chunks) [
      | [] ↦ none
      | first ∷ rest ↦ some (split_chunk count first rest q.queued_bytes)
    ]
    else none

-- The loop of `consumeTo`: `want` is `nbytes - consumed`, and the result is what is copied to the
-- buffer from there on. `none` is a defect, or the fuel ran out.
pub consume_loop : ℕ → ℕ → ZeroQueue → Option (List ℕ × ZeroQueue)
consume_loop zero want q = none
consume_loop (suc fuel) want q = elim (want == 0 || is_empty q) [
  | true ↦ some ([], q)
  | false ↦ elim (pop_chunk want q) [
    | none ↦ none
    | some (chunk, q') ↦ elim (consume_loop fuel (want - len_chunk chunk) q') [
      | none ↦ none
      | some (out, q'') ↦ some (chunk_view chunk ++ out, q'')
    ]
  ]
]

-- Each round but the last takes a whole chunk off the queue, or as many bytes as are wanted.
pub consume_to : ℕ → ZeroQueue → Option (List ℕ × ZeroQueue)
consume_to nbytes q = consume_loop (suc (suc (length q.chunks))) nbytes q

pub pop_chunk_seq : ℕ → ZeroQueue → Option (List ℕ × ZeroQueue)
unfolding pop_chunk
pop_chunk_seq count q = elim (count == 0 || is_empty q) [
  | true ↦ some ([], q)
  | false ↦ elim (pop_chunk count q) [
    | none ↦ none
    | some (chunk, q') ↦ some (chunk_view chunk, q')
  ]
]
