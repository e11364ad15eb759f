-- ===== src/Utils/Tests.antt =====
-- libp2p/utils: the theorems at concrete inputs.
use nim_libp2p.Common.{
  suc, ◌+◌, ◌-◌, true, false, if◌then◌else◌, ℕ, ◌≡◌, refl, arith, some, List, [], ◌∷◌, ◌++◌,
}
use nim_libp2p.Utils.ZeroQueue.{ZeroQueue, push, consume_to}
use nim_libp2p.Utils.ZeroQueue.Content.{content, IsValid, push-content}
use nim_libp2p.Utils.ZeroQueue.Consume.{Reads, consume_to-Reads}
use nim_libp2p.Utils.IpTree.{Node, nil, node, counter, insert_bits, remove_bits}
use nim_libp2p.Utils.IpTree.Undo.{remove_bits-insert_bits}
use nim_libp2p.Utils.IpTree.Counts.{IsCounted, times, same, counts_lem}

abbrev two_chunks : ZeroQueue
two_chunks = record {
  chunks =
      record { bytes = 1 ∷ 2 ∷ 3 ∷ []; size = 3; start = 1 }
      ∷ record { bytes = 4 ∷ 5 ∷ []; size = 2; start = 0 }
      ∷ [];
  queued_bytes = 4;
}

two_chunks-IsValid : IsValid two_chunks
two_chunks-IsValid = record { good = omega arith; counted = refl }

push-content_example :
    IsValid (push (6 ∷ []) two_chunks)
    × (content (push (6 ∷ []) two_chunks) ≡ content two_chunks ++ 6 ∷ [])
push-content_example = push-content (6 ∷ []) two_chunks two_chunks-IsValid

consume_to-Reads_example :
    (r : List ℕ × ZeroQueue) × (consume_to 3 two_chunks ≡ some r) × Reads 3 two_chunks r
consume_to-Reads_example = consume_to-Reads 3 two_chunks two_chunks-IsValid

-- One address of one bit was inserted.
abbrev small_tree : Node
small_tree = node 1 nil (node 1 nil nil)

remove_bits-insert_bits_example :
    remove_bits (false ∷ []) (insert_bits (false ∷ []) small_tree) ≡ small_tree
remove_bits-insert_bits_example =
    remove_bits-insert_bits (false ∷ []) 1 nil (node 1 nil nil)
      (refl, refl, tt, (refl, refl, tt, tt))

counts_lem_example :
    (times (true ∷ []) (insert_bits (true ∷ []) small_tree)
      ≡ times (true ∷ []) small_tree + (if same (true ∷ []) (true ∷ []) then 1 else 0))
    × (times (true ∷ []) (remove_bits (true ∷ []) small_tree)
        ≡ times (true ∷ []) small_tree - (if same (true ∷ []) (true ∷ []) then 1 else 0))
    × IsCounted 1 (insert_bits (true ∷ []) small_tree)
    × IsCounted 1 (remove_bits (true ∷ []) small_tree)
    × (counter (insert_bits (true ∷ []) small_tree) ≡ suc (counter small_tree))
counts_lem_example = counts_lem (true ∷ []) (true ∷ []) small_tree refl (refl, tt, tt)
