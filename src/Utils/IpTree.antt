-- ===== src/Utils/IpTree.antt =====
-- libp2p/utils/iptree.nim: counters of addresses by the bits of their prefixes.
pub mod Counts
pub mod Undo
use nim_libp2p.Common.{
  ℕ, zero, suc, ◌+◌, ◌*◌, ◌-◌, ◌/◌, ◌%◌, ◌^◌, Bool, true, false, List, [], ◌∷◌, ◌++◌, length, ltb,
  ◌==◌, ◌&&◌, not, if◌then◌else◌,
}

-- A reference to an `IpTreeNode`. No node is shared, so a subtree is a value.
pub data Node : Type 0 where
  nil : Node
  node : ℕ → Node → Node → Node

pub record Tree : Type 0 where
  pub root : Node
  pub root6 : Node

-- The bytes of the address.
pub data IpAddress : Type 0 where
  ipv4 ipv6 : List ℕ → IpAddress

abbrev pub new : Tree
new = record { root = node 0 nil nil; root6 = node 0 nil nil }

abbrev pub ip_bytes : IpAddress → List ℕ
ip_bytes (ipv4 bytes) = bytes
ip_bytes (ipv6 bytes) = bytes

abbrev pub tree_root : Tree → IpAddress → Node
tree_root t (ipv4 bytes) = t.root
tree_root t (ipv6 bytes) = t.root6

abbrev pub put_root : IpAddress → Node → Tree → Tree
put_root (ipv4 bytes) v t = record t { root = v }
put_root (ipv6 bytes) v t = record t { root6 = v }

-- The directions of the walk: bits 7 down to 0 of each byte, `true` for right.
abbrev pub bits_of : List ℕ → List Bool
bits_of [] = []
bits_of (b ∷ bs) =
    (b / 128 % 2 == 1)
    ∷ (b / 64 % 2 == 1)
    ∷ (b / 32 % 2 == 1)
    ∷ (b / 16 % 2 == 1)
    ∷ (b / 8 % 2 == 1)
    ∷ (b / 4 % 2 == 1)
    ∷ (b / 2 % 2 == 1)
    ∷ (b % 2 == 1)
    ∷ bits_of bs

abbrev pub counter : Node → ℕ
counter nil = 0
counter (node c l r) = c

-- `step` without `create`: the child, which may be `nil`.
abbrev pub step : Bool → Node → Node
step b nil = nil
step true (node c l r) = r
step false (node c l r) = l

abbrev pub set_child : Bool → Node → Node → Node
set_child b w nil = nil
set_child true w (node c l r) = node c l w
set_child false w (node c l r) = node c w r

-- `step` with `create` allocates a missing node, and the counter is incremented.
abbrev pub visit : Node → Node
visit nil = node 1 nil nil
visit (node c l r) = node (suc c) l r

-- The loop of `insertIp`, from the root on.
unfoldable pub insert_bits : List Bool → Node → Node
insert_bits [] v = visit v
insert_bits (b ∷ bs) v = set_child b (insert_bits bs (step b v)) (visit v)

unfoldable pub insert_ip : IpAddress → Tree → Tree
insert_ip ip t = put_root ip (insert_bits (bits_of (ip_bytes ip)) (tree_root t ip)) t

unfoldable pub insert_ips : List IpAddress → Tree → Tree
unfolding insert_ip
insert_ips [] t = t
insert_ips (ip ∷ ips) t = insert_ips ips (insert_ip ip t)

-- Whether the walk of `removeIp` reaches the leaf, with no counter 0 on the way.
unfoldable pub is_path : List Bool → Node → Bool
is_path [] v = ltb 0 (counter v)
is_path (b ∷ bs) v = ltb 0 (counter v) && is_path bs (step b v)

abbrev pub dec : Node → Node
dec nil = nil
dec (node c l r) = node (c - 1) l r

unfoldable pub dec_path : List Bool → Node → Node
dec_path [] v = dec v
dec_path (b ∷ bs) v = set_child b (dec_path bs (step b v)) (dec v)

abbrev pub is_nil : Node → Bool
is_nil nil = true
is_nil (node c l r) = false

abbrev pub is_dead : Node → Bool
is_dead nil = false
is_dead (node c l r) = c == 0 && is_nil l && is_nil r

abbrev pub unlink : Node → Node
unlink v = if is_dead v then nil else v

-- The pruning walks from the leaf up, and stops at the first node that stays. That node is a child of
-- the next, so none above is dead, and it makes no difference to go on.
unfoldable pub prune_path : List Bool → Node → Node
prune_path [] v = v
prune_path (b ∷ bs) v = set_child b (unlink (prune_path bs (step b v))) v

unfoldable pub remove_bits : List Bool → Node → Node
unfolding is_path dec_path prune_path
remove_bits bs v = if is_path bs v then prune_path bs (dec_path bs v) else v

unfoldable pub remove_ip : IpAddress → Tree → Tree
remove_ip ip t = put_root ip (remove_bits (bits_of (ip_bytes ip)) (tree_root t ip)) t

unfoldable pub remove_ips : List IpAddress → Tree → Tree
unfolding remove_ip
remove_ips [] t = t
remove_ips (ip ∷ ips) t = remove_ips ips (remove_ip ip t)

abbrev pub ips_len : Tree → ℕ
ips_len t = counter t.root + counter t.root6

-- The loop of `ipScore`: `depth` halvings of `total` are the threshold of the next node, so its
-- counter exceeds it when the counter times `2 ^ depth` exceeds `total`. These products are exact
-- in `float64` too.
unfoldable pub score_bits : ℕ → ℕ → List Bool → Node → ℕ
score_bits total depth [] v = 0
score_bits total depth (b ∷ bs) v =
    let rest : ℕ = score_bits total (suc depth) bs (step b v) in
    let above : ℕ = if ltb total (counter (step b v) * 2 ^ depth) then 1 else 0 in
    if is_nil (step b v) then 0 else above + rest

-- The score as a fraction, the nodes that exceed their threshold out of the bits.
unfoldable pub ip_score : Tree → IpAddress → ℕ × ℕ
unfolding score_bits
ip_score t ip =
    let v : Node = tree_root t ip in
    let bits : List Bool = bits_of (ip_bytes ip) in
    if counter v == 0 then (0, length bits) else (score_bits (counter v) 1 bits v, length bits)
