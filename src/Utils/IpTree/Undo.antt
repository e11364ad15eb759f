-- ===== src/Utils/IpTree/Undo.antt =====
-- libp2p/utils/iptree.nim: `removeIp` undoes `insertIp`.
use nim_libp2p.Common.{
  ℕ, ◌≡◌, refl, ap, ap₂, ◌∙◌, arith, Bool, true, false, List, [], ◌∷◌, if◌then◌else◌,
}
use nim_libp2p.Utils.IpTree.{
  Node, nil, node, insert_bits, is_path, dec_path, is_dead, unlink, prune_path, remove_bits,
}

-- No node below the root is dead: with counter 0 and no children.
abbrev pub IsPruned : Node → Type 0
IsPruned nil = Unit
IsPruned (node c l r) = (is_dead l ≡ false) × (is_dead r ≡ false) × IsPruned l × IsPruned r

pub is_path-insert : (bs : List Bool) (v : Node) → is_path bs (insert_bits bs v) ≡ true
unfolding is_path insert_bits
is_path-insert [] nil = refl
is_path-insert [] (node c l r) = ground arith
is_path-insert (true ∷ bs) nil = ground (arith, is_path-insert bs nil)
is_path-insert (false ∷ bs) nil = ground (arith, is_path-insert bs nil)
is_path-insert (true ∷ bs) (node c l r) = ground (arith, is_path-insert bs r)
is_path-insert (false ∷ bs) (node c l r) = ground (arith, is_path-insert bs l)

abbrev undone : List Bool → Node → Node
undone bs v = prune_path bs (dec_path bs (insert_bits bs v))

-- What was allocated on the way is dead again.
undone-nil : (bs : List Bool) → undone bs nil ≡ node 0 nil nil
unfolding prune_path dec_path insert_bits
undone-nil [] = refl
undone-nil (true ∷ bs) = ap (λ w. node 0 nil (unlink w)) (undone-nil bs)
undone-nil (false ∷ bs) = ap (λ w. node 0 (unlink w) nil) (undone-nil bs)

-- A child that is not dead is as it was.
undone_child :
    (bs : List Bool) (w : Node)
    → ((c : ℕ) (l r : Node) → IsPruned (node c l r) → undone bs (node c l r) ≡ node c l r)
    → is_dead w ≡ false
    → IsPruned w
    → unlink (undone bs w) ≡ w
undone_child bs nil ih live p = ap unlink (undone-nil bs)
undone_child bs (node c l r) ih live p = ap unlink (ih c l r p) ∙ simp live refl

undone-node :
    (bs : List Bool) (c : ℕ) (l r : Node)
    → IsPruned (node c l r)
    → undone bs (node c l r) ≡ node c l r
unfolding prune_path dec_path insert_bits
undone-node [] c l r p = ap (λ k. node k l r) (omega arith)
undone-node (true ∷ bs) c l r (dl, dr, pl, pr) =
    ap₂ (λ k w. node k l w) (omega arith)
      (undone_child bs r (λ c l r p. undone-node bs c l r p) dr pr)
undone-node (false ∷ bs) c l r (dl, dr, pl, pr) =
    ap₂ (λ k w. node k w r) (omega arith)
      (undone_child bs l (λ c l r p. undone-node bs c l r p) dl pl)

-- In a tree without dead nodes, to remove an address right after it was inserted gives back the
-- tree, with no node left over.
pub remove_bits-insert_bits :
    (bs : List Bool) (c : ℕ) (l r : Node)
    → IsPruned (node c l r)
    → remove_bits bs (insert_bits bs (node c l r)) ≡ node c l r
unfolding remove_bits
remove_bits-insert_bits bs c l r p =
    rw (is_path-insert bs (node c l r), remove_bits) (undone-node bs c l r p)

insert_live : (bs : List Bool) (v : Node) → is_dead (insert_bits bs v) ≡ false
unfolding insert_bits
insert_live [] nil = refl
insert_live [] (node c l r) = ground arith
insert_live (true ∷ bs) nil = refl
insert_live (false ∷ bs) nil = refl
insert_live (true ∷ bs) (node c l r) = ground arith
insert_live (false ∷ bs) (node c l r) = ground arith

pub insert_bits-IsPruned : (bs : List Bool) (v : Node) → IsPruned v → IsPruned (insert_bits bs v)
unfolding insert_bits
insert_bits-IsPruned [] nil p = (refl, refl, tt, tt)
insert_bits-IsPruned [] (node c l r) p = p
insert_bits-IsPruned (true ∷ bs) nil p =
    (refl, insert_live bs nil, tt, insert_bits-IsPruned bs nil tt)
insert_bits-IsPruned (false ∷ bs) nil p =
    (insert_live bs nil, refl, insert_bits-IsPruned bs nil tt, tt)
insert_bits-IsPruned (true ∷ bs) (node c l r) (dl, dr, pl, pr) =
    (dl, insert_live bs r, pl, insert_bits-IsPruned bs r pr)
insert_bits-IsPruned (false ∷ bs) (node c l r) (dl, dr, pl, pr) =
    (insert_live bs l, dr, insert_bits-IsPruned bs l pl, pr)

unlink-live : (v : Node) → is_dead (unlink v) ≡ false
unlink-live nil = refl
unlink-live (node c l r) = go (is_dead (node c l r)) refl
  where
    go : (b : Bool) → is_dead (node c l r) ≡ b → is_dead (if b then nil else node c l r) ≡ false
    go true e = refl
    go false e = e

unlink-IsPruned : (v : Node) → IsPruned v → IsPruned (unlink v)
unlink-IsPruned nil p = tt
unlink-IsPruned (node c l r) p = go (is_dead (node c l r))
  where
    go : (b : Bool) → IsPruned (if b then nil else node c l r)
    go true = tt
    go false = p

IsPruned-path : (bs : List Bool) (v : Node) → IsPruned v → IsPruned (prune_path bs (dec_path bs v))
unfolding prune_path dec_path
IsPruned-path [] nil p = tt
IsPruned-path [] (node c l r) p = p
IsPruned-path (b ∷ bs) nil p = tt
IsPruned-path (true ∷ bs) (node c l r) (dl, dr, pl, pr) =
    (dl, unlink-live (prune_path bs (dec_path bs r)), pl, unlink-IsPruned _ (IsPruned-path bs r pr))
IsPruned-path (false ∷ bs) (node c l r) (dl, dr, pl, pr) =
    (unlink-live (prune_path bs (dec_path bs l)), dr, unlink-IsPruned _ (IsPruned-path bs l pl), pr)

pub remove_bits-IsPruned : (bs : List Bool) (v : Node) → IsPruned v → IsPruned (remove_bits bs v)
unfolding remove_bits
remove_bits-IsPruned bs v p = go (is_path bs v)
  where
    go : (b : Bool) → IsPruned (if b then prune_path bs (dec_path bs v) else v)
    go true = IsPruned-path bs v p
    go false = p
