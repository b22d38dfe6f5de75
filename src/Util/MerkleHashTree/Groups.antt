-- ===== src/Util/MerkleHashTree/Groups.antt =====
-- The tree that is built over a list of hashes: it is built, it is a hash tree, and its leaves are
-- the hashes in their order.
use hpcore.Base.{
  ℕ, zero, suc, ◌+◌, ◌-◌, ◌*◌, ◌/◌, ◌<◌, ◌≤◌, ◌≡◌, refl, ap, ◌∙◌, sym, List, [], ◌∷◌, ◌++◌,
  append_assoc, append-nil, none, some, Bytes, arith, length,
}
use hpcore.Util.MerkleHashTree.{
  Node, Nodes, node, nil, cons, size, first_nodes, other_nodes, leafs, parent_of, parents_of,
  create_groups, populate, MerkleHashTree,
}
use hpcore.Util.MerkleHashTree.Collapse.{IsHashed, AllHashed}

abbrev pub leaf_or : Bytes → Nodes → List Bytes → List Bytes
leaf_or h nil ls = h ∷ []
leaf_or h (cons n ns) ls = ls

-- The hashes at the leaves, from left to right.
unfoldable mutual
  pub leaves : Node → List Bytes
  leaves (node h c r) = leaf_or h c (leaves_all c)

  pub leaves_all : Nodes → List Bytes
  leaves_all nil = []
  leaves_all (cons n ns) = leaves n ++ leaves_all ns

leaves_all-leafs : (hs : List Bytes) → leaves_all (leafs hs) ≡ hs
unfolding leaves leafs
leaves_all-leafs [] = refl
leaves_all-leafs (h ∷ hs) = ap (◌∷◌ h) (leaves_all-leafs hs)

size-leafs : (hs : List Bytes) → size (leafs hs) ≡ length hs
unfolding leafs
size-leafs [] = refl
size-leafs (h ∷ hs) = ap suc (size-leafs hs)

leaves_all-split :
    (k : ℕ) (ns : Nodes)
    → leaves_all (first_nodes k ns) ++ leaves_all (other_nodes k ns) ≡ leaves_all ns
unfolding leaves first_nodes other_nodes
leaves_all-split zero ns = refl
leaves_all-split (suc k) nil = refl
leaves_all-split (suc k) (cons n ns) =
    append_assoc (leaves n) (leaves_all (first_nodes k ns)) (leaves_all (other_nodes k ns))
    ∙ ap (◌++◌ (leaves n)) (leaves_all-split k ns)

size-other_nodes : (k : ℕ) (ns : Nodes) → size (other_nodes k ns) ≡ size ns - k
unfolding other_nodes
size-other_nodes zero ns = omega arith
size-other_nodes (suc k) nil = omega arith
size-other_nodes (suc k) (cons n ns) = omega (arith, size-other_nodes k ns)

size-first_nodes : (k : ℕ) (ns : Nodes) → 0 < k → 0 < size ns → 0 < size (first_nodes k ns)
unfolding first_nodes
size-first_nodes zero ns h s = absurd (omega arith)
size-first_nodes (suc k) nil h s = absurd (omega arith)
size-first_nodes (suc k) (cons n ns) h s = omega arith

-- The number of blocks: enough for all nodes, none of them empty, and fewer than the nodes.
blocks_enough : (n b : ℕ) → 0 < b → n ≤ (n + b - 1) / b * b
blocks_enough n b h = grind arith

blocks_filled : (n b : ℕ) → 0 < b → 0 < n → (n + b - 1) / b * b < n + b
blocks_filled n b h p = grind arith

blocks_fewer : (n b : ℕ) → 2 ≤ b → 2 ≤ n → (n + b - 1) / b < n
blocks_fewer n b h p = grind arith

first_nodes-AllHashed :
    (H : List Bytes → Bytes) (k : ℕ) (ns : Nodes) → AllHashed H ns → AllHashed H (first_nodes k ns)
unfolding first_nodes
first_nodes-AllHashed H zero ns v = tt
first_nodes-AllHashed H (suc k) nil v = tt
first_nodes-AllHashed H (suc k) (cons n ns) v = (v.0, first_nodes-AllHashed H k ns v.1)

other_nodes-AllHashed :
    (H : List Bytes → Bytes) (k : ℕ) (ns : Nodes) → AllHashed H ns → AllHashed H (other_nodes k ns)
unfolding other_nodes
other_nodes-AllHashed H zero ns v = v
other_nodes-AllHashed H (suc k) nil v = tt
other_nodes-AllHashed H (suc k) (cons n ns) v = other_nodes-AllHashed H k ns v.1

leafs-AllHashed : (H : List Bytes → Bytes) (hs : List Bytes) → AllHashed H (leafs hs)
unfolding leafs
leafs-AllHashed H [] = tt
leafs-AllHashed H (h ∷ hs) = ((tt, tt), leafs-AllHashed H hs)

module _ (H : List Bytes → Bytes) where
  leaves-parent_of : (ns : Nodes) → 0 < size ns → leaves (parent_of H ns) ≡ leaves_all ns
  unfolding leaves parent_of
  leaves-parent_of nil h = absurd (omega arith)
  leaves-parent_of (cons (node h c r) nil) p = sym (append-nil (leaf_or h c (leaves_all c)))
  leaves-parent_of (cons n (cons m ns)) p = refl

  parent_of-IsHashed : (ns : Nodes) → AllHashed H ns → IsHashed H (parent_of H ns)
  unfolding parent_of
  parent_of-IsHashed nil v = (tt, tt)
  parent_of-IsHashed (cons (node h c r) nil) v = v.0
  parent_of-IsHashed (cons n (cons m ns)) v = (refl, v)

  size-parents_of : (b blocks : ℕ) (ns : Nodes) → size (parents_of H b blocks ns) ≡ blocks
  unfolding parents_of
  size-parents_of b zero ns = refl
  size-parents_of b (suc blocks) ns = ap suc (size-parents_of b blocks (other_nodes b ns))

  parents_of-AllHashed :
      (b blocks : ℕ) (ns : Nodes) → AllHashed H ns → AllHashed H (parents_of H b blocks ns)
  unfolding parents_of
  parents_of-AllHashed b zero ns v = tt
  parents_of-AllHashed b (suc blocks) ns v = (
    parent_of-IsHashed (first_nodes b ns) (first_nodes-AllHashed H b ns v),
    parents_of-AllHashed b blocks (other_nodes b ns) (other_nodes-AllHashed H b ns v),
  )

  none_left : (ns : Nodes) → size ns ≤ 0 → leaves_all ns ≡ []
  unfolding leaves
  none_left nil h = refl
  none_left (cons n ns) h = absurd (omega arith)

  leaves_all-parents_of :
      (b blocks : ℕ) (ns : Nodes)
      → 0 < b
      → size ns ≤ blocks * b
      → blocks * b < size ns + b
      → leaves_all (parents_of H b blocks ns) ≡ leaves_all ns
  unfolding parents_of leaves
  leaves_all-parents_of b zero ns h enough filled = sym (none_left ns (omega arith))
  leaves_all-parents_of b (suc blocks) ns h enough filled =
      let some_left : 0 < size ns = grind arith in
      rw
        (
          leaves-parent_of (first_nodes b ns) (size-first_nodes b ns h some_left),
          leaves_all-parents_of b blocks (other_nodes b ns) h (grind (arith, size-other_nodes b ns))
              (grind (arith, size-other_nodes b ns)),
        )
        (leaves_all-split b ns)

  -- With blocks of two nodes or more, as many calls as there are nodes are enough.
  create_groups_lem :
      (fuel b : ℕ) (ns : Nodes) (root : Node)
      → 2 ≤ b
      → 0 < size ns
      → size ns ≤ fuel
      → AllHashed H ns
      → (r : Node) × (create_groups H fuel b ns root ≡ some r)
        × (leaves r ≡ leaves_all ns)
        × IsHashed H r
  unfolding create_groups
  create_groups_lem zero b ns root two p le v = absurd (omega arith)
  create_groups_lem (suc fuel) b nil root two p le v = absurd (omega arith)
  create_groups_lem (suc fuel) b (cons (node h c r) nil) (node h' c' r') two p le v =
      (node h c r', refl, unfold leaves in sym (append-nil (leaf_or h c (leaves_all c))), v.0)
  create_groups_lem (suc fuel) b (cons n (cons m ns)) root two p le v =
      let nodes = cons n (cons m ns) in
      let count = suc (suc (size ns)) in
      let blocks = (count + b - 1) / b in
      let enough : count ≤ blocks * b = blocks_enough count b (omega arith) in
      let fewer : blocks < count = blocks_fewer count b two (omega arith) in
      let some_block : 0 < blocks = grind arith in
      let (r, built, same, hashed) =
        create_groups_lem fuel b (parents_of H b blocks nodes) root two
          (rw (size-parents_of b blocks nodes) some_block)
          (rw (size-parents_of b blocks nodes) (omega arith))
          (parents_of-AllHashed b blocks nodes v) in
      (
        r,
        built,
        same
            ∙ leaves_all-parents_of b blocks nodes (omega arith) enough
                (blocks_filled count b (omega arith) (omega arith)),
        hashed,
      )

  -- A tree over a list of hashes that is not empty, with blocks of two or more, is built within as
  -- many rounds as there are hashes: its leaves are the hashes in their order, each inner node
  -- carries the list hash of its children's hashes, and the block size is kept.
  pub populate_lem :
      (hashes : List Bytes) (t : MerkleHashTree)
      → 0 < length hashes
      → 2 ≤ t.block_size
      → (t' : MerkleHashTree) × (populate H (length hashes) hashes t ≡ some t')
        × (leaves t'.root ≡ hashes)
        × IsHashed H t'.root
        × (t'.block_size ≡ t.block_size)
  unfolding populate
  populate_lem hashes t p two =
      let (r, built, same, hashed) =
        create_groups_lem (length hashes) t.block_size (leafs hashes) t.root two
          (rw (size-leafs hashes) p) (omega (arith, size-leafs hashes))
          (leafs-AllHashed H hashes) in
      (record t { root = r }, rw built, same ∙ leaves_all-leafs hashes, hashed, refl)

  -- With blocks of one node the grouping of two nodes or more never comes to an end.
  pub create_groups_diverges :
      (fuel : ℕ) (ns : Nodes) (root : Node) → 2 ≤ size ns → create_groups H fuel 1 ns root ≡ none
  unfolding create_groups
  create_groups_diverges zero ns root h = refl
  create_groups_diverges (suc fuel) nil root h = absurd (omega arith)
  create_groups_diverges (suc fuel) (cons n nil) root h = absurd (omega arith)
  create_groups_diverges (suc fuel) (cons n (cons m ns)) root h =
      let blocks = (size (cons n (cons m ns)) + 1 - 1) / 1 in
      create_groups_diverges fuel (parents_of H 1 blocks (cons n (cons m ns))) root
        (rw (size-parents_of 1 blocks (cons n (cons m ns))) (omega arith))
