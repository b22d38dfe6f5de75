-- ===== src/Util/MerkleHashTree.antt =====
-- src/util/merkle_hash_tree.cpp: a hash tree over a list of hashes, and its collapse to the path of
-- one retained hash. The list hash is that of the crypto library, a parameter.
pub mod Collapse
pub mod Groups
use mathlib.Core.Option
use hpcore.Base.{
  ℕ, Option, none, some, zero, suc, ◌+◌, ◌-◌, ◌/◌, Bool, true, false, ◌||◌, List, [], ◌∷◌, Bytes,
  bytes_eq, ltb, ◌==◌, if◌then◌else◌,
}

-- A node is its hash, its children and whether it is retained.
mutual
  pub data Node : Type 0 where
    node : Bytes → Nodes → Bool → Node

  pub data Nodes : Type 0 where
    nil : Nodes
    cons : Node → Nodes → Nodes

abbrev pub hash_of : Node → Bytes
hash_of (node h c r) = h

abbrev pub children_of : Node → Nodes
children_of (node h c r) = c

abbrev pub size : Nodes → ℕ
size nil = 0
size (cons n ns) = suc (size ns)

abbrev pub hashes_of : Nodes → List Bytes
hashes_of nil = []
hashes_of (cons n ns) = hash_of n ∷ hashes_of ns

unfoldable pub first_nodes : ℕ → Nodes → Nodes
first_nodes zero ns = nil
first_nodes (suc k) nil = nil
first_nodes (suc k) (cons n ns) = cons n (first_nodes k ns)

unfoldable pub other_nodes : ℕ → Nodes → Nodes
other_nodes zero ns = ns
other_nodes (suc k) nil = nil
other_nodes (suc k) (cons n ns) = other_nodes k ns

unfoldable pub leafs : List Bytes → Nodes
leafs [] = nil
leafs (h ∷ hs) = cons (node h nil false) (leafs hs)

pub record MerkleHashTree : Type 0 where
  pub block_size : ℕ
  pub root : Node

-- A string of BLAKE3_OUT_LEN zero bytes.
abbrev zeros : ℕ → Bytes
zeros zero = []
zeros (suc n) = 0 ∷ zeros n

abbrev pub empty_hash : Bytes
empty_hash = zeros 32

abbrev pub empty_tree : ℕ → MerkleHashTree
empty_tree block_size = record { block_size = block_size; root = node empty_hash nil false }

clear_node : Node → Node
clear_node (node h c r) = node empty_hash nil r

unfoldable pub clear : MerkleHashTree → MerkleHashTree
unfolding clear_node
clear t = record t { root = clear_node t.root }

unfoldable pub root_hash : MerkleHashTree → Bytes
root_hash t = hash_of t.root

module _ (get_list_hash : List Bytes → Bytes) where
  -- The parent of one block: a single child becomes the parent itself. No block is empty.
  unfoldable pub parent_of : Nodes → Node
  parent_of nil = node [] nil false
  parent_of (cons (node h c r) nil) = node h c false
  parent_of (cons n (cons m ns)) =
      node (get_list_hash (hashes_of (cons n (cons m ns)))) (cons n (cons m ns)) false

  -- The loop over the blocks.
  unfoldable pub parents_of : ℕ → ℕ → Nodes → Nodes
  parents_of block_size zero nodes = nil
  parents_of block_size (suc blocks) nodes =
      cons (parent_of (first_nodes block_size nodes))
        (parents_of block_size blocks (other_nodes block_size nodes))

  -- `none` means that the fuel ran out. With a block size of 1 no fuel is enough for two nodes.
  unfoldable pub create_groups : ℕ → ℕ → Nodes → Node → Option Node
  create_groups zero block_size nodes root = none
  create_groups (suc fuel) block_size nil root = some root
  create_groups (suc fuel) block_size (cons (node h c r) nil) (node h' c' r') = some (node h c r')
  create_groups (suc fuel) block_size (cons n (cons m ns)) root =
      let nodes = cons n (cons m ns) in
      let blocks = (size nodes + block_size - 1) / block_size in
      create_groups fuel block_size (parents_of block_size blocks nodes) root

  unfoldable pub populate : ℕ → List Bytes → MerkleHashTree → Option MerkleHashTree
  populate fuel hashes t =
      Option.map (λ root. record t { root = root })
        (create_groups fuel t.block_size (leafs hashes) t.root)

unfoldable mutual
  pub clone : Node → Node
  clone (node h c r) = node h (clone_all c) false

  pub clone_all : Nodes → Nodes
  clone_all nil = nil
  clone_all (cons n ns) = cons (clone n) (clone_all ns)

unfoldable pub is_empty : Bytes → Bool
is_empty [] = true
is_empty (b ∷ bs) = false

-- An empty hash asks to collapse the node: the retained one has been found already. The node comes
-- back with whether it holds the retained hash.
unfoldable mutual
  unfolding is_empty

  pub retain_node : Node → Bytes → Bool × Node
  retain_node (node h c r) retain_hash =
      let inner = retain_children c retain_hash false in
      if is_empty retain_hash || bytes_eq h retain_hash
      then (true, node h nil (if bytes_eq h retain_hash then true else r))
      else if inner.0
      then (true, node h inner.1 r)
      else (false, node h nil r)

  pub retain_children : Nodes → Bytes → Bool → Bool × Nodes
  retain_children nil retain_hash contains_retain_child = (contains_retain_child, nil)
  retain_children (cons n ns) retain_hash contains_retain_child =
      let child = retain_node n (if contains_retain_child then [] else retain_hash) in
      let rest = retain_children ns retain_hash (contains_retain_child || child.0) in
      (rest.0, cons child.1 rest.1)

unfoldable pub collapse : Bytes → MerkleHashTree → Node
collapse retain_hash t = (retain_node (clone t.root) retain_hash).1
