-- ===== src/Util/MerkleHashTree/Collapse.antt =====
-- The collapsed tree is a proof that the retained hash is in the tree.
use hpcore.Base.{
  ◌≡◌, refl, ap, ◌∙◌, sym, Bool, true, false, ◌||◌, List, [], Bytes, bytes_eq, arith, if◌then◌else◌,
  Bool-cases, inl, inr,
}
use hpcore.Util.MerkleHashTree.{
  Node, Nodes, node, nil, cons, hash_of, hashes_of, clone, clone_all, is_empty, retain_node,
  retain_children, collapse, MerkleHashTree, root_hash,
}

-- Whether a hash stands at some node of the tree.
unfoldable mutual
  pub occurs : Bytes → Node → Bool
  occurs q (node h c r) = bytes_eq h q || occurs_in q c

  pub occurs_in : Bytes → Nodes → Bool
  occurs_in q nil = false
  occurs_in q (cons n ns) = occurs q n || occurs_in q ns

-- The hash of every inner node is the list hash of its children's hashes.
abbrev pub IsParent : (List Bytes → Bytes) → Bytes → Nodes → Type 0
IsParent get_list_hash h nil = Unit
IsParent get_list_hash h (cons n ns) = h ≡ get_list_hash (hashes_of (cons n ns))

abbrev mutual
  pub IsHashed : (List Bytes → Bytes) → Node → Type 0
  IsHashed get_list_hash (node h c r) = IsParent get_list_hash h c × AllHashed get_list_hash c

  pub AllHashed : (List Bytes → Bytes) → Nodes → Type 0
  AllHashed get_list_hash nil = Unit
  AllHashed get_list_hash (cons n ns) = IsHashed get_list_hash n × AllHashed get_list_hash ns

hash-retain_node : (n : Node) (q : Bytes) → hash_of (retain_node n q).1 ≡ hash_of n
unfolding retain_node
hash-retain_node (node h c r) q = ground arith

hashes-retain_children :
    (c : Nodes) (q : Bytes) (found : Bool) → hashes_of (retain_children c q found).1 ≡ hashes_of c
unfolding retain_children
hashes-retain_children nil q found = refl
hashes-retain_children (cons n ns) q found = rw (hash-retain_node, hashes-retain_children ns)

hash-clone : (n : Node) → hash_of (clone n) ≡ hash_of n
unfolding clone
hash-clone (node h c r) = refl

hashes-clone_all : (c : Nodes) → hashes_of (clone_all c) ≡ hashes_of c
unfolding clone_all
hashes-clone_all nil = refl
hashes-clone_all (cons n ns) = rw (hash-clone n, hashes-clone_all ns)

module _ (get_list_hash : List Bytes → Bytes) where
  retain_children-IsParent :
      (h : Bytes) (c : Nodes) (q : Bytes) (found : Bool)
      → IsParent get_list_hash h c
      → IsParent get_list_hash h (retain_children c q found).1
  unfolding retain_children
  retain_children-IsParent h nil q found p = tt
  retain_children-IsParent h (cons n ns) q found p =
      p ∙ ap get_list_hash (sym (hashes-retain_children (cons n ns) q found))

  clone_all-IsParent :
      (h : Bytes) (c : Nodes) → IsParent get_list_hash h c → IsParent get_list_hash h (clone_all c)
  unfolding clone_all
  clone_all-IsParent h nil p = tt
  clone_all-IsParent h (cons n ns) p = p ∙ ap get_list_hash (sym (hashes-clone_all (cons n ns)))

  mutual
    unfolding retain_node retain_children

    retain_node-IsHashed :
        (n : Node) (q : Bytes)
        → IsHashed get_list_hash n
        → IsHashed get_list_hash (retain_node n q).1
    retain_node-IsHashed (node h c r) q v = elim (Bool-cases (is_empty q || bytes_eq h q)) [
      | inl stop ↦ rw stop (tt, tt)
      | inr go ↦ elim (Bool-cases (retain_children c q false).0) [
        | inl found ↦
            rw (go, found)
              (retain_children-IsParent h c q false v.0, retain_children-AllHashed c q false v.1)
        | inr lost ↦ rw (go, lost) (tt, tt)
      ]
    ]

    retain_children-AllHashed :
        (c : Nodes) (q : Bytes) (found : Bool)
        → AllHashed get_list_hash c
        → AllHashed get_list_hash (retain_children c q found).1
    retain_children-AllHashed nil q found v = tt
    retain_children-AllHashed (cons n ns) q found v = (
      retain_node-IsHashed n (if found then [] else q) v.0,
      retain_children-AllHashed ns q (found || (retain_node n (if found then [] else q)).0) v.1,
    )

  mutual
    unfolding clone clone_all

    clone-IsHashed : (n : Node) → IsHashed get_list_hash n → IsHashed get_list_hash (clone n)
    clone-IsHashed (node h c r) v = (clone_all-IsParent h c v.0, clone_all-AllHashed c v.1)

    clone_all-AllHashed :
        (c : Nodes) → AllHashed get_list_hash c → AllHashed get_list_hash (clone_all c)
    clone_all-AllHashed nil v = tt
    clone_all-AllHashed (cons n ns) v = (clone-IsHashed n v.0, clone_all-AllHashed ns v.1)

retain_node-empty : (n : Node) → (retain_node n []).0 ≡ true
unfolding retain_node
retain_node-empty (node h c r) = refl

retain_children-found : (c : Nodes) (q : Bytes) → (retain_children c q true).0 ≡ true
unfolding retain_children
retain_children-found nil q = refl
retain_children-found (cons n ns) q = retain_children-found ns q

mutual
  unfolding retain_node retain_children occurs occurs_in

  retain_node-occurs :
      (n : Node) (q : Bytes)
      → is_empty q ≡ false
      → ((retain_node n q).0 ≡ occurs q n) × (occurs q (retain_node n q).1 ≡ occurs q n)
  retain_node-occurs (node h c r) q full = ground (arith, retain_children-occurs c q full)

  retain_children-occurs :
      (c : Nodes) (q : Bytes)
      → is_empty q ≡ false
      → ((retain_children c q false).0 ≡ occurs_in q c)
        × ((occurs_in q c ≡ true) → occurs_in q (retain_children c q false).1 ≡ true)
  retain_children-occurs nil q full = (refl, λ h. h)
  retain_children-occurs (cons n ns) q full =
      let (answer, kept) = retain_node-occurs n q full in
      let (answers, keeps) = retain_children-occurs ns q full in
      elim (Bool-cases (occurs q n)) [
        | inl here ↦ rw (answer, here, retain_children-found ns q) (refl, λ h. rw (kept, here))
        | inr other ↦ rw (answer, other, answers) (refl, λ h. rw (kept, other) (keeps h))
      ]

mutual
  unfolding clone clone_all occurs occurs_in

  occurs-clone : (q : Bytes) (n : Node) → occurs q (clone n) ≡ occurs q n
  occurs-clone q (node h c r) = rw (occurs_in-clone_all q c)

  occurs_in-clone_all : (q : Bytes) (c : Nodes) → occurs_in q (clone_all c) ≡ occurs_in q c
  occurs_in-clone_all q nil = refl
  occurs_in-clone_all q (cons n ns) = rw (occurs-clone q n, occurs_in-clone_all q ns)

module _ (get_list_hash : List Bytes → Bytes) where
  -- The collapse of a tree to a retained hash keeps the root hash, and stays a hash tree wherever
  -- the tree was one; the retained hash occurs in it exactly when it occurs in the tree. So what a
  -- user is sent with an output is a proof that the output is under the signed root hash.
  pub collapse-proves :
      (q : Bytes) (t : MerkleHashTree)
      → is_empty q ≡ false
      → IsHashed get_list_hash t.root
      → (hash_of (collapse q t) ≡ root_hash t)
        × IsHashed get_list_hash (collapse q t)
        × (occurs q (collapse q t) ≡ occurs q t.root)
  unfolding collapse root_hash
  collapse-proves q t full v = (
    hash-retain_node (clone t.root) q ∙ hash-clone t.root,
    retain_node-IsHashed get_list_hash (clone t.root) q (clone-IsHashed get_list_hash t.root v),
    (retain_node-occurs (clone t.root) q full).1 ∙ occurs-clone q t.root,
  )
