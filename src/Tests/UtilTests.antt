-- ===== src/Tests/UtilTests.antt =====
-- Runs of the containers of src/util, and their theorems at concrete inputs.
use hpcore.Base.{
  ◌≡◌, refl, true, false, List, [], ◌∷◌, some, Bytes, bytes_eq, arith, elem, discard, find, put,
}
use hpcore.Util.SequenceHash.Keys.{seq_ordered}
use hpcore.Util.TtlSet
use hpcore.Util.RolloverHashset
use hpcore.Util.RolloverHashset.Window.{run, answers, run-init}
use hpcore.Util.SequenceHash.{H32, SequenceHash}
use hpcore.Util.SequenceHash.Keys.{seq_ordered}
use hpcore.Util.MerkleHashTree.{
  node, nil, cons, MerkleHashTree, hash_of, root_hash, collapse, is_empty, empty_tree, populate,
  create_groups, leafs, parents_of, parent_of, first_nodes, other_nodes,
}
use hpcore.Util.MerkleHashTree.Collapse.{occurs, IsHashed, collapse-proves}
use hpcore.Util.MerkleHashTree.Groups.{leaves, populate_lem}

abbrev key : Bytes
key = 97 ∷ []

abbrev other_key : Bytes
other_key = 98 ∷ []

ttl_run : (TtlSet.exists key 1500 (TtlSet.emplace key 500 1000 TtlSet.empty)).0 ≡ true
unfolding TtlSet.exists TtlSet.emplace find put bytes_eq
ttl_run = refl

ttl_expired : (TtlSet.exists key 1501 (TtlSet.emplace key 500 1000 TtlSet.empty)).0 ≡ false
unfolding TtlSet.exists TtlSet.emplace find put bytes_eq
ttl_expired = refl

rollover_run :
    (run (key ∷ key ∷ other_key ∷ (1 ∷ []) ∷ key ∷ []) (RolloverHashset.init 2)).0
    ≡ true ∷ false ∷ true ∷ true ∷ true ∷ []
unfolding run RolloverHashset.init RolloverHashset.try_emplace elem discard bytes_eq
rollover_run = refl

run-init_example :
    (run (key ∷ key ∷ other_key ∷ []) (RolloverHashset.init 2)).0
    ≡ answers 2 (key ∷ key ∷ other_key ∷ []) []
run-init_example = run-init 2 (key ∷ key ∷ other_key ∷ []) (omega arith)

abbrev one_hash : H32
one_hash = record { word0 = 1; word1 = 2; word2 = 3; word3 = 4 }

abbrev shard : SequenceHash
shard = record { seq_no = 7; hash = one_hash }

-- A stand-in for the list hash: the bytes one after the other, behind a mark.
abbrev join : List Bytes → Bytes
join [] = 255 ∷ []
join (h ∷ hs) = mathlib.Core.List.◌++◌ h (join hs)

abbrev three : List Bytes
three = key ∷ other_key ∷ (99 ∷ []) ∷ []

abbrev built : MerkleHashTree
built = record {
  block_size = 2;
  root =
      node (97 ∷ 98 ∷ 255 ∷ 99 ∷ 255 ∷ [])
        (cons
          (node (97 ∷ 98 ∷ 255 ∷ [])
            (cons (node key nil false) (cons (node other_key nil false) nil)) false)
          (cons (node (99 ∷ []) nil false) nil))
        false;
}

populate_run : populate join 3 three (empty_tree 2) ≡ some built
unfolding populate create_groups leafs parents_of parent_of first_nodes other_nodes
populate_run = refl

populate_lem_example :
    (t : MerkleHashTree) × (populate join 3 three (empty_tree 2) ≡ some t)
    × (leaves t.root ≡ three)
    × IsHashed join t.root
    × (t.block_size ≡ 2)
populate_lem_example = populate_lem join three (empty_tree 2) (omega arith) (omega arith)

collapse-proves_example :
    (hash_of (collapse other_key built) ≡ root_hash built)
    × IsHashed join (collapse other_key built)
    × (occurs other_key (collapse other_key built) ≡ occurs other_key built.root)
unfolding is_empty
collapse-proves_example =
    collapse-proves join other_key built refl
      (refl, ((refl, ((tt, tt), ((tt, tt), tt))), ((tt, tt), tt)))
