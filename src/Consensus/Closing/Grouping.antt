-- ===== src/Consensus/Closing/Grouping.antt =====
-- The groups of proposals by root hash, and their sizes.
use hpcore.Base.{
  ◌≡◌, refl, ◌∙◌, sym, inl, inr, Bool, ◌++◌, List, [], ◌∷◌, Option, none, some, append_assoc,
  append-nil, find, find-put, find-cong, map_find, find-map_emplace, Above, Ascending,
  map_emplace-Ascending, map_put-Ascending, ordered_keyed, equivalent, select, length,
  if◌then◌else◌, arith, Option-cases, bytes_keyed,
}
use hpcore.Util.SequenceHash.{H32}
use hpcore.Util.SequenceHash.Keys.{h32_ordered}
use hpcore.Consensus.Types.{Proposal}
use hpcore.Consensus.Votes.Tally.{votes}
use hpcore.Consensus.Closing.{Groups, push, group_all, sizes}

abbrev pub or_nil : Option (List Proposal) → List Proposal
or_nil none = []
or_nil (some ps) = ps

abbrev pub members : H32 → Groups → List Proposal
members q groups = or_nil (map_find h32_ordered q groups)

push-Ascending :
    (p : Proposal) (groups : Groups)
    → Ascending h32_ordered groups
    → Ascending h32_ordered (push p groups)
unfolding push
push-Ascending p groups s = elim (Option-cases (map_find h32_ordered p.root_hash groups)) [
  | inl absent ↦ rw absent (map_emplace-Ascending h32_ordered p.root_hash (p ∷ []) groups s)
  | inr (ps, present) ↦
      rw present (map_put-Ascending h32_ordered p.root_hash (ps ++ p ∷ []) ps groups present s)
]

members-push :
    (q : H32) (p : Proposal) (groups : Groups)
    → Ascending h32_ordered groups
    → members q (push p groups) ≡ (
        if equivalent h32_ordered p.root_hash q
        then members q groups ++ p ∷ []
        else members q groups)
unfolding push
members-push q p groups s = elim (Option-cases (map_find h32_ordered p.root_hash groups)) [
  | inl absent ↦
      rw (absent, find-map_emplace h32_ordered p.root_hash q (p ∷ []) groups s absent)
        (ground (arith, find-cong ⦃k = ordered_keyed h32_ordered⦄ p.root_hash q groups))
  | inr (ps, present) ↦
      rw (present, find-put ⦃k = ordered_keyed h32_ordered⦄ p.root_hash q (ps ++ p ∷ []) groups)
        (ground (arith, find-cong ⦃k = ordered_keyed h32_ordered⦄ p.root_hash q groups))
]

abbrev pub alike : H32 → Proposal → Bool
alike q p = equivalent h32_ordered p.root_hash q

pub group_all-Ascending :
    (ps : List Proposal) (groups : Groups)
    → Ascending h32_ordered groups
    → Ascending h32_ordered (group_all ps groups)
unfolding group_all
group_all-Ascending [] groups s = s
group_all-Ascending (p ∷ ps) groups s =
    group_all-Ascending ps (push p groups) (push-Ascending p groups s)

-- The group of a hash is the proposals whose root hash is the same key, in their order.
pub members-group_all :
    (q : H32) (ps : List Proposal) (groups : Groups)
    → Ascending h32_ordered groups
    → members q (group_all ps groups) ≡ members q groups ++ select (alike q) ps
unfolding group_all
members-group_all q [] groups s = sym (append-nil (members q groups))
members-group_all q (p ∷ ps) groups s =
    members-group_all q ps (push p groups) (push-Ascending p groups s)
    ∙ ground (
      arith,
      members-push q p groups s,
      append_assoc (members q groups) (p ∷ []) (select (alike q) ps),
    )

sizes-Above :
    (q : H32) (groups : Groups) → Above h32_ordered q groups → Above h32_ordered q (sizes groups)
sizes-Above q [] a = tt
sizes-Above q (g ∷ groups) a = a

pub sizes-Ascending :
    (groups : Groups) → Ascending h32_ordered groups → Ascending h32_ordered (sizes groups)
sizes-Ascending [] s = tt
sizes-Ascending ((h, ps) ∷ groups) s = (sizes-Above h groups s.0, sizes-Ascending groups s.1)

pub votes-sizes :
    (q : H32) (groups : Groups) → votes h32_ordered q (sizes groups) ≡ length (members q groups)
unfolding find
votes-sizes q [] = refl
votes-sizes q ((h, ps) ∷ groups) = ground (arith, votes-sizes q groups)
