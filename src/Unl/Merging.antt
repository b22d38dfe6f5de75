-- ===== src/Unl/Merging.antt =====
-- The list after the configured UNL is merged into it.
use hpcore.Base.{
  ◌⊎◌, ◌≡◌, refl, ◌∙◌, Bool, true, false, List, [], ◌∷◌, Option, none, some, Bytes, arith,
  bytes_ordered, ordered_keyed, elem, contains, find, map_find, Ascending, Above, map_find_below,
  find-map_emplace, map_emplace-Ascending, if◌then◌else◌, equivalent, find-cong, elem-cong,
  Bool-cases, inl, inr,
}
use hpcore.Unl.{
  NodeStat, UnlList, Unl, new_stat, listed, configured, erase_left, add_one, add_new,
  merge_latest_unl_config, prepare_json_list, init,
}

abbrev is_some {ℓ} : {A : Type ℓ} → Option A → Bool
is_some none = false
is_some (some a) = true

pub listed_lem :
    (q : Bytes) (list : UnlList) → listed q list ≡ is_some (map_find bytes_ordered q list)
unfolding contains find
listed_lem q [] = refl
listed_lem q ((j, w) ∷ list) = ground (arith, listed_lem q list)

-- A member that is configured keeps its statistics.
abbrev kept : Bool → Option NodeStat → Option NodeStat
kept true stat = stat
kept false stat = none

abbrev pub or_new : Option NodeStat → NodeStat
or_new none = new_stat
or_new (some stat) = stat

module _ (unl : List Bytes) where
  erase_left-Above :
      (p : Bytes) (list : UnlList)
      → Ascending bytes_ordered list
      → Above bytes_ordered p list
      → Above bytes_ordered p (erase_left unl list).0
  unfolding erase_left
  erase_left-Above p [] s a = tt
  erase_left-Above p ((j, w) ∷ list) s a = elim (Bool-cases (configured j unl)) [
    | inl stays ↦ rw stays a
    | inr goes ↦ rw goes (erase_left-Above p list s.1 (above p list s.0 a))
  ]
    where
      above :
          (p : Bytes) (list : UnlList)
          → Above bytes_ordered j list
          → bytes_ordered.lt p j ≡ true
          → Above bytes_ordered p list
      above p [] b h = tt
      above p ((i, v) ∷ list) b h = bytes_ordered.lt_trans p j i h b

  erase_left-Ascending :
      (list : UnlList)
      → Ascending bytes_ordered list
      → Ascending bytes_ordered (erase_left unl list).0
  unfolding erase_left
  erase_left-Ascending [] s = tt
  erase_left-Ascending ((j, w) ∷ list) s = elim (Bool-cases (configured j unl)) [
    | inl stays ↦ rw stays (erase_left-Above j list s.1 s.0, erase_left-Ascending list s.1)
    | inr goes ↦ rw goes (erase_left-Ascending list s.1)
  ]

  find-erase_left :
      (q : Bytes) (list : UnlList)
      → Ascending bytes_ordered list
      → map_find bytes_ordered q (erase_left unl list).0
        ≡ kept (configured q unl) (map_find bytes_ordered q list)
  unfolding erase_left find
  find-erase_left q [] s = ground arith
  find-erase_left q ((j, w) ∷ list) s = ground (
    arith,
    find-erase_left q list s.1,
    elem-cong ⦃k = ordered_keyed bytes_ordered⦄ j q unl,
    find-cong ⦃k = ordered_keyed bytes_ordered⦄ j q list,
    map_find_below bytes_ordered j list s.0 s.1,
  )

  -- Nothing is reported as changed only when nothing was.
  unchanged-erase_left :
      (list : UnlList) → (erase_left unl list).1 ≡ false → (erase_left unl list).0 ≡ list
  unfolding erase_left
  unchanged-erase_left [] h = refl
  unchanged-erase_left ((j, w) ∷ list) h = ground (arith, unchanged-erase_left list)

add_one-Ascending :
    (p : Bytes) (r : UnlList × Bool)
    → Ascending bytes_ordered r.0
    → Ascending bytes_ordered (add_one p r).0
add_one-Ascending p (list, changed) s = elim (Bool-cases (listed p list)) [
  | inl there ↦ rw there s
  | inr absent ↦ rw absent (map_emplace-Ascending bytes_ordered p new_stat list s)
]

find-add_one :
    (q p : Bytes) (r : UnlList × Bool)
    → Ascending bytes_ordered r.0
    → map_find bytes_ordered q (add_one p r).0 ≡ (
        if equivalent bytes_ordered p q
        then some (or_new (map_find bytes_ordered q r.0))
        else map_find bytes_ordered q r.0)
find-add_one q p (list, changed) s = ground (
  arith,
  listed_lem p list,
  find-map_emplace bytes_ordered p q new_stat list s,
  find-cong ⦃k = ordered_keyed bytes_ordered⦄ p q list,
)

add_new-Ascending :
    (ks : List Bytes) (r : UnlList × Bool)
    → Ascending bytes_ordered r.0
    → Ascending bytes_ordered (add_new ks r).0
unfolding add_new
add_new-Ascending [] r s = s
add_new-Ascending (k ∷ ks) r s = add_new-Ascending ks (add_one k r) (add_one-Ascending k r s)

find-add_new :
    (q : Bytes) (ks : List Bytes) (r : UnlList × Bool)
    → Ascending bytes_ordered r.0
    → map_find bytes_ordered q (add_new ks r).0 ≡ (
        if configured q ks
        then some (or_new (map_find bytes_ordered q r.0))
        else map_find bytes_ordered q r.0)
unfolding add_new elem
find-add_new q [] r s = refl
find-add_new q (k ∷ ks) r s =
    ground (arith, find-add_new q ks (add_one k r) (add_one-Ascending k r s), find-add_one q k r s)

unchanged-add_one :
    (k : Bytes) (r : UnlList × Bool)
    → (add_one k r).1 ≡ false
    → ((add_one k r).0 ≡ r.0) × (r.1 ≡ false)
unchanged-add_one k (list, changed) h = ground arith

-- Where no change is reported, the list is the one before.
unchanged-add_new :
    (ks : List Bytes) (r : UnlList × Bool)
    → (add_new ks r).1 ≡ false
    → ((add_new ks r).0 ≡ r.0) × (r.1 ≡ false)
unfolding add_new
unchanged-add_new [] r h = (refl, h)
unchanged-add_new (k ∷ ks) r h =
    let rest = unchanged-add_new ks (add_one k r) h in
    let one = unchanged-add_one k r rest.1 in (rest.0 ∙ one.0, one.1)

module _ (to_hex : Bytes → Bytes) (unl : List Bytes) (public_key : Bytes) where
  merge_list :
      (s : Unl)
      → (merge_latest_unl_config to_hex unl public_key s).0.list
        ≡ (add_new unl (erase_left unl s.list)).0
  unfolding merge_latest_unl_config
  merge_list s = ground arith

  -- After the configured UNL is merged, the list holds exactly the configured members, in the order
  -- of their keys. A member that was listed before keeps its statistics, and a new one starts with
  -- none. The list was in order before.
  pub merged_exactly :
      (s : Unl) (q : Bytes)
      → Ascending bytes_ordered s.list
      → let list = (merge_latest_unl_config to_hex unl public_key s).0.list in
        Ascending bytes_ordered list
        × (map_find bytes_ordered q list
            ≡ (if configured q unl then some (or_new (map_find bytes_ordered q s.list)) else none))
  merged_exactly s q asc =
      let left = erase_left unl s.list in
      let ordered = erase_left-Ascending unl s.list asc in
      rw (merge_list s) (
        add_new-Ascending unl left ordered,
        ground (arith, find-add_new q unl left ordered, find-erase_left unl q s.list asc),
      )

  -- The printed list is that of the members, and the node knows whether it is one of them.
  abbrev pub IsCurrent : Unl → Type 0
  IsCurrent s =
      (s.json_list ≡ prepare_json_list to_hex s.list) × (s.is_unl ≡ listed public_key s.list)

  merge_unchanged :
      (s : Unl)
      → (add_new unl (erase_left unl s.list)).1 ≡ false
      → (add_new unl (erase_left unl s.list)).0 ≡ s.list
  merge_unchanged s h =
      let new = unchanged-add_new unl (erase_left unl s.list) h in
      new.0 ∙ unchanged-erase_left unl s.list new.1

  -- Merging keeps the printed list and the node's own membership true to the list; and it
  -- reports a change or leaves the list as it was.
  pub merge-IsCurrent :
      (s : Unl)
      → IsCurrent s
      → let r = merge_latest_unl_config to_hex unl public_key s in
        IsCurrent r.0 × ((r.1 ≡ true) ⊎ (r.0.list ≡ s.list))
  unfolding merge_latest_unl_config
  merge-IsCurrent s (json, own) = elim (Bool-cases (add_new unl (erase_left unl s.list)).1) [
    | inl changed ↦ rw changed ((refl, refl), inl refl)
    | inr unchanged ↦
        let same = merge_unchanged s unchanged in rw (unchanged, same) ((json, own), inr refl)
  ]

changed-add_one : (k : Bytes) (r : UnlList × Bool) → r.1 ≡ true → (add_one k r).1 ≡ true
changed-add_one k (list, changed) h = ground arith

changed-add_new : (ks : List Bytes) (r : UnlList × Bool) → r.1 ≡ true → (add_new ks r).1 ≡ true
unfolding add_new
changed-add_new [] r h = h
changed-add_new (k ∷ ks) r h = changed-add_new ks (add_one k r) (changed-add_one k r h)

-- The node starts with an empty list. Initialization fails when no member is configured, and else
-- the printed list and the node's own membership are those of the list.
pub init-IsCurrent :
    (to_hex : Bytes → Bytes) (unl : List Bytes) (public_key : Bytes) (s t : Unl)
    → s.list ≡ []
    → init to_hex unl public_key s ≡ some t
    → IsCurrent to_hex unl public_key t
unfolding init merge_latest_unl_config add_new erase_left contains
init-IsCurrent to_hex [] public_key s t empty h = cc
init-IsCurrent to_hex (k ∷ unl) public_key s t empty h =
    let left : erase_left (k ∷ unl) s.list ≡ ([], false) = rw empty refl in
    let first : UnlList × Bool = add_one k (erase_left (k ∷ unl) s.list) in
    let flag : first.1 ≡ true = rw left refl in
    let all : (add_new unl first).1 ≡ true = changed-add_new unl first flag in
    ground (arith, h, all)
