-- ===== src/Unl/Stats.antt =====
-- What the reports of the members do to the list, and the time configuration of the majority.
use hpcore.Base.{
  ℕ, ◌^◌, ◌<◌, ◌≤◌, ◌≡◌, refl, sym, ap, ◌∙◌, Bool, false, List, [], ◌∷◌, Option, none, some, Bytes,
  arith, ltb, ◌==◌, bytes_ordered, nat_ordered, ordered_keyed, map_find, if◌then◌else◌, equivalent,
  find-cong, find-put, Bool-cases, Option-cases, inl, inr, select, length,
}
use hpcore.Consensus.Types.{Proposal}
use hpcore.Consensus.Votes.{Table, increment, count_votes}
use hpcore.Consensus.Votes.Tally.{cast_for, elect-count_votes}
use hpcore.Unl.{
  NodeStat, UnlList, Unl, report_of, update_stat, update_stats, update_unl_stats, fill_stat,
  fill_time_configs, vote_time_configs, get_majority_time_config, print_rest, print_node,
  prepare_json_list,
}

-- The latest report of a member among the proposals, in turn.
abbrev pub reported_by : Bytes → List Proposal → NodeStat → NodeStat
reported_by q [] stat = stat
reported_by q (p ∷ ps) stat =
    if equivalent bytes_ordered p.pubkey q
    then reported_by q ps (report_of p)
    else reported_by q ps stat

abbrev pub update_by : Bytes → List Proposal → Option NodeStat → Option NodeStat
update_by q ps none = none
update_by q ps (some stat) = some (reported_by q ps stat)

find-update_stat :
    (q : Bytes) (p : Proposal) (r : UnlList × Bool)
    → map_find bytes_ordered q (update_stat p (map_find bytes_ordered p.pubkey r.0) r).0
      ≡ update_by q (p ∷ []) (map_find bytes_ordered q r.0)
find-update_stat q p r = elim (Option-cases (map_find bytes_ordered p.pubkey r.0)) [
  | inl absent ↦
      rw absent (ground (arith, find-cong ⦃k = ordered_keyed bytes_ordered⦄ p.pubkey q r.0))
  | inr (stat, present) ↦
      rw (present, find-put ⦃k = ordered_keyed bytes_ordered⦄ p.pubkey q (report_of p) r.0)
        (ground (arith, find-cong ⦃k = ordered_keyed bytes_ordered⦄ p.pubkey q r.0))
]

update_by-cons :
    (q : Bytes) (p : Proposal) (ps : List Proposal) (o : Option NodeStat)
    → update_by q ps (update_by q (p ∷ []) o) ≡ update_by q (p ∷ ps) o
update_by-cons q p ps none = refl
update_by-cons q p ps (some stat) = ground arith

find-update_stats :
    (q : Bytes) (ps : List Proposal) (r : UnlList × Bool)
    → map_find bytes_ordered q (update_stats ps r).0 ≡ update_by q ps (map_find bytes_ordered q r.0)
unfolding update_stats
find-update_stats q [] r = ground arith
find-update_stats q (p ∷ ps) r =
    let next = update_stat p (map_find bytes_ordered p.pubkey r.0) r in
    find-update_stats q ps next
    ∙ ap (update_by q ps) (find-update_stat q p r)
    ∙ update_by-cons q p ps (map_find bytes_ordered q r.0)

unchanged-update_stat :
    (p : Proposal) (o : Option NodeStat) (r : UnlList × Bool)
    → (update_stat p o r).1 ≡ false
    → ((update_stat p o r).0 ≡ r.0) × (r.1 ≡ false)
unchanged-update_stat p none r h = (refl, h)
unchanged-update_stat p (some stat) (list, changed) h = cc

unchanged-update_stats :
    (ps : List Proposal) (r : UnlList × Bool)
    → (update_stats ps r).1 ≡ false
    → ((update_stats ps r).0 ≡ r.0) × (r.1 ≡ false)
unfolding update_stats
unchanged-update_stats [] r h = (refl, h)
unchanged-update_stats (p ∷ ps) r h =
    let o = map_find bytes_ordered p.pubkey r.0 in
    let rest = unchanged-update_stats ps (update_stat p o r) h in
    let one = unchanged-update_stat p o r rest.1 in (rest.0 ∙ one.0, one.1)

module _ (to_hex : Bytes → Bytes) where
  update_list :
      (proposals : List Proposal) (s : Unl)
      → (update_unl_stats to_hex proposals s).list ≡ (update_stats proposals (s.list, false)).0
  unfolding update_unl_stats
  update_list proposals s = ground arith

  printed_update :
      (proposals : List Proposal) (s : Unl)
      → s.json_list ≡ prepare_json_list to_hex s.list
      → let t = update_unl_stats to_hex proposals s in t.json_list ≡ prepare_json_list to_hex t.list
  unfolding update_unl_stats
  printed_update proposals s json = elim (Bool-cases (update_stats proposals (s.list, false)).1) [
    | inl changed ↦ rw changed refl
    | inr unchanged ↦
        rw (unchanged, (unchanged-update_stats proposals (s.list, false) unchanged).0) json
  ]

  -- After the proposals of a round, every listed member has the time configuration and the time of
  -- the last of its proposals, and nobody else comes in; the printed list is that of the members.
  -- It was before.
  pub update_unl_stats_lem :
      (proposals : List Proposal) (s : Unl) (q : Bytes)
      → s.json_list ≡ prepare_json_list to_hex s.list
      → let t = update_unl_stats to_hex proposals s in
        (map_find bytes_ordered q t.list ≡ update_by q proposals (map_find bytes_ordered q s.list))
        × (t.json_list ≡ prepare_json_list to_hex t.list)
  update_unl_stats_lem proposals s q json = (
    rw (update_list proposals s) (find-update_stats q proposals (s.list, false)),
    printed_update proposals s json,
  )

  print_node-fill :
      (q : Bytes) (o : Option ℕ) (stat : NodeStat) (tail : Bytes)
      → print_node to_hex q (fill_stat o stat) tail ≡ print_node to_hex q stat tail
  unfolding print_node
  print_node-fill q none stat tail = refl
  print_node-fill q (some c) stat tail = elim (Bool-cases (stat.time_config == 0)) [
    | inl empty ↦ rw empty refl
    | inr full ↦ rw full refl
  ]

  print_rest-fill :
      (reported : Bytes → Option ℕ) (list : UnlList)
      → print_rest to_hex (fill_time_configs reported list) ≡ print_rest to_hex list
  unfolding print_rest fill_time_configs
  print_rest-fill reported [] = refl
  print_rest-fill reported ((q, stat) ∷ list) =
      rw
        (
          print_rest-fill reported list,
          print_node-fill q (reported q) stat (print_rest to_hex list),
        )
        refl

  json-fill :
      (reported : Bytes → Option ℕ) (list : UnlList)
      → prepare_json_list to_hex (fill_time_configs reported list) ≡ prepare_json_list to_hex list
  unfolding prepare_json_list fill_time_configs
  json-fill reported [] = refl
  json-fill reported ((q, stat) ∷ list) =
      rw
        (
          print_rest-fill reported list,
          print_node-fill q (reported q) stat (print_rest to_hex list),
        )
        refl

-- The time configurations that are known of the members, those that peers report included.
abbrev pub time_configs : UnlList → List ℕ
time_configs [] = []
time_configs ((q, stat) ∷ list) = stat.time_config ∷ time_configs list

abbrev pub known_configs : List ℕ → List ℕ
known_configs = select (λ c. ltb 0 c)

voted :
    (list : UnlList) (t : Table ℕ)
    → vote_time_configs list t ≡ count_votes nat_ordered (known_configs (time_configs list)) t
unfolding vote_time_configs count_votes
voted [] t = refl
voted ((q, stat) ∷ list) t = elim (Bool-cases (ltb 0 stat.time_config)) [
  | inl known ↦ rw known (voted list (increment nat_ordered stat.time_config t))
  | inr unknown ↦ rw unknown (voted list t)
]

-- The majority time configuration is a known one that no other has more members for, counting what
-- peers report for the members that are not known; it is zero when none is known. The printed list
-- stays that of the members. Fewer than 2^32 members are listed.
pub majority_time_config :
    (to_hex : Bytes → Bytes) (reported : Bytes → Option ℕ) (s : Unl)
    → length (known_configs (time_configs (fill_time_configs reported s.list))) < 2 ^ 32
    → s.json_list ≡ prepare_json_list to_hex s.list
    → let (majority, t) = get_majority_time_config reported s in
      let configs = known_configs (time_configs t.list) in
      ((c : ℕ) → cast_for nat_ordered c configs ≤ cast_for nat_ordered majority configs)
      × (t.json_list ≡ prepare_json_list to_hex t.list)
unfolding get_majority_time_config
majority_time_config to_hex reported s small json =
    let list = fill_time_configs reported s.list in
    let configs = known_configs (time_configs list) in
    let (most, won) = elect-count_votes nat_ordered configs 0 small in
    (
      λ c. rw (voted list []) (ground (arith, most c, won)),
      json ∙ sym (json-fill to_hex reported s.list),
    )
