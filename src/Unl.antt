-- ===== src/Unl.antt =====
-- src/unl.cpp: the nodes of the UNL with what is known of them, and the list that is printed for the
-- contract. The configured UNL, the hex conversion of libsodium and the time configurations that
-- peer connections report are arguments; the mutex is left out, since every operation holds it from
-- beginning to end.
pub mod Merging
pub mod Stats
use hpcore.Base.{
  ℕ, Bool, true, false, ◌++◌, List, [], ◌∷◌, Option, none, some, Bytes, bytes_ordered, nat_ordered,
  ordered_keyed, elem, contains, keys, length, map_find, map_put, map_emplace, digits, find, ltb,
  ◌==◌, if◌then◌else◌, bytes_keyed,
}
use hpcore.Consensus.Types.{Proposal}
use hpcore.Consensus.Votes.{Table, increment, elect}

pub record NodeStat : Type 0 where
  pub time_config : ℕ
  pub active_on : ℕ

abbrev pub UnlList : Type 0
UnlList = List (Bytes × NodeStat)

-- The list, the text printed from it, and `conf::cfg.node.is_unl`.
pub record Unl : Type 0 where
  pub list : UnlList
  pub json_list : Bytes
  pub is_unl : Bool

abbrev pub new_stat : NodeStat
new_stat = record { time_config = 0; active_on = 0 }

abbrev pub listed : Bytes → UnlList → Bool
listed = contains ⦃k = ordered_keyed bytes_ordered⦄

abbrev pub configured : Bytes → List Bytes → Bool
configured = elem ⦃k = ordered_keyed bytes_ordered⦄

-- `":{"active_on":`
abbrev pub active_on_text : Bytes
active_on_text =
    34 ∷ 58 ∷ 123 ∷ 34 ∷ 97 ∷ 99 ∷ 116 ∷ 105 ∷ 118 ∷ 101 ∷ 95 ∷ 111 ∷ 110 ∷ 34 ∷ 58 ∷ []

unfoldable pub print_node : (Bytes → Bytes) → Bytes → NodeStat → Bytes → Bytes
print_node to_hex pubkey stat tail =
    34 ∷ to_hex pubkey ++ active_on_text ++ digits 20 stat.active_on (125 ∷ tail)

unfoldable pub print_rest : (Bytes → Bytes) → UnlList → Bytes
print_rest to_hex [] = 125 ∷ []
print_rest to_hex ((pubkey, stat) ∷ list) =
    44 ∷ print_node to_hex pubkey stat (print_rest to_hex list)

unfoldable pub prepare_json_list : (Bytes → Bytes) → UnlList → Bytes
prepare_json_list to_hex [] = 123 ∷ 125 ∷ []
prepare_json_list to_hex ((pubkey, stat) ∷ list) =
    123 ∷ print_node to_hex pubkey stat (print_rest to_hex list)

-- The members that are configured no more go.
unfoldable pub erase_left : List Bytes → UnlList → UnlList × Bool
erase_left unl [] = ([], false)
erase_left unl ((pubkey, stat) ∷ list) =
    let (rest, changed) = erase_left unl list in
    if configured pubkey unl then ((pubkey, stat) ∷ rest, changed) else (rest, true)

abbrev pub add_one : Bytes → UnlList × Bool → UnlList × Bool
add_one pubkey (list, changed) =
    if listed pubkey list
    then (list, changed)
    else (map_emplace bytes_ordered pubkey new_stat list, true)

unfoldable pub add_new : List Bytes → UnlList × Bool → UnlList × Bool
add_new [] r = r
add_new (pubkey ∷ unl) r = add_new unl (add_one pubkey r)

-- The state, and whether there were changes.
unfoldable pub merge_latest_unl_config : (Bytes → Bytes) → List Bytes → Bytes → Unl → Unl × Bool
merge_latest_unl_config to_hex unl public_key s =
    let (list, changes_made) = add_new unl (erase_left unl s.list) in
    if changes_made
    then (
      record {
        list = list;
        json_list = prepare_json_list to_hex list;
        is_unl = listed public_key list;
      },
      true,
    )
    else (record s { list = list }, false)

-- An empty configuration is an error.
unfoldable pub init : (Bytes → Bytes) → List Bytes → Bytes → Unl → Option Unl
init to_hex [] public_key s = none
init to_hex (pubkey ∷ unl) public_key s =
    some (merge_latest_unl_config to_hex (pubkey ∷ unl) public_key s).0

abbrev pub count : Unl → ℕ
count s = length s.list

abbrev pub get : Unl → List Bytes
get s = keys s.list

abbrev pub exists : Bytes → Unl → Bool
exists bin_pubkey s = listed bin_pubkey s.list

abbrev pub report_of : Proposal → NodeStat
report_of p = record { time_config = p.time_config; active_on = p.recv_timestamp }

abbrev pub update_stat : Proposal → Option NodeStat → UnlList × Bool → UnlList × Bool
update_stat p none r = r
update_stat p (some stat) (list, changed) =
    (map_put bytes_ordered p.pubkey (report_of p) list, true)

unfoldable pub update_stats : List Proposal → UnlList × Bool → UnlList × Bool
update_stats [] r = r
update_stats (p ∷ proposals) r =
    update_stats proposals (update_stat p (map_find bytes_ordered p.pubkey r.0) r)

unfoldable pub update_unl_stats : (Bytes → Bytes) → List Proposal → Unl → Unl
update_unl_stats to_hex proposals s =
    let (list, changes_made) = update_stats proposals (s.list, false) in
    if changes_made
    then record s { list = list; json_list = prepare_json_list to_hex list }
    else record s { list = list }

-- What a peer connection reports stands in for a time configuration that is not known.
abbrev pub fill_stat : Option ℕ → NodeStat → NodeStat
fill_stat none stat = stat
fill_stat (some reported) stat =
    if stat.time_config == 0 then record stat { time_config = reported } else stat

unfoldable pub fill_time_configs : (Bytes → Option ℕ) → UnlList → UnlList
fill_time_configs reported_time_config [] = []
fill_time_configs reported_time_config ((pubkey, stat) ∷ list) =
    (pubkey, fill_stat (reported_time_config pubkey) stat)
    ∷ fill_time_configs reported_time_config list

abbrev pub vote_time_config : ℕ → Table ℕ → Table ℕ
vote_time_config time_config time_config_votes =
    if ltb 0 time_config
    then increment nat_ordered time_config time_config_votes
    else time_config_votes

unfoldable pub vote_time_configs : UnlList → Table ℕ → Table ℕ
vote_time_configs [] time_config_votes = time_config_votes
vote_time_configs ((pubkey, stat) ∷ list) time_config_votes =
    vote_time_configs list (vote_time_config stat.time_config time_config_votes)

-- The majority, with the state in which the time configurations are filled in.
unfoldable pub get_majority_time_config : (Bytes → Option ℕ) → Unl → ℕ × Unl
get_majority_time_config reported_time_config s =
    let list = fill_time_configs reported_time_config s.list in
    ((elect (vote_time_configs list []) 0 0).0, record s { list = list })
