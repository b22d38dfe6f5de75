-- ===== src/Ledger/Shards.antt =====
-- src/ledger/ledger.cpp: the shards of the primary ledger. `prepare_shard`, `update_primary_ledger`,
-- `remove_old_shards` and `update_ledger_raw_data`. A directory of shards is the list of their numbers.
-- What the file system, SQLite and the hash of a shard answer are arguments.
-- That the new ledger is then reported to the status of the node (Status.ledger_created) is left out.
pub mod Retention
pub mod Placement
use hpcore.Base.{
  ℕ, zero, suc, ◌+◌, ◌-◌, ◌/◌, ◌%◌, ◌^◌, Bool, true, false, not, ◌&&◌, ◌||◌, List, [], ◌∷◌, Option,
  none, some, Bytes, ltb, ◌==◌, if◌then◌else◌, wrap64, sub64, elem, discard, nat_keyed, is_nil,
}
use hpcore.Util.SequenceHash.{H32, SequenceHash}
use hpcore.Consensus.Types.{Proposal, ConsensedUser}
use hpcore.Ledger.Records.{LedgerRecord, primary_shard_size, raw_shard_size}
use hpcore.Ledger.Chain.{Hashes, new_lcl_id, ledger_record}

pub data History : Type 0 where
  custom full : History

pub record HistoryConfig : Type 0 where
  pub history : History
  pub max_primary_shards : ℕ
  pub max_raw_shards : ℕ

abbrev pub is_full : History → Bool
is_full custom = false
is_full full = true

abbrev pub Shards : Type 0
Shards = List ℕ

-- The loop variable is an `int`, to which the 64-bit number is cut: the rounds from it down to zero.
abbrev pub rounds_from : ℕ → ℕ
rounds_from delete_from = let low = delete_from % 2 ^ 32 in if ltb low (2 ^ 31) then low + 1 else 0

-- The rounds left are one more than the shard of the round. A shard that is missing, or that cannot be
-- removed, ends the loop.
unfoldable pub remove_down : (ℕ → Bool) → ℕ → Shards → Shards
remove_down removable zero shards = shards
remove_down removable (suc i) shards =
    let rest = remove_down removable i (discard i shards) in
    if elem i shards && removable i then rest else shards

unfoldable pub remove_old_shards : History → (ℕ → Bool) → ℕ → ℕ → ℕ → Shards → Shards
remove_old_shards history removable lcl_seq_no shard_size max_shards shards =
    let shard_seq_no = sub64 lcl_seq_no 1 / shard_size in
    if is_full history || ltb shard_seq_no max_shards
    then shards
    else remove_down removable (rounds_from (shard_seq_no - max_shards)) shards

-- What the calls answer: whether the shard's directory could be made, whether the rest of what a new shard
-- needs could be done, whether the database of an existing one could be opened, whether rows could be
-- inserted, the hash of the shard, whether the index of the history could be written, and which shards
-- can be removed.
pub record ShardCalls : Type 0 where
  pub dir_made : Bool
  pub shard_made : Bool
  pub db_opened : Bool
  pub inserted : Bool
  pub shard_hash : ℕ → Option H32
  pub index_updated : Bool
  pub removable : ℕ → Bool

-- The number of the shard, whether it could be prepared and then whether it is new, and the directory.
unfoldable pub prepare_shard : ShardCalls → Bool → ℕ → ℕ → Shards → ℕ × Option Bool × Shards
prepare_shard calls keep_db_connection ledger_seq_no shard_size shards =
    let shard_seq_no = sub64 ledger_seq_no 1 / shard_size in
    if sub64 ledger_seq_no 1 % shard_size == 0
    then (
      shard_seq_no,
      if calls.dir_made && calls.shard_made then some true else none,
      if calls.dir_made then shard_seq_no ∷ shards else shards,
    )
    else (
      shard_seq_no,
      if not keep_db_connection || calls.db_opened then some false else none,
      shards,
    )

pub record LedgerState : Type 0 where
  pub lcl_id : SequenceHash
  pub last_primary_shard_id : SequenceHash
  pub last_raw_shard_id : SequenceHash
  pub primary_shards : Shards
  pub raw_shards : Shards

abbrev pub with_primary : Shards → LedgerState → LedgerState
with_primary shards s = record s { primary_shards = shards }

-- The shards of the state once a new one is there.
abbrev pub tidy_primary : HistoryConfig → ShardCalls → Bool → LedgerState → LedgerState
tidy_primary cfg calls created s =
    if created
    then with_primary
        (remove_old_shards cfg.history calls.removable s.lcl_id.seq_no primary_shard_size
          cfg.max_primary_shards s.primary_shards)
        s
    else s

-- The row is inserted: the last ledger is the new one, whatever fails after that.
unfoldable pub record_primary :
    HistoryConfig → ShardCalls → ℕ → Bool → Option H32 → LedgerState → Bool × LedgerState
record_primary cfg calls shard_seq_no created none s = (false, s)
record_primary cfg calls shard_seq_no created (some hash) s =
    let s' = record s { last_primary_shard_id = record { seq_no = shard_seq_no; hash = hash } } in
    if is_full cfg.history && not calls.index_updated
    then (false, s')
    else (true, tidy_primary cfg calls created s')

unfoldable pub insert_primary :
    HistoryConfig → ShardCalls → SequenceHash → ℕ → Option Bool → LedgerState → Bool × LedgerState
insert_primary cfg calls new_id shard_seq_no none s = (false, s)
insert_primary cfg calls new_id shard_seq_no (some created) s =
    if calls.inserted
    then record_primary cfg calls shard_seq_no created (calls.shard_hash shard_seq_no)
        (record s { lcl_id = new_id })
    else (false, s)

-- Whether it succeeded, and the state.
unfoldable pub update_primary_ledger :
    Hashes → HistoryConfig → ShardCalls → Proposal → LedgerState → Bool × LedgerState
update_primary_ledger c cfg calls p s =
    let new_id = new_lcl_id c s.lcl_id p in
    let (shard_seq_no, prepared, shards) =
      prepare_shard calls true new_id.seq_no primary_shard_size s.primary_shards in
    insert_primary cfg calls new_id shard_seq_no prepared (with_primary shards s)

abbrev pub set_raw_shard : ℕ → Option H32 → LedgerState → LedgerState
set_raw_shard shard_seq_no none s = s
set_raw_shard shard_seq_no (some hash) s = record s {
  last_raw_shard_id = record { seq_no = shard_seq_no; hash = hash };
}

abbrev pub tidy_raw : HistoryConfig → ShardCalls → Bool → LedgerState → LedgerState
tidy_raw cfg calls created s =
    if created
    then record s {
      raw_shards =
          remove_old_shards cfg.history calls.removable s.lcl_id.seq_no raw_shard_size
            cfg.max_raw_shards s.raw_shards;
    }
    else s

-- Without users no row is inserted, which succeeds.
unfoldable pub insert_raw :
    HistoryConfig → ShardCalls → Bool → ℕ → Option Bool → LedgerState → Bool × LedgerState
insert_raw cfg calls has_updates shard_seq_no none s = (false, s)
insert_raw cfg calls has_updates shard_seq_no (some created) s =
    if not has_updates || calls.inserted
    then (
      true,
      tidy_raw cfg calls created (set_raw_shard shard_seq_no (calls.shard_hash shard_seq_no) s),
    )
    else (false, s)

unfoldable pub update_ledger_raw_data :
    HistoryConfig → ShardCalls → List (Bytes × ConsensedUser) → LedgerState → Bool × LedgerState
update_ledger_raw_data cfg calls consensed_users s =
    let has_updates = not (is_nil consensed_users) in
    let (shard_seq_no, prepared, shards) =
      prepare_shard calls has_updates s.lcl_id.seq_no raw_shard_size s.raw_shards in
    if not (is_full cfg.history) && (cfg.max_raw_shards == 0)
    then (true, s)
    else insert_raw cfg calls has_updates shard_seq_no prepared (record s { raw_shards = shards })

-- The session of the file system can be opened and closed; the calls of the two parts are apart.
unfoldable pub update_ledger :
    Hashes
    → HistoryConfig
    → Bool × Bool
    → ShardCalls
    → ShardCalls
    → Proposal
    → List (Bytes × ConsensedUser)
    → LedgerState
    → Bool × LedgerState
update_ledger c cfg (acquired, released) primary raw p consensed_users s =
    let (first, s') = update_primary_ledger c cfg primary p s in
    let (second, s'') = update_ledger_raw_data cfg raw consensed_users s' in
    if not acquired
    then (false, s)
    else if not first
    then (false, s')
    else if not second
    then (false, s'')
    else (released, s'')
