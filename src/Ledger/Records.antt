-- ===== src/Ledger/Records.antt =====
-- src/ledger/ledger_common.hpp: a ledger and its raw data.
use hpcore.Base.{ℕ, List, Option, Bytes}

pub record LedgerUserInput : Type 0 where
  pub ledger_seq_no : ℕ
  pub pubkey : Bytes
  pub hash : Bytes
  pub nonce : ℕ
  pub blob_offset : ℕ
  pub blob_size : ℕ
  pub blob : Bytes

pub record LedgerUserOutput : Type 0 where
  pub ledger_seq_no : ℕ
  pub pubkey : Bytes
  pub hash : Bytes
  pub blob_offset : ℕ
  pub blob_count : ℕ
  pub outputs : List Bytes

pub record LedgerRecord : Type 0 where
  pub seq_no : ℕ
  pub timestamp : ℕ
  pub ledger_hash : Bytes
  pub prev_ledger_hash : Bytes
  pub data_hash : Bytes
  pub state_hash : Bytes
  pub config_hash : Bytes
  pub nonce : Bytes
  pub user_hash : Bytes
  pub input_hash : Bytes
  pub output_hash : Bytes
  pub inputs : Option (List LedgerUserInput)
  pub outputs : Option (List LedgerUserOutput)

abbrev pub primary_shard_size : ℕ
primary_shard_size = 262144

abbrev pub raw_shard_size : ℕ
raw_shard_size = 4096
