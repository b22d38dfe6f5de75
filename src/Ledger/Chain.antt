-- ===== src/Ledger/Chain.antt =====
-- src/ledger/ledger.cpp: `insert_ledger_record`, which makes the next ledger of a proposal. The hashes
-- of BLAKE3 are arguments: that of a string, and, as an h32, that of the previous ledger hash followed by
-- a string. src/crypto.cpp: `get_list_hash`. Inserting the row is a call of SQLite.
pub mod Agreement
use hpcore.Base.{ℕ, ◌+◌, List, [], ◌∷◌, ◌++◌, Option, none, some, Bytes, map, wrap64}
use hpcore.Util.Integers.{uint64_to_bytes}
use hpcore.Util.SequenceHash.{H32, SequenceHash, h32_empty}
use hpcore.Util.MerkleHashTree.{empty_hash}
use hpcore.Consensus.Types.{Proposal}
use hpcore.Consensus.Proposing.{to_string_view}
use hpcore.Consensus.Inputs.{hash_suffix}
use hpcore.Ledger.Records.{LedgerRecord}

pub record Hashes : Type 0 where
  pub blake3 : Bytes → Bytes
  pub get_hash : H32 → Bytes → H32

abbrev pub concat : List Bytes → Bytes
concat [] = []
concat (s ∷ ss) = s ++ concat ss

-- The strings are hashed as one stream. The hash of no string is that of zero bytes.
abbrev pub get_list_hash : Hashes → List Bytes → Bytes
get_list_hash c [] = empty_hash
get_list_hash c (s ∷ ss) = c.blake3 (concat (s ∷ ss))

abbrev pub user_hash_of : Hashes → Proposal → Bytes
user_hash_of c p = get_list_hash c p.users

abbrev pub input_hash_of : Hashes → Proposal → Bytes
input_hash_of c p = get_list_hash c (map hash_suffix p.input_ordered_hashes)

-- The strings that make up the data hash, with the sequence number of the ledger before.
abbrev pub data_of : Hashes → SequenceHash → Proposal → List Bytes
data_of c current_lcl_id p =
    uint64_to_bytes current_lcl_id.seq_no
    ∷ uint64_to_bytes p.time
    ∷ to_string_view p.state_hash
    ∷ to_string_view p.patch_hash
    ∷ to_string_view p.group_nonce
    ∷ user_hash_of c p
    ∷ input_hash_of c p
    ∷ p.output_hash
    ∷ []

abbrev pub data_hash_of : Hashes → SequenceHash → Proposal → Bytes
data_hash_of c current_lcl_id p = get_list_hash c (data_of c current_lcl_id p)

-- The id of the new ledger. Its number is set by `update_primary_ledger`.
unfoldable pub new_lcl_id : Hashes → SequenceHash → Proposal → SequenceHash
new_lcl_id c current_lcl_id p = record {
  seq_no = wrap64 (current_lcl_id.seq_no + 1);
  hash = c.get_hash current_lcl_id.hash (data_hash_of c current_lcl_id p);
}

unfoldable pub ledger_record : Hashes → SequenceHash → Proposal → LedgerRecord
ledger_record c current_lcl_id p = record {
  seq_no = wrap64 (current_lcl_id.seq_no + 1);
  timestamp = p.time;
  ledger_hash = to_string_view (c.get_hash current_lcl_id.hash (data_hash_of c current_lcl_id p));
  prev_ledger_hash = to_string_view current_lcl_id.hash;
  data_hash = data_hash_of c current_lcl_id p;
  state_hash = to_string_view p.state_hash;
  config_hash = to_string_view p.patch_hash;
  nonce = to_string_view p.group_nonce;
  user_hash = user_hash_of c p;
  input_hash = input_hash_of c p;
  output_hash = p.output_hash;
  inputs = none;
  outputs = none;
}

abbrev pub genesis_id : SequenceHash
genesis_id = record { seq_no = 0; hash = h32_empty }

-- The id of the last ledger after the proposals, the latest first, and the ledgers themselves.
unfoldable pub lcl_id_after : Hashes → List Proposal → SequenceHash
lcl_id_after c [] = genesis_id
lcl_id_after c (p ∷ ps) = new_lcl_id c (lcl_id_after c ps) p

unfoldable pub ledgers : Hashes → List Proposal → List LedgerRecord
ledgers c [] = []
ledgers c (p ∷ ps) = ledger_record c (lcl_id_after c ps) p ∷ ledgers c ps
