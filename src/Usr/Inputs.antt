-- ===== src/Usr/Inputs.antt =====
-- src/usr/user_input.hpp, and `extract_submitted_input` and the status responses of src/usr/usr.cpp
-- and src/usr/usr.hpp. Signatures, hashes and the formats of the messages are arguments.
use hpcore.Base.{
  or_empty, ℕ, Bool, ◌++◌, List, [], ◌∷◌, Option, none, some, Bytes, leb, if◌then◌else◌, find, put,
  bytes_keyed,
}
use hpcore.Util.SequenceHash.{H32}
use hpcore.Usr.Submission.{ExtractedUserInput, Reason, bad_sig, bad_msg_format}

pub data Protocol : Type 0 where
  json bson : Protocol

pub record SubmittedUserInput : Type 0 where
  pub input_container : Bytes
  pub sig : Bytes
  pub protocol : Protocol

-- What an input container holds.
pub record InputContainer : Type 0 where
  pub input : Bytes
  pub nonce : ℕ
  pub max_ledger_seq_no : ℕ

-- `crypto::get_hash`, `crypto::verify` (of a message and a signature by a key) and the parser's
-- `extract_input_container`.
pub record Formats : Type 0 where
  pub get_hash : Bytes → Bytes
  pub verify : Bytes → Bytes → Bytes → Bool
  pub extract_input_container : Protocol → Bytes → Option InputContainer

-- No reason stands for an accepted input.
pub record InputStatusResponse : Type 0 where
  pub input_hash : Bytes
  pub reject_reason : Option Reason
  pub ledger_seq_no : ℕ
  pub ledger_hash : H32

pub data Extracted : Type 0 where
  refused : Reason → Extracted
  extracted : ExtractedUserInput → Extracted

abbrev pub take_container : SubmittedUserInput → Option InputContainer → Extracted
take_container submitted none = refused bad_msg_format
take_container submitted (some c) = extracted (record {
  input = c.input;
  nonce = c.nonce;
  max_ledger_seq_no = c.max_ledger_seq_no;
  sig = submitted.sig;
})

unfoldable pub extract_submitted_input : Formats → Bytes → SubmittedUserInput → Extracted
extract_submitted_input x user_pubkey submitted =
    if x.verify submitted.input_container submitted.sig user_pubkey
    then take_container submitted
        (x.extract_input_container submitted.protocol submitted.input_container)
    else refused bad_sig

-- `extracted_inputs.sort()`, which is stable: inputs of one nonce keep their order.
unfoldable pub insert_by_nonce :
    ExtractedUserInput → List ExtractedUserInput → List ExtractedUserInput
insert_by_nonce e [] = e ∷ []
insert_by_nonce e (x ∷ xs) =
    let rest = x ∷ insert_by_nonce e xs in if leb e.nonce x.nonce then e ∷ x ∷ xs else rest

unfoldable pub sort_inputs : List ExtractedUserInput → List ExtractedUserInput
sort_inputs [] = []
sort_inputs (e ∷ es) = insert_by_nonce e (sort_inputs es)

-- `map[pubkey].push_back` for each item in turn: no item makes no entry.
unfoldable pub push_all {ℓ} :
    {A : Type ℓ} → Bytes → List A → List (Bytes × List A) → List (Bytes × List A)
push_all pubkey [] m = m
push_all pubkey (r ∷ rs) m = push_all pubkey rs (put pubkey (or_empty (find pubkey m) ++ r ∷ []) m)
