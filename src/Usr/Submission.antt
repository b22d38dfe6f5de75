-- ===== src/Usr/Submission.antt =====
-- src/usr/usr.cpp: `validate_user_input_submission`, which decides whether a user's input is taken.
-- The hash of a signature is an argument, and so is whether the input store could write the input.
pub mod Admission
use hpcore.Base.{
  ℕ, zero, suc, ◌+◌, ◌*◌, ◌/◌, ◌%◌, ◌^◌, Bool, true, false, not, ◌&&◌, ◌||◌, ◌++◌, List, [], ◌∷◌,
  Option, none, some, Bytes, length, ltb, leb, ◌==◌, if◌then◌else◌, wrap64, wrap32,
}
use hpcore.Util.BufferStore.{BufferView, BufferStore, write_buf}
use hpcore.Usr.NonceMap.{NonceMap, check}

pub record ExtractedUserInput : Type 0 where
  pub input : Bytes
  pub nonce : ℕ
  pub max_ledger_seq_no : ℕ
  pub sig : Bytes

-- What contract configuration limits: the ledger offset, and the bytes of a user in a round.
pub record InputLimits : Type 0 where
  pub max_input_ledger_offset : ℕ
  pub user_input_bytes : ℕ

pub data Reason : Type 0 where
  max_ledger_offset_exceeded max_ledger_expired round_inputs_overflow : Reason
  nonce_expired already_submitted : Reason
  bad_sig bad_msg_format invalid_msg_type : Reason

-- `util::uint64_to_string_bytes`: eight bytes, the highest first.
abbrev pub bytes_from : ℕ → ℕ → Bytes → Bytes
bytes_from zero x tail = tail
bytes_from (suc n) x tail = bytes_from n (x / 256) (x % 256 ∷ tail)

abbrev pub uint64_to_string_bytes : ℕ → Bytes
uint64_to_string_bytes x = bytes_from 8 x []

-- The part of the node that a submission changes.
pub record InputState : Type 0 where
  pub nonce_map : NonceMap
  pub input_store : BufferStore
  pub total_input_size : ℕ

-- The reason of a rejection or none, the ordered hash, the stored input and the state.
pub record Validation : Type 0 where
  pub reason : Option Reason
  pub ordered_hash : Bytes
  pub input : BufferView
  pub state : InputState

abbrev pub no_view : BufferView
no_view = record { offset = 0; size = 0 }

abbrev pub nonce_reason : ℕ → Reason
nonce_reason status = if status == 1 then nonce_expired else already_submitted

abbrev refuse : Bytes → Reason → InputState → Validation
refuse ordered_hash r s = record {
  reason = some r;
  ordered_hash = ordered_hash;
  input = no_view;
  state = s;
}

unfoldable pub validate_user_input_submission :
    (Bytes → Bytes)
    → (Bytes → Bool)
    → InputLimits
    → Bytes
    → ExtractedUserInput
    → ℕ
    → ℕ
    → InputState
    → Validation
validate_user_input_submission get_hash writes limits user_pubkey e lcl_seq_no now s =
    let ordered_hash = uint64_to_string_bytes e.nonce ++ get_hash e.sig in
    let new_total_input_size = wrap64 (s.total_input_size + length e.input) in
    let (nonce_status, nonces) =
      check user_pubkey e.nonce e.sig e.max_ledger_seq_no false lcl_seq_no now s.nonce_map in
    let (view, store) = write_buf (writes e.input) (wrap32 (length e.input)) s.input_store in
    if not (limits.max_input_ledger_offset == 0)
      && ltb (wrap64 (lcl_seq_no + limits.max_input_ledger_offset)) e.max_ledger_seq_no
    then refuse ordered_hash max_ledger_offset_exceeded s
    else if leb e.max_ledger_seq_no lcl_seq_no
    then refuse ordered_hash max_ledger_expired s
    else if ltb 0 limits.user_input_bytes && ltb limits.user_input_bytes new_total_input_size
    then refuse ordered_hash round_inputs_overflow s
    else if ltb 0 nonce_status
    then refuse ordered_hash (nonce_reason nonce_status) (record s { nonce_map = nonces })
    else record {
      reason = none;
      ordered_hash = ordered_hash;
      input = view;
      state = (record {
        nonce_map = nonces;
        input_store = store;
        total_input_size = new_total_input_size;
      });
    }
