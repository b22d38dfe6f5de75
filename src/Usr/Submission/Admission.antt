-- ===== src/Usr/Submission/Admission.antt =====
-- When a user's input is taken, and what that changes.
use hpcore.Base.{ℕ, ◌+◌, ◌^◌, ◌≤◌, ◌<◌, ◌≡◌, ◌↔◌, ◌⊎◌, Bool, false, Bytes, none, arith, length}
use hpcore.Usr.NonceMap.{check}
use hpcore.Usr.Submission.{
  ExtractedUserInput, InputLimits, InputState, validate_user_input_submission,
}

-- An input is taken exactly when its limit lies ahead of the ledger and within the offset (if there
-- is one), the inputs of its user stay within the bytes of a round (if they are limited), and the
-- nonce map gives it the verdict 0. The sums of sequence numbers and of sizes fit in 64 bits.
pub accepted_exactly :
    (get_hash : Bytes → Bytes) (writes : Bytes → Bool) (limits : InputLimits) (pubkey : Bytes)
    (e : ExtractedUserInput) (lcl now : ℕ) (s : InputState)
    → lcl + limits.max_input_ledger_offset < 2 ^ 64
    → s.total_input_size + length e.input < 2 ^ 64
    → ((validate_user_input_submission get_hash writes limits pubkey e lcl now s).reason ≡ none) ↔ (
        (lcl < e.max_ledger_seq_no)
        × ((limits.max_input_ledger_offset ≡ 0)
            ⊎ (e.max_ledger_seq_no ≤ lcl + limits.max_input_ledger_offset))
        × ((limits.user_input_bytes ≡ 0)
            ⊎ (s.total_input_size + length e.input ≤ limits.user_input_bytes))
        × ((check pubkey e.nonce e.sig e.max_ledger_seq_no false lcl now s.nonce_map).0 ≡ 0))
unfolding validate_user_input_submission
accepted_exactly get_hash writes limits pubkey e lcl now s fits_ledger fits_size =
    (λ h. (ground arith, ground arith, ground arith, ground arith), λ h. ground arith)

-- Whatever the answer, a limited user's inputs of the round stay within the bytes allowed, and a
-- rejected input neither counts nor is stored. The sum of the sizes fits in 64 bits.
pub size_stays_limited :
    (get_hash : Bytes → Bytes) (writes : Bytes → Bool) (limits : InputLimits) (pubkey : Bytes)
    (e : ExtractedUserInput) (lcl now : ℕ) (s : InputState)
    → s.total_input_size + length e.input < 2 ^ 64
    → 0 < limits.user_input_bytes
    → s.total_input_size ≤ limits.user_input_bytes
    → let v = validate_user_input_submission get_hash writes limits pubkey e lcl now s in
      (v.state.total_input_size ≤ limits.user_input_bytes)
      × ((v.reason ≡ none)
          ⊎ ((v.state.total_input_size ≡ s.total_input_size)
              × (v.state.input_store ≡ s.input_store)))
unfolding validate_user_input_submission
size_stays_limited get_hash writes limits pubkey e lcl now s fits limited within =
    (ground arith, ground arith)
