-- ===== src/Consensus/Populate/Told.antt =====
-- A rejection is sent to the user, unless it is of an input that was submitted already.
use hpcore.Base.{ℕ, ◌≡◌, ◌⊎◌, inl, inr, refl, ap, ◌∙◌, true, Bool-cases, List, [], ◌∷◌, some, Bytes}
use hpcore.Util.SequenceHash.{H32}
use hpcore.Usr.Submission.{
  Reason, max_ledger_offset_exceeded, max_ledger_expired, round_inputs_overflow, nonce_expired,
  already_submitted, bad_sig, bad_msg_format, invalid_msg_type,
}
use hpcore.Usr.Inputs.{InputStatusResponse}
use hpcore.Usr.Users.Requests.{input_status}
use hpcore.Usr.Users.Notifications.{Sent, is_already_submitted, send_to_user}
use hpcore.Consensus.Populate.Responses.{HasRejection}

-- The session is sent a rejection of the input of that hash.
abbrev pub IsTold : ℕ → Bytes → Sent → Type 0
IsTold session hash [] = ⊥
IsTold session hash ((id, message) ∷ rest) =
    ((id ≡ session)
      × (reason : Reason) × (seq_no : ℕ) × (ledger : H32) × (message
          ≡ input_status (some reason) hash seq_no ledger))
    ⊎ IsTold session hash rest

-- The input of that hash is rejected as one that was submitted already.
abbrev pub IsDuplicate : Bytes → List InputStatusResponse → Type 0
IsDuplicate hash [] = ⊥
IsDuplicate hash (r ∷ rs) =
    ((r.input_hash ≡ hash) × (r.reject_reason ≡ some already_submitted)) ⊎ IsDuplicate hash rs

duplicate_reason :
    (reason : Reason) → is_already_submitted (some reason) ≡ true → reason ≡ already_submitted
duplicate_reason already_submitted h = refl
duplicate_reason max_ledger_offset_exceeded h = cc
duplicate_reason max_ledger_expired h = cc
duplicate_reason round_inputs_overflow h = cc
duplicate_reason nonce_expired h = cc
duplicate_reason bad_sig h = cc
duplicate_reason bad_msg_format h = cc
duplicate_reason invalid_msg_type h = cc

module _ (seq_no : ℕ) (ledger : H32) (session : ℕ) where
  abbrev Outcome : Bytes → List InputStatusResponse → Type 0
  Outcome hash rs =
      IsTold session hash (send_to_user seq_no ledger session rs) ⊎ IsDuplicate hash rs

  Outcome-cons :
      (hash : Bytes) (r : InputStatusResponse) (rs : List InputStatusResponse)
      → Outcome hash rs
      → Outcome hash (r ∷ rs)
  unfolding send_to_user
  Outcome-cons hash r rs (inr h) = inr (inr h)
  Outcome-cons hash r rs (inl h) = elim (Bool-cases (is_already_submitted r.reject_reason)) [
    | inl already ↦ inl (rw already h)
    | inr other ↦ inl (rw other (inr h))
  ]

  pub rejection_told :
      (hash : Bytes) (rs : List InputStatusResponse) → HasRejection hash rs → Outcome hash rs
  unfolding send_to_user
  rejection_told hash [] h = elim h [ ]
  rejection_told hash (r ∷ rs) (inr h) = Outcome-cons hash r rs (rejection_told hash rs h)
  rejection_told hash (r ∷ rs) (inl (same, reason, e)) =
      elim (Bool-cases (is_already_submitted (some reason))) [
        | inl already ↦ inr (inl (same, e ∙ ap some (duplicate_reason reason already)))
        | inr other ↦ inl (rw (e, other, same) (inl (refl, reason, _, _, refl)))
      ]
