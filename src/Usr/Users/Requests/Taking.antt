-- ===== src/Usr/Users/Requests/Taking.antt =====
-- What becomes of an input that can be extracted.
use hpcore.Base.{
  ℕ, ◌+◌, ◌≡◌, ◌⊎◌, inl, inr, not, ◌&&◌, ltb, leb, ◌==◌, Bool, true, false, [], some, Bytes, length,
  wrap64, Bool-cases,
}
use hpcore.Usr.NonceMap.{NonceMap, check}
use hpcore.Usr.Submission.{
  Reason, max_ledger_offset_exceeded, max_ledger_expired, round_inputs_overflow, nonce_reason,
}
use hpcore.Usr.Inputs.{InputContainer, Formats}
use hpcore.Usr.Users.{ConnectedUser}
use hpcore.Usr.Users.Requests.{Parser, ServeConfig, Served, answer, reject, collect, take_input}

abbrev pub overflows : ℕ → ℕ → ℕ → Bool
overflows limit collected size = ltb 0 limit && ltb limit (wrap64 (collected + size))

abbrev pub too_far : ℕ → ℕ → ℕ → Bool
too_far offset lcl_seq_no max_ledger_seq_no =
    not (offset == 0) && ltb (wrap64 (lcl_seq_no + offset)) max_ledger_seq_no

module _ (x : Formats) (parser : Parser) (cfg : ServeConfig) (lcl_seq_no now : ℕ) where
  -- The input is rejected, or it fits and is collected.
  abbrev pub Taken : Bytes → Bytes → InputContainer → ConnectedUser → Served → Type 0
  Taken container sig c user r =
      ((reason : Reason) × (nonces : NonceMap) × (r ≡ reject reason (x.get_hash sig) user nonces))
      ⊎ ((nonces : NonceMap) × (overflows cfg.limits.user_input_bytes user.collected_input_size
              (length c.input)
            ≡ false)
          × (r ≡ answer [] (collect container sig c user) nonces))

  pub take_input_cases :
      (container sig : Bytes) (c : InputContainer) (user : ConnectedUser) (m : NonceMap)
      → Taken container sig c user
          (take_input x parser cfg lcl_seq_no now container sig (some c) user m)
  unfolding take_input
  take_input_cases container sig c user m =
      let (status, nonces) =
        check user.pubkey c.nonce sig c.max_ledger_seq_no true lcl_seq_no now m in
      elim (Bool-cases
        (too_far cfg.limits.max_input_ledger_offset lcl_seq_no c.max_ledger_seq_no)) [
          | inl far ↦ inl (max_ledger_offset_exceeded, m, rw far)
          | inr near ↦ elim (Bool-cases (leb c.max_ledger_seq_no lcl_seq_no)) [
            | inl over ↦ inl (max_ledger_expired, m, rw (near, over))
            | inr ahead ↦
                elim (Bool-cases (
                  overflows cfg.limits.user_input_bytes user.collected_input_size
                    (length c.input))) [
                      | inl much ↦ inl (round_inputs_overflow, m, rw (near, ahead, much))
                      | inr fits ↦ elim (Bool-cases (status == 0)) [
                        | inl free ↦ inr (nonces, fits, rw (near, ahead, fits, free))
                        | inr used ↦ inl (nonce_reason status, nonces, rw (near, ahead, fits, used))
                      ]
                    ]
          ]
        ]
