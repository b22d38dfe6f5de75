-- ===== src/Consensus/Populate/Answered.antt =====
-- Every input that a user submits becomes a candidate, is answered with a rejection, or is one that was
-- submitted already.
use hpcore.Base.{ℕ, ◌≡◌, ◌⊎◌, true, List, Bytes, length, bytes_ordered, bytes_keyed}
use hpcore.Usr.Submission.{ExtractedUserInput, InputLimits}
use hpcore.Usr.Inputs.{
  SubmittedUserInput, Formats, InputStatusResponse, extracted, extract_submitted_input,
}
use hpcore.Consensus.Inputs.{Inputs}
use hpcore.Consensus.Populate.Responses.{HasRejection, IsHeld}
use hpcore.Consensus.Populate.{Environment}
use hpcore.Util.SequenceHash.{H32}
use hpcore.Usr.Users.Notifications.{send_to_user}
use hpcore.Consensus.Populate.Told.{IsTold, IsDuplicate}
use hpcore.Consensus.Populate.Settled.{key_of, Settled}

module _ (x : Formats) (env : Environment) (limits : InputLimits) (lcl_seq_no : ℕ) where
  -- Hashes have 32 bytes, and every input can be written.
  module _ (sized : (m : Bytes) → length (x.get_hash m) ≡ 32)
      (writable : (n : ℕ) (m : Bytes) → env.pwrite n m ≡ true) where
    -- What became of a submitted input: it is a candidate, or a rejection of it is among these.
    abbrev pub IsAnswered : Bytes → Inputs → List InputStatusResponse → SubmittedUserInput → Type 0
    IsAnswered pubkey candidates responses s =
        ((e : ExtractedUserInput) × (extract_submitted_input x pubkey s ≡ extracted e)
          × IsHeld (key_of x env limits lcl_seq_no e) candidates)
        ⊎ HasRejection (x.get_hash s.sig) responses

    -- What became of a submitted input: it is a candidate, the session of its user is sent a rejection of
    -- it, or it is rejected as submitted already, of which nothing is sent.
    abbrev pub IsServed :
        ℕ → H32 → ℕ → Bytes → Inputs → List InputStatusResponse → SubmittedUserInput → Type 0
    IsServed seq_no ledger session pubkey candidates responses s =
        ((e : ExtractedUserInput) × (extract_submitted_input x pubkey s ≡ extracted e)
          × IsHeld (key_of x env limits lcl_seq_no e) candidates)
        ⊎ (IsTold session (x.get_hash s.sig) (send_to_user seq_no ledger session responses)
            ⊎ IsDuplicate (x.get_hash s.sig) responses)
