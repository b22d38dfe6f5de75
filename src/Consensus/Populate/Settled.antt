-- ===== src/Consensus/Populate/Settled.antt =====
-- Every input that is validated becomes a candidate or has a response.
use hpcore.Base.{
  ℕ, ◌<◌, ◌≡◌, ◌⊎◌, inl, inr, refl, ap, subst, ◌∙◌, false, Bool-cases, true, ◌++◌, List, [], ◌∷◌,
  Option, none, some, Bytes, arith, All, length, map_emplace, bytes_ordered, bytes_keyed,
}
use hpcore.Util.BufferStore.{write_buf}
use hpcore.Usr.Submission.{
  ExtractedUserInput, InputLimits, Reason, Validation, uint64_to_string_bytes,
  validate_user_input_submission,
}
use hpcore.Usr.Inputs.{Formats}
use hpcore.Consensus.Types.{CandidateUserInput}
use hpcore.Consensus.Inputs.{Inputs, hash_suffix}
use hpcore.Consensus.Populate.Responses.{
  HasRejection, IsHeld, HasRejection-append, map_emplace_held, held-map_emplace,
}
use hpcore.Consensus.Populate.Authentic.{validated_key}
use hpcore.Consensus.Populate.{
  Environment, Population, rejected, offer, is_null, settle_input, validated, validate_input,
  validate_inputs,
}

module _ (x : Formats) (env : Environment) (limits : InputLimits) (lcl_seq_no : ℕ) where
  abbrev pub key_of : ExtractedUserInput → Bytes
  key_of e = uint64_to_string_bytes e.nonce ++ x.get_hash e.sig

  -- The input is a candidate or has been rejected.
  abbrev pub Settled : Population → ExtractedUserInput → Type 0
  Settled p e = IsHeld (key_of e) p.candidates ⊎ HasRejection (x.get_hash e.sig) p.responses

  offer-IsHeld :
      (key pubkey : Bytes) (e : ExtractedUserInput) (v : Validation) (candidates : Inputs)
      → IsHeld key candidates
      → IsHeld key (offer pubkey e v candidates)
  offer-IsHeld key pubkey e v candidates (ci, h) = elim (Bool-cases (is_null v.input)) [
    | inl null ↦ rw null (ci, h)
    | inr stored ↦ rw stored (
        held-map_emplace bytes_ordered key v.ordered_hash ci
          (record {
            user_pubkey = pubkey;
            input = v.input;
            max_ledger_seq_no = e.max_ledger_seq_no;
          })
          candidates h)
  ]

  settle-Settled :
      (o : Option Reason) (pubkey : Bytes) (e f : ExtractedUserInput) (v : Validation)
      (p : Population)
      → Settled p f
      → Settled (settle_input o pubkey e v p) f
  unfolding settle_input
  settle-Settled none pubkey e f v p (inl h) =
      inl (offer-IsHeld (key_of f) pubkey e v p.candidates h)
  settle-Settled none pubkey e f v p (inr h) = inr h
  settle-Settled (some reason) pubkey e f v p (inl h) = inl h
  settle-Settled (some reason) pubkey e f v p (inr h) = inr (
      HasRejection-append (x.get_hash f.sig) p.responses
        (rejected (hash_suffix v.ordered_hash) reason ∷ []) (inl h))

  validate_inputs_keep :
      (pubkey : Bytes) (es : List ExtractedUserInput) (f : ExtractedUserInput) (p : Population)
      → Settled p f
      → Settled (validate_inputs x env limits lcl_seq_no pubkey es p) f
  unfolding validate_inputs validate_input
  validate_inputs_keep pubkey [] f p h = h
  validate_inputs_keep pubkey (e ∷ es) f p h =
      let v = validated x env limits lcl_seq_no pubkey e p in
      validate_inputs_keep pubkey es f (settle_input v.reason pubkey e v p)
        (settle-Settled v.reason pubkey e f v p h)

  -- Hashes have 32 bytes, and every input can be written.
  module _ (sized : (m : Bytes) → length (x.get_hash m) ≡ 32)
      (writable : (n : ℕ) (m : Bytes) → env.pwrite n m ≡ true) where
    suffix_of_key : (e : ExtractedUserInput) → hash_suffix (key_of e) ≡ x.get_hash e.sig
    suffix_of_key e = rw (sized e.sig) refl

    validated_stored :
        (pubkey : Bytes) (e : ExtractedUserInput) (p : Population)
        → 0 < p.input_store.next_write_pos
        → (validated x env limits lcl_seq_no pubkey e p).reason ≡ none
        → is_null (validated x env limits lcl_seq_no pubkey e p).input ≡ false
    unfolding validate_user_input_submission write_buf
    validated_stored pubkey e p h k = ground (arith, writable p.validations e.input)

    validated_ahead :
        (pubkey : Bytes) (e : ExtractedUserInput) (p : Population)
        → 0 < p.input_store.next_write_pos
        → 0 < (validated x env limits lcl_seq_no pubkey e p).state.input_store.next_write_pos
    unfolding validate_user_input_submission write_buf
    validated_ahead pubkey e p h = rw (writable p.validations e.input) (ground arith)

    settle_settles :
        (o : Option Reason) (pubkey : Bytes) (e : ExtractedUserInput) (v : Validation)
        (p : Population)
        → v.ordered_hash ≡ key_of e
        → (o ≡ none → is_null v.input ≡ false)
        → Settled (settle_input o pubkey e v p) e
    unfolding settle_input
    settle_settles none pubkey e v p key stored =
        let ci : CandidateUserInput = record {
          user_pubkey = pubkey;
          input = v.input;
          max_ledger_seq_no = e.max_ledger_seq_no;
        } in
        inl (
          rw (stored refl) (
            subst (λ k. IsHeld k (map_emplace bytes_ordered v.ordered_hash ci p.candidates)) key
              (map_emplace_held bytes_ordered v.ordered_hash ci p.candidates)))
    settle_settles (some reason) pubkey e v p key stored = inr (
        HasRejection-append (x.get_hash e.sig) p.responses
          (rejected (hash_suffix v.ordered_hash) reason ∷ [])
          (inr (inl (ap hash_suffix key ∙ suffix_of_key e, reason, refl))))

    settle_store :
        (o : Option Reason) (pubkey : Bytes) (e : ExtractedUserInput) (v : Validation)
        (p : Population)
        → (settle_input o pubkey e v p).input_store ≡ v.state.input_store
    unfolding settle_input
    settle_store none pubkey e v p = refl
    settle_store (some reason) pubkey e v p = refl

    pub validate_inputs-Settled :
        (pubkey : Bytes) (es : List ExtractedUserInput) (p : Population)
        → 0 < p.input_store.next_write_pos
        → All (Settled (validate_inputs x env limits lcl_seq_no pubkey es p)) es
    unfolding validate_inputs validate_input
    validate_inputs-Settled pubkey [] p h = tt
    validate_inputs-Settled pubkey (e ∷ es) p h =
        let v = validated x env limits lcl_seq_no pubkey e p in
        let p' = settle_input v.reason pubkey e v p in
        (
          validate_inputs_keep pubkey es e p' (
              settle_settles v.reason pubkey e v p
                (validated_key x lcl_seq_no env limits pubkey e p) (validated_stored pubkey e p h)),
          validate_inputs-Settled pubkey es p'
              (rw (settle_store v.reason pubkey e v p) (validated_ahead pubkey e p h)),
        )
