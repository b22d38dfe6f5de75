-- ===== src/Consensus/Populate/Authentic.antt =====
-- Where the candidate inputs come from: each new one was signed by its user and has a ledger ahead.
use hpcore.Base.{
  ℕ, ◌<◌, ◌≡◌, ◌⊎◌, refl, inl, inr, Bool-cases, true, ◌++◌, List, [], ◌∷◌, Option, none, some,
  Bytes, arith, All, All-mono, Ordered, bytes_ordered, map_emplace,
}
use hpcore.Util.BufferStore.{BufferStore}
use hpcore.Usr.NonceMap.{NonceMap}
use hpcore.Usr.Submission.{
  ExtractedUserInput, InputLimits, Reason, Validation, uint64_to_string_bytes,
  validate_user_input_submission,
}
use hpcore.Usr.Inputs.{
  SubmittedUserInput, InputContainer, Formats, Extracted, refused, extracted, take_container,
  extract_submitted_input, insert_by_nonce, sort_inputs,
}
use hpcore.Consensus.Types.{Context, CandidateUserInput}
use hpcore.Consensus.Inputs.{Inputs}
use hpcore.Consensus.Populate.{
  NonunlProposal, InputGroups, Environment, Population, Walked, Extraction, sort_out,
  extract_inputs, settle_input, validated, validate_input, validate_inputs, populate_user,
  populate_users, group_inputs, verify_and_populate_candidate_user_inputs, is_null,
}

All-map_emplace {ℓ κ ι} :
    {K : Type ℓ} {V : Type κ} (o : Ordered K) (P : K × V → Type ι) (q : K) (v : V)
    (m : List (K × V))
    → P (q, v)
    → All P m
    → All P (map_emplace o q v m)
unfolding map_emplace
All-map_emplace o P q v [] h hs = (h, tt)
All-map_emplace o P q v ((j, w) ∷ m) h hs = elim (Bool-cases (o.lt q j)) [
  | inl below ↦ rw below (h, hs)
  | inr other ↦ elim (Bool-cases (o.lt j q)) [
    | inl above ↦ rw (other, above) (hs.0, All-map_emplace o P q v m h hs.1)
    | inr same ↦ rw (other, same) hs
  ]
]

All-insert_by_nonce {ι} :
    (P : ExtractedUserInput → Type ι) (e : ExtractedUserInput) (es : List ExtractedUserInput)
    → P e
    → All P es
    → All P (insert_by_nonce e es)
unfolding insert_by_nonce
All-insert_by_nonce P e [] h hs = (h, tt)
All-insert_by_nonce P e (y ∷ ys) h hs = ground (arith, All-insert_by_nonce P e ys h hs.1)

All-sort_inputs {ι} :
    (P : ExtractedUserInput → Type ι) (es : List ExtractedUserInput)
    → All P es
    → All P (sort_inputs es)
unfolding sort_inputs
All-sort_inputs P [] hs = tt
All-sort_inputs P (e ∷ es) hs =
    All-insert_by_nonce P e (sort_inputs es) hs.0 (All-sort_inputs P es hs.1)

module _ (x : Formats) where
  -- A user's signature is on a container that holds what is extracted.
  abbrev IsSigned : Bytes → ExtractedUserInput → Type 0
  IsSigned pubkey e =
      (s : SubmittedUserInput) × (c : InputContainer) × (x.verify s.input_container s.sig pubkey
        ≡ true)
      × (x.extract_input_container s.protocol s.input_container ≡ some c)
      × (e ≡ record {
        input = c.input;
        nonce = c.nonce;
        max_ledger_seq_no = c.max_ledger_seq_no;
        sig = s.sig;
      })

  take_container-IsSigned :
      (pubkey : Bytes) (s : SubmittedUserInput) (o : Option InputContainer) (e : ExtractedUserInput)
      → x.verify s.input_container s.sig pubkey ≡ true
      → x.extract_input_container s.protocol s.input_container ≡ o
      → take_container s o ≡ extracted e
      → IsSigned pubkey e
  take_container-IsSigned pubkey s none e v h k = cc
  take_container-IsSigned pubkey s (some c) e v h k = (s, c, v, h, cc)

  extract-IsSigned :
      (pubkey : Bytes) (s : SubmittedUserInput) (e : ExtractedUserInput)
      → extract_submitted_input x pubkey s ≡ extracted e
      → IsSigned pubkey e
  unfolding extract_submitted_input
  extract-IsSigned pubkey s e h = elim (Bool-cases (x.verify s.input_container s.sig pubkey)) [
    | inl good ↦
        take_container-IsSigned pubkey s (x.extract_input_container s.protocol s.input_container) e
          good refl (rw good at h)
    | inr bad ↦ let h' : refused Reason.bad_sig ≡ extracted e = rw bad at h in cc
  ]

  sort_out-IsSigned :
      (pubkey : Bytes) (s : SubmittedUserInput) (t : Extracted) (r : Extraction)
      → ((e : ExtractedUserInput) → t ≡ extracted e → IsSigned pubkey e)
      → All (IsSigned pubkey) r.0
      → All (IsSigned pubkey) (sort_out x s t r).0
  sort_out-IsSigned pubkey s (refused reason) r f hs = hs
  sort_out-IsSigned pubkey s (extracted e) r f hs = (f e refl, hs)

  extract_inputs-IsSigned :
      (pubkey : Bytes) (submitted : List SubmittedUserInput)
      → All (IsSigned pubkey) (extract_inputs x pubkey submitted).0
  unfolding extract_inputs
  extract_inputs-IsSigned pubkey [] = tt
  extract_inputs-IsSigned pubkey (s ∷ rest) =
      sort_out-IsSigned pubkey s (extract_submitted_input x pubkey s) (extract_inputs x pubkey rest)
        (extract-IsSigned pubkey s) (extract_inputs-IsSigned pubkey rest)

-- The entry is one of those.
abbrev pub IsAmong : Inputs → Bytes × CandidateUserInput → Type 0
IsAmong [] e = ⊥
IsAmong (d ∷ ds) e = (d ≡ e) ⊎ IsAmong ds e

All-IsAmong : (m : Inputs) → All (IsAmong m) m
All-IsAmong [] = tt
All-IsAmong (d ∷ ds) =
    (inl refl, All-mono (IsAmong ds) (IsAmong (d ∷ ds)) ds (λ e h. inr h) (All-IsAmong ds))

module _ (x : Formats) (lcl_seq_no : ℕ) where
  -- The candidate is a signed input of its user, under the key of that input, and its ledger is ahead.
  abbrev pub IsAuthentic : Bytes × CandidateUserInput → Type 0
  IsAuthentic (ordered_hash, ci) =
      (s : SubmittedUserInput) × (c : InputContainer) × (x.verify s.input_container s.sig
          ci.user_pubkey
        ≡ true)
      × (x.extract_input_container s.protocol s.input_container ≡ some c)
      × (ordered_hash ≡ uint64_to_string_bytes c.nonce ++ x.get_hash s.sig)
      × (ci.max_ledger_seq_no ≡ c.max_ledger_seq_no)
      × (lcl_seq_no < ci.max_ledger_seq_no)

  -- The entry was there before, or is a new authentic one.
  abbrev pub HasOrigin : Inputs → Bytes × CandidateUserInput → Type 0
  HasOrigin before e = IsAmong before e ⊎ IsAuthentic e

  module _ (env : Environment) (limits : InputLimits) where
    pub validated_key :
        (pubkey : Bytes) (e : ExtractedUserInput) (p : Population)
        → (validated x env limits lcl_seq_no pubkey e p).ordered_hash
          ≡ uint64_to_string_bytes e.nonce ++ x.get_hash e.sig
    unfolding validate_user_input_submission
    validated_key pubkey e p = ground arith

    validated_ahead :
        (pubkey : Bytes) (e : ExtractedUserInput) (p : Population)
        → (validated x env limits lcl_seq_no pubkey e p).reason ≡ none
        → lcl_seq_no < e.max_ledger_seq_no
    unfolding validate_user_input_submission
    validated_ahead pubkey e p h = ground arith

    settle-HasOrigin :
        (before : Inputs) (o : Option Reason) (pubkey : Bytes) (e : ExtractedUserInput)
        (v : Validation) (p : Population)
        → IsSigned x pubkey e
        → v.ordered_hash ≡ uint64_to_string_bytes e.nonce ++ x.get_hash e.sig
        → (o ≡ none → lcl_seq_no < e.max_ledger_seq_no)
        → All (HasOrigin before) p.candidates
        → All (HasOrigin before) (settle_input o pubkey e v p).candidates
    unfolding settle_input
    settle-HasOrigin before none pubkey e v p (s, c, good, held, same) key ahead hs =
        elim (Bool-cases (is_null v.input)) [
          | inl null ↦ rw null hs
          | inr stored ↦ rw stored (
              All-map_emplace bytes_ordered (HasOrigin before) v.ordered_hash _ p.candidates
                (inr (s, c, good, held, cc, cc, ahead refl)) hs)
        ]
    settle-HasOrigin before (some reason) pubkey e v p signed key ahead hs = hs

    validate_inputs-HasOrigin :
        (before : Inputs) (pubkey : Bytes) (es : List ExtractedUserInput) (p : Population)
        → All (IsSigned x pubkey) es
        → All (HasOrigin before) p.candidates
        → All (HasOrigin before) (validate_inputs x env limits lcl_seq_no pubkey es p).candidates
    unfolding validate_inputs validate_input
    validate_inputs-HasOrigin before pubkey [] p signed hs = hs
    validate_inputs-HasOrigin before pubkey (e ∷ es) p signed hs =
        let v = validated x env limits lcl_seq_no pubkey e p in
        validate_inputs-HasOrigin before pubkey es (settle_input v.reason pubkey e v p) signed.1 (
          settle-HasOrigin before v.reason pubkey e v p signed.0 (validated_key pubkey e p)
            (validated_ahead pubkey e p) hs)

    populate_users-HasOrigin :
        (before : Inputs) (groups : InputGroups) (w : Walked)
        → All (HasOrigin before) w.population.candidates
        → All
            (HasOrigin before)
            (populate_users x env limits lcl_seq_no groups w).population.candidates
    unfolding populate_users populate_user
    populate_users-HasOrigin before [] w hs = hs
    populate_users-HasOrigin before ((pubkey, submitted) ∷ rest) w hs =
        let es = (extract_inputs x pubkey submitted).0 in
        populate_users-HasOrigin before rest
          (populate_user x env limits lcl_seq_no pubkey submitted w)
          (validate_inputs-HasOrigin before pubkey (sort_inputs es)
            (record w.population { total_input_size = 0; responses = [] })
            (All-sort_inputs (IsSigned x pubkey) es (extract_inputs-IsSigned x pubkey submitted))
            hs)

    -- When the inputs that have come in are added, whoever sent them, each candidate input after that was
    -- there before, or it is signed by its user, stands under the key of that signed input, keeps its limit
    -- and has a ledger ahead of the last one.
    pub candidates-IsAuthentic :
        (collected : List NonunlProposal) (nonce_map : NonceMap) (input_store : BufferStore)
        (ctx : Context)
        → All
            (HasOrigin ctx.candidate_user_inputs)
            (verify_and_populate_candidate_user_inputs x env limits lcl_seq_no collected nonce_map
              input_store ctx).1.candidate_user_inputs
    unfolding verify_and_populate_candidate_user_inputs
    candidates-IsAuthentic collected nonce_map input_store ctx =
        populate_users-HasOrigin ctx.candidate_user_inputs (group_inputs collected []) _ (
          All-mono (IsAmong ctx.candidate_user_inputs) (HasOrigin ctx.candidate_user_inputs)
            ctx.candidate_user_inputs (λ e h. inl h) (All-IsAmong ctx.candidate_user_inputs))
