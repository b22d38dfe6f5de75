-- ===== src/Usr/Users/Requests/Refusals.antt =====
-- A message that is refused changes nothing.
use hpcore.Base.{
  ℕ, ◌≡◌, ◌⊎◌, inl, inr, refl, sym, ap, ◌∙◌, not, ◌||◌, ◌==◌, Bool, true, false, [], ◌∷◌, Option,
  none, some, Bytes, Bool-cases,
}
use hpcore.Util.SequenceHash.{h32_empty}
use hpcore.Usr.NonceMap.{NonceMap}
use hpcore.Usr.Submission.{Reason, bad_msg_format, invalid_msg_type}
use hpcore.Usr.Inputs.{InputContainer, Formats}
use hpcore.Usr.Users.{Channel, ConnectedUser}
use hpcore.Usr.Users.Requests.{
  MsgType, contract_read_request, contract_input, stat, lcl, subscription, ledger_query, other_type,
  Parser, ServeConfig, input_status, Served, take_input, take_signed, take_read, take_subscription,
  take_query, dispatch, handle_authed_user_message,
}
use hpcore.Usr.Users.Requests.Taking.{take_input_cases}

-- A refusal: nothing is passed on, the user stays as it is, and at most a rejection is sent.
abbrev pub IsRefusal : ConnectedUser → Served → Type 0
IsRefusal user r =
    (r.user ≡ user)
    × (r.reads ≡ [])
    × ((r.sent ≡ [])
        ⊎ ((reason : Reason) × (hash : Bytes) × (r.sent
              ≡ input_status (some reason) hash 0 h32_empty ∷ [])))

module _ (x : Formats) (parser : Parser) (cfg : ServeConfig) (lcl_seq_no now : ℕ) where
  take_input-IsRefusal :
      (container sig : Bytes) (o : Option InputContainer) (user : ConnectedUser) (m : NonceMap)
      → (take_input x parser cfg lcl_seq_no now container sig o user m).ok ≡ false
      → IsRefusal user (take_input x parser cfg lcl_seq_no now container sig o user m)
  take_input-IsRefusal container sig none user m h =
      unfold take_input in (refl, refl, inr (bad_msg_format, x.get_hash sig, refl))
  take_input-IsRefusal container sig (some c) user m h =
      elim (take_input_cases x parser cfg lcl_seq_no now container sig c user m) [
        | inl (reason, nonces, e) ↦ rw e (refl, refl, inr (reason, x.get_hash sig, refl))
        | inr (nonces, within, e) ↦
            let h' : true ≡ false = ap (λ r. r.ok) (sym e) ∙ h in absurd (cc)
      ]

  take_signed-IsRefusal :
      (o : Option (Bytes × Bytes)) (user : ConnectedUser) (m : NonceMap)
      → (take_signed x parser cfg lcl_seq_no now o user m).ok ≡ false
      → IsRefusal user (take_signed x parser cfg lcl_seq_no now o user m)
  unfolding take_signed
  take_signed-IsRefusal none user m h = (refl, refl, inr (bad_msg_format, x.get_hash [], refl))
  take_signed-IsRefusal (some (container, sig)) user m h =
      take_input-IsRefusal container sig (x.extract_input_container user.protocol container) user m
        h

  read-IsRefusal :
      (o : Option (Bytes × Bytes)) (user : ConnectedUser) (m : NonceMap)
      → (take_read o user m).ok ≡ false
      → IsRefusal user (take_read o user m)
  read-IsRefusal none user m h = (refl, refl, inr (bad_msg_format, [], refl))
  read-IsRefusal (some request) user m h = absurd (cc)

  subscription-IsRefusal :
      (o : Option (Channel × Bool)) (user : ConnectedUser) (m : NonceMap)
      → (take_subscription o user m).ok ≡ false
      → IsRefusal user (take_subscription o user m)
  subscription-IsRefusal none user m h = (refl, refl, inl refl)
  subscription-IsRefusal (some (channel, enabled)) user m h = absurd (cc)

  query-IsRefusal :
      (o : Option (Bytes × Bytes)) (user : ConnectedUser) (m : NonceMap)
      → (take_query o user m).ok ≡ false
      → IsRefusal user (take_query o user m)
  query-IsRefusal none user m h = (refl, refl, inl refl)
  query-IsRefusal (some (id, query)) user m h = absurd (cc)

  dispatch-IsRefusal :
      (type : MsgType) (message : Bytes) (user : ConnectedUser) (m : NonceMap)
      → (dispatch x parser cfg lcl_seq_no now type message user m).ok ≡ false
      → IsRefusal user (dispatch x parser cfg lcl_seq_no now type message user m)
  unfolding dispatch
  dispatch-IsRefusal contract_read_request message user m h =
      elim (Bool-cases (not cfg.execute || (cfg.concurrent_read_requests == 0))) [
        | inl ignored ↦ let h' : true ≡ false = rw ignored at h in absurd (cc)
        | inr served ↦ rw served (
            read-IsRefusal (parser.extract_read_request user.protocol message) user m
              (rw served at h))
      ]
  dispatch-IsRefusal contract_input message user m h =
      take_signed-IsRefusal (parser.extract_signed_input_container user.protocol message) user m h
  dispatch-IsRefusal stat message user m h = absurd (cc)
  dispatch-IsRefusal lcl message user m h = absurd (cc)
  dispatch-IsRefusal subscription message user m h =
      subscription-IsRefusal (parser.extract_subscription_request user.protocol message) user m h
  dispatch-IsRefusal ledger_query message user m h =
      query-IsRefusal (parser.extract_ledger_query user.protocol message) user m h
  dispatch-IsRefusal other_type message user m h = (refl, refl, inr (invalid_msg_type, [], refl))

  -- If the message of a user is refused, then the user stays as it is, no read request is passed on, and
  -- nothing is sent but at most one rejection.
  pub refused_changes_nothing :
      (message : Bytes) (user : ConnectedUser) (m : NonceMap)
      → (handle_authed_user_message x parser cfg lcl_seq_no now message user m).ok ≡ false
      → IsRefusal user (handle_authed_user_message x parser cfg lcl_seq_no now message user m)
  unfolding handle_authed_user_message
  refused_changes_nothing message user m h =
      elim (Bool-cases (parser.parse user.protocol message)) [
        | inl parsed ↦ rw parsed (
            dispatch-IsRefusal (parser.extract_type user.protocol message) message user m
              (rw parsed at h))
        | inr bad ↦ rw bad (refl, refl, inr (bad_msg_format, [], refl))
      ]
