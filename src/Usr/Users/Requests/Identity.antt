-- ===== src/Usr/Users/Requests/Identity.antt =====
-- Serving a message leaves the key and the session of a user as they are.
use hpcore.Base.{
  ℕ, ◌≡◌, inl, inr, refl, not, ◌||◌, ◌==◌, Bool, Option, none, some, Bytes, Bool-cases,
}
use hpcore.Usr.NonceMap.{NonceMap}
use hpcore.Usr.Inputs.{InputContainer, Formats}
use hpcore.Usr.Users.{Channel, ConnectedUser}
use hpcore.Usr.Users.Requests.{
  MsgType, contract_read_request, contract_input, stat, lcl, subscription, ledger_query, other_type,
  Parser, ServeConfig, take_input, take_signed, take_read, take_subscription, take_query, dispatch,
  handle_authed_user_message,
}
use hpcore.Usr.Users.Requests.Taking.{take_input_cases}

abbrev pub IsSameUser : ConnectedUser → ConnectedUser → Type 0
IsSameUser u v = (v.pubkey ≡ u.pubkey) × (v.session ≡ u.session)

module _ (x : Formats) (parser : Parser) (cfg : ServeConfig) (lcl_seq_no now : ℕ) where
  take_input-IsSameUser :
      (container sig : Bytes) (o : Option InputContainer) (user : ConnectedUser) (m : NonceMap)
      → IsSameUser user (take_input x parser cfg lcl_seq_no now container sig o user m).user
  take_input-IsSameUser container sig none user m = unfold take_input in (refl, refl)
  take_input-IsSameUser container sig (some c) user m =
      elim (take_input_cases x parser cfg lcl_seq_no now container sig c user m) [
        | inl (reason, nonces, e) ↦ rw e (refl, refl)
        | inr (nonces, within, e) ↦ rw e (refl, refl)
      ]

  take_signed-IsSameUser :
      (o : Option (Bytes × Bytes)) (user : ConnectedUser) (m : NonceMap)
      → IsSameUser user (take_signed x parser cfg lcl_seq_no now o user m).user
  unfolding take_signed
  take_signed-IsSameUser none user m = (refl, refl)
  take_signed-IsSameUser (some (container, sig)) user m =
      take_input-IsSameUser container sig (x.extract_input_container user.protocol container) user m

  read-IsSameUser :
      (o : Option (Bytes × Bytes)) (user : ConnectedUser) (m : NonceMap)
      → IsSameUser user (take_read o user m).user
  read-IsSameUser none user m = (refl, refl)
  read-IsSameUser (some request) user m = (refl, refl)

  subscription-IsSameUser :
      (o : Option (Channel × Bool)) (user : ConnectedUser) (m : NonceMap)
      → IsSameUser user (take_subscription o user m).user
  subscription-IsSameUser none user m = (refl, refl)
  subscription-IsSameUser (some (channel, enabled)) user m = (refl, refl)

  query-IsSameUser :
      (o : Option (Bytes × Bytes)) (user : ConnectedUser) (m : NonceMap)
      → IsSameUser user (take_query o user m).user
  query-IsSameUser none user m = (refl, refl)
  query-IsSameUser (some (id, query)) user m = (refl, refl)

  dispatch-IsSameUser :
      (type : MsgType) (message : Bytes) (user : ConnectedUser) (m : NonceMap)
      → IsSameUser user (dispatch x parser cfg lcl_seq_no now type message user m).user
  unfolding dispatch
  dispatch-IsSameUser contract_read_request message user m =
      elim (Bool-cases (not cfg.execute || (cfg.concurrent_read_requests == 0))) [
        | inl ignored ↦ rw ignored (refl, refl)
        | inr passed ↦
            rw passed (read-IsSameUser (parser.extract_read_request user.protocol message) user m)
      ]
  dispatch-IsSameUser contract_input message user m =
      take_signed-IsSameUser (parser.extract_signed_input_container user.protocol message) user m
  dispatch-IsSameUser stat message user m = (refl, refl)
  dispatch-IsSameUser lcl message user m = (refl, refl)
  dispatch-IsSameUser subscription message user m =
      subscription-IsSameUser (parser.extract_subscription_request user.protocol message) user m
  dispatch-IsSameUser ledger_query message user m =
      query-IsSameUser (parser.extract_ledger_query user.protocol message) user m
  dispatch-IsSameUser other_type message user m = (refl, refl)

  pub message-IsSameUser :
      (message : Bytes) (user : ConnectedUser) (m : NonceMap)
      → IsSameUser user (handle_authed_user_message x parser cfg lcl_seq_no now message user m).user
  unfolding handle_authed_user_message
  message-IsSameUser message user m = elim (Bool-cases (parser.parse user.protocol message)) [
    | inl parsed ↦
        rw parsed (dispatch-IsSameUser (parser.extract_type user.protocol message) message user m)
    | inr bad ↦ rw bad (refl, refl)
  ]
