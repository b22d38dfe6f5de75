-- ===== src/Usr/Users/Requests/Tally.antt =====
-- The size of the inputs that a user has submitted is counted and limited.
use hpcore.Base.{
  ℕ, ◌+◌, ◌^◌, ◌≤◌, ◌<◌, ◌≡◌, inl, inr, refl, not, ◌||◌, ◌==◌, Bool, false, ◌++◌, List, [], ◌∷◌,
  Option, none, some, Bytes, arith, length, Bool-cases,
}
use hpcore.Usr.NonceMap.{NonceMap}
use hpcore.Usr.Inputs.{Protocol, SubmittedUserInput, InputContainer, Formats}
use hpcore.Usr.Users.{Channel, ConnectedUser}
use hpcore.Usr.Users.Requests.{
  MsgType, contract_read_request, contract_input, stat, lcl, subscription, ledger_query, other_type,
  Parser, ServeConfig, collect, take_input, take_signed, take_read, take_subscription, take_query,
  dispatch, handle_authed_user_message,
}
use hpcore.Usr.Users.Requests.Taking.{overflows, take_input_cases}

abbrev pub size_of : Option InputContainer → ℕ
size_of none = 0
size_of (some c) = length c.input

-- The bytes of the inputs in a user's containers.
abbrev pub submitted_bytes : Formats → List SubmittedUserInput → ℕ
submitted_bytes x [] = 0
submitted_bytes x (s ∷ rest) =
    size_of (x.extract_input_container s.protocol s.input_container) + submitted_bytes x rest

-- The user's count is that of the submitted inputs, and is within the limit.
pub record IsTallied (x : Formats) (limit : ℕ) (user : ConnectedUser) : Type 0 where
  pub counted : user.collected_input_size ≡ submitted_bytes x user.submitted_inputs
  pub limited : user.collected_input_size ≤ limit

submitted_bytes-append :
    (x : Formats) (ss ts : List SubmittedUserInput)
    → submitted_bytes x (ss ++ ts) ≡ submitted_bytes x ss + submitted_bytes x ts
submitted_bytes-append x [] ts = omega arith
submitted_bytes-append x (s ∷ ss) ts = omega (arith, submitted_bytes-append x ss ts)

module _ (x : Formats) (parser : Parser) (cfg : ServeConfig) (lcl_seq_no now : ℕ) where
  collect-IsTallied :
      (container sig : Bytes) (c : InputContainer) (user : ConnectedUser)
      → x.extract_input_container user.protocol container ≡ some c
      → overflows cfg.limits.user_input_bytes user.collected_input_size (length c.input) ≡ false
      → length c.input < 2 ^ 63
      → 0 < cfg.limits.user_input_bytes
      → cfg.limits.user_input_bytes < 2 ^ 63
      → IsTallied x cfg.limits.user_input_bytes user
      → IsTallied x cfg.limits.user_input_bytes (collect container sig c user)
  collect-IsTallied container sig c user h within small pos fits t =
      let taken : SubmittedUserInput = record {
        input_container = container;
        sig = sig;
        protocol = user.protocol;
      } in
      record {
        counted =
            rw (submitted_bytes-append x user.submitted_inputs (taken ∷ []), h)
              (ground (arith, t.counted, t.limited));
        limited = ground (arith, t.limited);
      }

  take_input-IsTallied :
      (container sig : Bytes) (o : Option InputContainer) (user : ConnectedUser) (m : NonceMap)
      → x.extract_input_container user.protocol container ≡ o
      → size_of o < 2 ^ 63
      → 0 < cfg.limits.user_input_bytes
      → cfg.limits.user_input_bytes < 2 ^ 63
      → IsTallied x cfg.limits.user_input_bytes user
      → IsTallied x cfg.limits.user_input_bytes
          (take_input x parser cfg lcl_seq_no now container sig o user m).user
  take_input-IsTallied container sig none user m h small pos fits t = unfold take_input in t
  take_input-IsTallied container sig (some c) user m h small pos fits t =
      elim (take_input_cases x parser cfg lcl_seq_no now container sig c user m) [
        | inl (reason, nonces, e) ↦ rw e t
        | inr (nonces, within, e) ↦
            rw e (collect-IsTallied container sig c user h within small pos fits t)
      ]

  take_signed-IsTallied :
      (o : Option (Bytes × Bytes)) (user : ConnectedUser) (m : NonceMap)
      → ((p : Protocol) (c : Bytes) → size_of (x.extract_input_container p c) < 2 ^ 63)
      → 0 < cfg.limits.user_input_bytes
      → cfg.limits.user_input_bytes < 2 ^ 63
      → IsTallied x cfg.limits.user_input_bytes user
      → IsTallied x cfg.limits.user_input_bytes
          (take_signed x parser cfg lcl_seq_no now o user m).user
  unfolding take_signed
  take_signed-IsTallied none user m small pos fits t = t
  take_signed-IsTallied (some (container, sig)) user m small pos fits t =
      take_input-IsTallied container sig (x.extract_input_container user.protocol container) user m
        refl (small user.protocol container) pos fits t

  read-IsTallied :
      (o : Option (Bytes × Bytes)) (user : ConnectedUser) (m : NonceMap)
      → IsTallied x cfg.limits.user_input_bytes user
      → IsTallied x cfg.limits.user_input_bytes (take_read o user m).user
  read-IsTallied none user m t = t
  read-IsTallied (some request) user m t = t

  subscription-IsTallied :
      (o : Option (Channel × Bool)) (user : ConnectedUser) (m : NonceMap)
      → IsTallied x cfg.limits.user_input_bytes user
      → IsTallied x cfg.limits.user_input_bytes (take_subscription o user m).user
  subscription-IsTallied none user m t = t
  subscription-IsTallied (some (channel, enabled)) user m t = record {
    counted = t.counted;
    limited = t.limited;
  }

  query-IsTallied :
      (o : Option (Bytes × Bytes)) (user : ConnectedUser) (m : NonceMap)
      → IsTallied x cfg.limits.user_input_bytes user
      → IsTallied x cfg.limits.user_input_bytes (take_query o user m).user
  query-IsTallied none user m t = t
  query-IsTallied (some (id, query)) user m t = t

  dispatch-IsTallied :
      (type : MsgType) (message : Bytes) (user : ConnectedUser) (m : NonceMap)
      → ((p : Protocol) (c : Bytes) → size_of (x.extract_input_container p c) < 2 ^ 63)
      → 0 < cfg.limits.user_input_bytes
      → cfg.limits.user_input_bytes < 2 ^ 63
      → IsTallied x cfg.limits.user_input_bytes user
      → IsTallied x cfg.limits.user_input_bytes
          (dispatch x parser cfg lcl_seq_no now type message user m).user
  unfolding dispatch
  dispatch-IsTallied contract_read_request message user m small pos fits t =
      elim (Bool-cases (not cfg.execute || (cfg.concurrent_read_requests == 0))) [
        | inl ignored ↦ rw ignored t
        | inr served ↦
            rw served (read-IsTallied (parser.extract_read_request user.protocol message) user m t)
      ]
  dispatch-IsTallied contract_input message user m small pos fits t =
      take_signed-IsTallied (parser.extract_signed_input_container user.protocol message) user m
        small pos fits t
  dispatch-IsTallied stat message user m small pos fits t = t
  dispatch-IsTallied lcl message user m small pos fits t = t
  dispatch-IsTallied subscription message user m small pos fits t =
      subscription-IsTallied (parser.extract_subscription_request user.protocol message) user m t
  dispatch-IsTallied ledger_query message user m small pos fits t =
      query-IsTallied (parser.extract_ledger_query user.protocol message) user m t
  dispatch-IsTallied other_type message user m small pos fits t = t

  -- If inputs are limited to less than 2^63 bytes and no single input has as many, a user whose count is
  -- that of its submitted inputs and within the limit is left so by every message.
  pub message-IsTallied :
      (message : Bytes) (user : ConnectedUser) (m : NonceMap)
      → ((p : Protocol) (c : Bytes) → size_of (x.extract_input_container p c) < 2 ^ 63)
      → 0 < cfg.limits.user_input_bytes
      → cfg.limits.user_input_bytes < 2 ^ 63
      → IsTallied x cfg.limits.user_input_bytes user
      → IsTallied x cfg.limits.user_input_bytes
          (handle_authed_user_message x parser cfg lcl_seq_no now message user m).user
  unfolding handle_authed_user_message
  message-IsTallied message user m small pos fits t =
      elim (Bool-cases (parser.parse user.protocol message)) [
        | inl parsed ↦ rw parsed (
            dispatch-IsTallied (parser.extract_type user.protocol message) message user m small pos
              fits t)
        | inr bad ↦ rw bad t
      ]
