-- ===== src/Usr/Users/Notifications/Cached.antt =====
-- The messages of a change event are made once for each protocol, and users get what they would get if
-- each had a message of its own.
use hpcore.Base.{
  ℕ, ◌≡◌, ◌⊎◌, refl, inl, inr, Bool-cases, true, ◌++◌, List, [], ◌∷◌, Bytes, is_nil, if◌then◌else◌,
}
use hpcore.Usr.Inputs.{Protocol, json, bson}
use hpcore.Usr.Users.{Users}
use hpcore.Usr.Users.Notifications.{
  Messages, message_in, made, channel_of, notify_users, dispatch_change_events,
}
use hpcore.Status.{ChangeEvent}

-- Each user who subscribes to the channel of the event, with the message of its protocol.
abbrev pub subscribers : (Protocol → ChangeEvent → Bytes) → ChangeEvent → Users → List (ℕ × Bytes)
subscribers create ev [] = []
subscribers create ev ((pubkey, user) ∷ rest) =
    let others = subscribers create ev rest in
    if user.subscriptions (channel_of ev)
    then (user.session, create user.protocol ev) ∷ others
    else others

abbrev pub all_subscribers :
    (Protocol → ChangeEvent → Bytes) → List ChangeEvent → Users → List (ℕ × Bytes)
all_subscribers create [] users = []
all_subscribers create (ev ∷ events) users =
    subscribers create ev users ++ all_subscribers create events users

module _ (create : Protocol → ChangeEvent → Bytes) where
  -- A stored message is empty or that of the event.
  record IsCurrent (ev : ChangeEvent) (c : Messages) : Type 0 where
    json_current : (is_nil c.json_msg ≡ true) ⊎ (c.json_msg ≡ create json ev)
    bson_current : (is_nil c.bson_msg ≡ true) ⊎ (c.bson_msg ≡ create bson ev)

  made-IsCurrent :
      (protocol : Protocol) (ev : ChangeEvent) (c : Messages)
      → IsCurrent ev c
      → IsCurrent ev (made create protocol ev c)
  made-IsCurrent json ev c h = elim (Bool-cases (is_nil c.json_msg)) [
    | inl empty ↦ rw empty (record { json_current = inr refl; bson_current = h.bson_current })
    | inr there ↦ rw there h
  ]
  made-IsCurrent bson ev c h = elim (Bool-cases (is_nil c.bson_msg)) [
    | inl empty ↦ rw empty (record { json_current = h.json_current; bson_current = inr refl })
    | inr there ↦ rw there h
  ]

  made_message :
      (protocol : Protocol) (ev : ChangeEvent) (c : Messages)
      → IsCurrent ev c
      → message_in protocol (made create protocol ev c) ≡ create protocol ev
  made_message json ev c h = elim (Bool-cases (is_nil c.json_msg)) [
    | inl empty ↦ rw empty
    | inr there ↦ rw there (elim h.json_current [ inl empty ↦ absurd (cc) | inr same ↦ same ])
  ]
  made_message bson ev c h = elim (Bool-cases (is_nil c.bson_msg)) [
    | inl empty ↦ rw empty
    | inr there ↦ rw there (elim h.bson_current [ inl empty ↦ absurd (cc) | inr same ↦ same ])
  ]

  notify_users_lem :
      (ev : ChangeEvent) (users : Users) (c : Messages)
      → IsCurrent ev c
      → notify_users create ev users c ≡ subscribers create ev users
  unfolding notify_users
  notify_users_lem ev [] c h = refl
  notify_users_lem ev ((pubkey, user) ∷ rest) c h =
      elim (Bool-cases (user.subscriptions (channel_of ev))) [
        | inl wanted ↦ rw (
          wanted,
          made_message user.protocol ev c h,
          notify_users_lem ev rest (made create user.protocol ev c)
              (made-IsCurrent user.protocol ev c h),
        )
        | inr unwanted ↦ rw (unwanted, notify_users_lem ev rest c h)
      ]

  -- For each change event in turn, exactly the users who subscribe to its channel are sent it, once each
  -- and in the order of the users, in the text of their own protocol.
  pub dispatched_exactly :
      (events : List ChangeEvent) (users : Users)
      → dispatch_change_events create events users ≡ all_subscribers create events users
  unfolding dispatch_change_events
  dispatched_exactly [] users = refl
  dispatched_exactly (ev ∷ events) users = rw (
    notify_users_lem ev users (record { json_msg = []; bson_msg = [] })
        (record { json_current = inl refl; bson_current = inl refl }),
    dispatched_exactly events users,
  )
