-- ===== src/Usr/Users/Validity.antt =====
-- Connections, messages and closures keep the users and the sessions consistent.
use hpcore.Base.{
  ℕ, ◌≡◌, ◌≢◌, ◌≤◌, refl, inl, inr, Bool-cases, true, none, some, [], Bytes, arith, find, put,
  Option, Option-cases, bytes_keyed, nat_keyed, length, length-put_new, length-erase-le, List, ◌∷◌,
  is_nil, ◌==◌, ◌||◌, ltb,
}
use hpcore.Comm.Session.{ChallengeStatus, not_issued, challenge_issued, challenge_verified}
use hpcore.Usr.Users.{
  UserSession, ConnectedUser, UserContext, Handshake, ChallengeAnswer, new_session, new_user,
  is_verified, max_user_count, protocol_of, add_user, remove_user, admit, verify_challenge,
  handle_connect, receive, handle_close,
}
use hpcore.Usr.Users.Logins.{
  IsConsistent, login-IsConsistent, opened-IsConsistent, changed-IsConsistent, closed_unverified,
  closed_verified,
}

length-put_old :
    (q : Bytes) (v w : ConnectedUser) (m : List (Bytes × ConnectedUser))
    → find q m ≡ some w
    → length (put q v m) ≡ length m
unfolding find put
length-put_old q v w [] h = absurd (cc)
length-put_old q v w ((j, u) ∷ m) h = ground (arith, length-put_old q v w m)

abbrev pub IsValid : UserContext → Type 0
IsValid ctx = IsConsistent ctx × (length ctx.users ≤ max_user_count)

verified_status :
    (status : ChallengeStatus) → is_verified status ≡ true → status ≡ challenge_verified
verified_status challenge_verified h = refl
verified_status challenge_issued h = cc
verified_status not_issued h = cc

abbrev KeepsIdentity : (ConnectedUser → ConnectedUser) → Type 0
KeepsIdentity serve =
    (u : ConnectedUser) → ((serve u).pubkey ≡ u.pubkey) × ((serve u).session ≡ u.session)

add_user-IsValid :
    (n : Handshake) (ctx : UserContext) (id : ℕ) (session : UserSession) (hex code : Bytes)
    → find id ctx.sessions ≡ some session
    → session.challenge_status ≢ challenge_verified
    → IsValid ctx
    → IsValid (add_user n id session hex code ctx).1
unfolding add_user
add_user-IsValid n ctx id session hex code open_session unverified (c, few) =
    elim (Bool-cases (length ctx.users == max_user_count)) [
      | inl full ↦ rw full (c, few)
      | inr room ↦ elim (Option-cases (find (n.to_bin hex) ctx.users)) [
        | inl absent ↦
            rw (room, absent)
              (
                login-IsConsistent ctx c id session
                    (record {
                      challenge_status = challenge_verified;
                      issued_challenge = [];
                      uniqueid = hex;
                      pubkey = n.to_bin hex;
                    })
                    (new_user (n.to_bin hex) (protocol_of code) id) open_session unverified absent
                    refl refl refl,
                ground (
                  arith,
                  length-put_new (n.to_bin hex) (new_user (n.to_bin hex) (protocol_of code) id)
                      ctx.users,
                ),
              )
        | inr (u, present) ↦ rw (room, present) (c, few)
      ]
    ]

admit-IsValid :
    (n : Handshake) (ctx : UserContext) (id : ℕ) (session : UserSession)
    (o : Option ChallengeAnswer)
    → find id ctx.sessions ≡ some session
    → session.challenge_status ≢ challenge_verified
    → IsValid ctx
    → IsValid (admit n id session o ctx).1
unfolding admit
admit-IsValid n ctx id session none open_session unverified v = v
admit-IsValid n ctx id session (some a) open_session unverified v =
    add_user-IsValid n ctx id session a.pubkey_hex a.protocol_code open_session unverified v

verify_challenge-IsValid :
    (n : Handshake) (ctx : UserContext) (message : Bytes) (id : ℕ) (session : UserSession)
    → find id ctx.sessions ≡ some session
    → session.challenge_status ≢ challenge_verified
    → IsValid ctx
    → IsValid (verify_challenge n message id session ctx).1
unfolding verify_challenge
verify_challenge-IsValid n ctx message id session open_session unverified v =
    elim (Bool-cases (is_nil session.issued_challenge)) [
      | inl nothing ↦ rw nothing v
      | inr issued ↦ rw issued (
          admit-IsValid n ctx id session (n.verify_user_challenge message session.issued_challenge)
            open_session unverified v)
    ]

pub receive-IsValid :
    (n : Handshake) (serve : ConnectedUser → ConnectedUser) (ctx : UserContext) (message : Bytes)
    (id : ℕ) (session : UserSession) (status : ChallengeStatus)
    → session.challenge_status ≡ status
    → find id ctx.sessions ≡ some session
    → KeepsIdentity serve
    → IsValid ctx
    → IsValid (receive n serve message id session status ctx).1
unfolding receive
receive-IsValid n serve ctx message id session not_issued st open_session keeps v = v
receive-IsValid n serve ctx message id session challenge_issued st open_session keeps v =
    verify_challenge-IsValid n ctx message id session open_session (λ e. cc) v
receive-IsValid n serve ctx message id session challenge_verified st open_session keeps (c, few) =
    elim (Option-cases (find session.pubkey ctx.users)) [
      | inl absent ↦ rw absent (c, few)
      | inr (u, present) ↦ rw present (
        changed-IsConsistent ctx c session.pubkey u (serve u) present (keeps u).0 (keeps u).1,
        omega (arith, length-put_old session.pubkey (serve u) u ctx.users present),
      )
    ]

pub handle_connect-IsValid :
    (n : Handshake) (challenge : Bytes) (ctx : UserContext) (id : ℕ)
    → find id ctx.sessions ≡ none
    → IsValid ctx
    → IsValid (handle_connect n challenge id ctx).1
unfolding handle_connect
handle_connect-IsValid n challenge ctx id free (c, few) =
    let issued : UserSession = record new_session {
      challenge_status = challenge_issued;
      issued_challenge = challenge;
    } in
    elim (Bool-cases ((n.max_connections == 0) || ltb (length ctx.users) n.max_connections)) [
      | inl room ↦ rw room (opened-IsConsistent ctx c id issued free refl, few)
      | inr full ↦ rw full (opened-IsConsistent ctx c id new_session free refl, few)
    ]

pub handle_close-IsValid :
    (ctx : UserContext) (id : ℕ) (session : UserSession)
    → find id ctx.sessions ≡ some session
    → IsValid ctx
    → IsValid (handle_close id session ctx)
unfolding handle_close remove_user
handle_close-IsValid ctx id session present (c, few) =
    elim (Bool-cases (is_verified session.challenge_status)) [
      | inl was ↦ rw was (
        closed_verified ctx c id session present (verified_status session.challenge_status was),
        omega (arith, length-erase-le session.pubkey ctx.users),
      )
      | inr not_yet ↦ rw not_yet (closed_unverified ctx c id session present not_yet, few)
    ]
