-- ===== src/Usr/Users/Logins.antt =====
-- The connected users are those of the verified sessions, one for each key.
use hpcore.Base.{
  ℕ, ◌≡◌, ◌≢◌, ◌∙◌, inl, inr, Bool-cases, false, none, some, List, Bytes, bytes_eq_iff, arith, find,
  put, erase, find-put, find-erase, bytes_keyed, nat_keyed,
}
use hpcore.Comm.Session.{challenge_verified}
use hpcore.Usr.Users.{UserSession, ConnectedUser, UserContext, is_verified}

-- The user has the key, and its session is open, verified and of that key.
abbrev pub HasSession : List (ℕ × UserSession) → Bytes → ConnectedUser → Type 0
HasSession sessions pubkey u =
    (u.pubkey ≡ pubkey)
    × (s : UserSession) × (find u.session sessions ≡ some s)
    × (s.challenge_status ≡ challenge_verified)
    × (s.pubkey ≡ pubkey)

-- Each user stands under its key, and its session is open, verified and of that key. Each verified
-- session that is open is the session of the user of its key.
pub record IsConsistent (ctx : UserContext) : Type 0 where
  pub of_session :
      (pubkey : Bytes) (u : ConnectedUser)
      → find pubkey ctx.users ≡ some u
      → HasSession ctx.sessions pubkey u
  pub of_user :
      (id : ℕ) (s : UserSession)
      → find id ctx.sessions ≡ some s
      → s.challenge_status ≡ challenge_verified
      → (u : ConnectedUser) × (find s.pubkey ctx.users ≡ some u) × (u.session ≡ id)

-- A login: the session of that number was not verified, and no user had the key.
module _ (ctx : UserContext) (c : IsConsistent ctx) (id : ℕ) (session login : UserSession)
    (user : ConnectedUser) (open_session : find id ctx.sessions ≡ some session)
    (unverified : session.challenge_status ≢ challenge_verified)
    (absent : find user.pubkey ctx.users ≡ none) (its_session : user.session ≡ id)
    (verified : login.challenge_status ≡ challenge_verified)
    (its_key : login.pubkey ≡ user.pubkey) where
  abbrev pub after : UserContext
  after = record { users = put user.pubkey user ctx.users; sessions = put id login ctx.sessions }

  login-of_session :
      (pubkey : Bytes) (u : ConnectedUser)
      → find pubkey after.users ≡ some u
      → HasSession after.sessions pubkey u
  login-of_session pubkey u h = elim (Bool-cases (bytes_keyed.same user.pubkey pubkey)) [
    | inl same ↦
        let key : user.pubkey ≡ pubkey = (bytes_eq_iff user.pubkey pubkey).0 same in
        let it : some user ≡ some u = ground (arith, find-put user.pubkey pubkey user ctx.users) in
        let it' : user ≡ u = cc in
        (
          cc,
          login,
          ground (arith, find-put id u.session login ctx.sessions),
          verified,
          its_key ∙ key,
        )
    | inr other ↦
        let (key, s, found, ok, theirs) =
          c.of_session pubkey u (ground (arith, find-put user.pubkey pubkey user ctx.users)) in
        (key, s, ground (arith, find-put id u.session login ctx.sessions), ok, theirs)
  ]

  login-of_user :
      (i : ℕ) (s : UserSession)
      → find i after.sessions ≡ some s
      → s.challenge_status ≡ challenge_verified
      → (u : ConnectedUser) × (find s.pubkey after.users ≡ some u) × (u.session ≡ i)
  login-of_user i s h ok = elim (Bool-cases (nat_keyed.same id i)) [
    | inl same ↦
        let it : some login ≡ some s = ground (arith, find-put id i login ctx.sessions) in
        let it' : login ≡ s = cc in
        (
          user,
          ground (
            arith,
            find-put user.pubkey s.pubkey user ctx.users,
            bytes_eq_iff user.pubkey s.pubkey,
          ),
          ground arith,
        )
    | inr other ↦
        let (u, found, its) = c.of_user i s (ground (arith, find-put id i login ctx.sessions)) ok in
        (
          u,
          ground (
            arith,
            find-put user.pubkey s.pubkey user ctx.users,
            bytes_eq_iff user.pubkey s.pubkey,
          ),
          its,
        )
  ]

  pub login-IsConsistent : IsConsistent after
  login-IsConsistent = record { of_session = login-of_session; of_user = login-of_user }

-- A session that is not verified comes in place of none.
module _ (ctx : UserContext) (c : IsConsistent ctx) (id : ℕ) (fresh : UserSession)
    (free : find id ctx.sessions ≡ none)
    (unverified : is_verified fresh.challenge_status ≡ false) where
  pub opened-IsConsistent : IsConsistent (record ctx { sessions = put id fresh ctx.sessions })
  opened-IsConsistent = record {
    of_session = λ pubkey u h.
        let (key, s, found, ok, theirs) = c.of_session pubkey u h in
        (key, s, ground (arith, find-put id u.session fresh ctx.sessions), ok, theirs);
    of_user = λ i s h ok. c.of_user i s (ground (arith, find-put id i fresh ctx.sessions)) ok;
  }

-- A user changes, and keeps its key and its session.
module _ (ctx : UserContext) (c : IsConsistent ctx) (pubkey : Bytes) (old new : ConnectedUser)
    (present : find pubkey ctx.users ≡ some old) (same_key : new.pubkey ≡ old.pubkey)
    (same_session : new.session ≡ old.session) where
  changed_of_session :
      (q : Bytes) (u : ConnectedUser)
      → find q (put pubkey new ctx.users) ≡ some u
      → HasSession ctx.sessions q u
  changed_of_session q u h = elim (Bool-cases (bytes_keyed.same pubkey q)) [
    | inl same ↦
        let at_q : pubkey ≡ q = (bytes_eq_iff pubkey q).0 same in
        let (key, s, found, ok, theirs) = c.of_session pubkey old present in
        let it : some new ≡ some u = ground (arith, find-put pubkey q new ctx.users) in
        let it' : new ≡ u = cc in (cc, s, cc, ok, cc)
    | inr other ↦ c.of_session q u (ground (arith, find-put pubkey q new ctx.users))
  ]

  changed_of_user :
      (i : ℕ) (s : UserSession)
      → find i ctx.sessions ≡ some s
      → s.challenge_status ≡ challenge_verified
      → (u : ConnectedUser) × (find s.pubkey (put pubkey new ctx.users) ≡ some u) × (u.session ≡ i)
  changed_of_user i s h ok =
      let (u, found, its) = c.of_user i s h ok in
      elim (Bool-cases (bytes_keyed.same pubkey s.pubkey)) [
        | inl same ↦
            let at_key : pubkey ≡ s.pubkey = (bytes_eq_iff pubkey s.pubkey).0 same in
            let it : some old ≡ some u = cc in
            let it' : old ≡ u = cc in
            (new, ground (arith, find-put pubkey s.pubkey new ctx.users), cc)
        | inr other ↦ (u, ground (arith, find-put pubkey s.pubkey new ctx.users), its)
      ]

  pub changed-IsConsistent : IsConsistent (record ctx { users = put pubkey new ctx.users })
  changed-IsConsistent = record { of_session = changed_of_session; of_user = changed_of_user }

-- A session closes.
module _ (ctx : UserContext) (c : IsConsistent ctx) (id : ℕ) (session : UserSession)
    (present : find id ctx.sessions ≡ some session) where
  pub closed_unverified :
      is_verified session.challenge_status ≡ false
      → IsConsistent (record ctx { sessions = erase id ctx.sessions })
  closed_unverified unverified = record {
    of_session = λ pubkey u h.
        let (key, s, found, ok, theirs) = c.of_session pubkey u h in
        (key, s, ground (arith, find-erase id u.session ctx.sessions), ok, theirs);
    of_user = λ i s h ok. c.of_user i s (ground (arith, find-erase id i ctx.sessions)) ok;
  }

  pub closed_verified :
      session.challenge_status ≡ challenge_verified
      → IsConsistent
          (record { users = erase session.pubkey ctx.users; sessions = erase id ctx.sessions })
  closed_verified verified = record {
    of_session = λ pubkey u h.
        let (key, s, found, ok, theirs) =
          c.of_session pubkey u (ground (arith, find-erase session.pubkey pubkey ctx.users)) in
        (
          key,
          s,
          ground (
            arith,
            find-erase id u.session ctx.sessions,
            find-erase session.pubkey pubkey ctx.users,
            bytes_eq_iff session.pubkey pubkey,
          ),
          ok,
          theirs,
        );
    of_user = λ i s h ok.
        let h' : find i ctx.sessions ≡ some s = ground (arith, find-erase id i ctx.sessions) in
        let (u, found, its) = c.of_user i s h' ok in
        let (u', found', its') = c.of_user id session present verified in
        (
          u,
          ground (
            arith,
            find-erase session.pubkey s.pubkey ctx.users,
            find-erase id i ctx.sessions,
            bytes_eq_iff session.pubkey s.pubkey,
          ),
          its,
        );
  }
