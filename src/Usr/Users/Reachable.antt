-- ===== src/Usr/Users/Reachable.antt =====
-- The contexts that connections, messages and closures lead to.
use hpcore.Base.{
  ℕ, ◌≡◌, ◌≤◌, refl, none, some, [], Bytes, arith, find, bytes_keyed, nat_keyed, length,
}
use hpcore.Comm.Session.{challenge_verified}
use hpcore.Usr.Users.{
  UserSession, ConnectedUser, UserContext, Handshake, max_user_count, handle_connect,
  handle_message, handle_close,
}
use hpcore.Usr.NonceMap.{NonceMap}
use hpcore.Usr.Inputs.{Formats}
use hpcore.Usr.Users.Requests.{Parser, ServeConfig, handle_authed_user_message}
use hpcore.Usr.Users.Requests.Identity.{message-IsSameUser}
use hpcore.Usr.Users.Logins.{IsConsistent}
use hpcore.Usr.Users.Validity.{
  IsValid, receive-IsValid, handle_connect-IsValid, handle_close-IsValid,
}

-- A session opens under a free number, a message comes in on an open one, or one closes. What the
-- message of an authenticated user does keeps the user's key and session.
-- What the node serves a message with: its formats, configuration, ledger, time and nonces.
pub record Serving : Type 0 where
  pub formats : Formats
  pub parser : Parser
  pub cfg : ServeConfig
  pub lcl_seq_no : ℕ
  pub now : ℕ
  pub nonce_map : NonceMap

-- What the message of an authenticated user does to the user.
abbrev pub serve : Serving → Bytes → ConnectedUser → ConnectedUser
serve v message u =
    let served =
      handle_authed_user_message v.formats v.parser v.cfg v.lcl_seq_no v.now message u
        v.nonce_map in
    served.user

pub data Step (n : Handshake) : UserContext → UserContext → Type 0 where
  connected :
      (ctx : UserContext) (challenge : Bytes) (id : ℕ)
      → find id ctx.sessions ≡ none
      → Step n ctx (handle_connect n challenge id ctx).1
  received :
      (ctx : UserContext) (v : Serving) (message : Bytes) (id : ℕ) (session : UserSession)
      → find id ctx.sessions ≡ some session
      → Step n ctx (handle_message n (serve v message) message id session ctx).1
  closed :
      (ctx : UserContext) (id : ℕ) (session : UserSession)
      → find id ctx.sessions ≡ some session
      → Step n ctx (handle_close id session ctx)

abbrev pub no_users : UserContext
no_users = record { users = []; sessions = [] }

none-IsConsistent : IsConsistent no_users
unfolding find
none-IsConsistent = record {
  of_session = λ pubkey u h. absurd (cc);
  of_user = λ id s h ok. absurd (cc);
}

pub data Reachable (n : Handshake) : UserContext → Type 0 where
  start : Reachable n no_users
  next : {a b : UserContext} → Reachable n a → Step n a b → Reachable n b

Step-IsValid : (n : Handshake) {a b : UserContext} → Step n a b → IsValid a → IsValid b
Step-IsValid n (connected ctx challenge id free) v =
    handle_connect-IsValid n challenge ctx id free v
Step-IsValid n (received ctx v message id session present) valid =
    receive-IsValid n (serve v message) ctx message id session session.challenge_status refl present
      (λ u. message-IsSameUser v.formats v.parser v.cfg v.lcl_seq_no v.now message u v.nonce_map)
      valid
Step-IsValid n (closed ctx id session present) v = handle_close-IsValid ctx id session present v

Reachable-IsValid : (n : Handshake) {ctx : UserContext} → Reachable n ctx → IsValid ctx
Reachable-IsValid n start = (none-IsConsistent, omega arith)
Reachable-IsValid n (next r s) = Step-IsValid n s (Reachable-IsValid n r)

-- In every context that connections, messages and closures lead to, at most 64 users are connected,
-- every user's session is open and verified under its key, every open verified session is that of the
-- user of its key, and no two open verified sessions have one key.
pub one_session_per_user :
    (n : Handshake) {ctx : UserContext}
    → Reachable n ctx
    → IsConsistent ctx
      × (length ctx.users ≤ max_user_count)
      × ((i j : ℕ) (s t : UserSession)
          → find i ctx.sessions ≡ some s
          → find j ctx.sessions ≡ some t
          → s.challenge_status ≡ challenge_verified
          → t.challenge_status ≡ challenge_verified
          → s.pubkey ≡ t.pubkey
          → i ≡ j)
one_session_per_user n r =
    let (c, few) = Reachable-IsValid n r in
    (
      c,
      few,
      λ i j s t hi hj si tj e.
          let (u, found, its) = c.of_user i s hi si in
          let (w, found', its') = c.of_user j t hj tj in
          let same : some u ≡ some w = cc in let same' : u ≡ w = cc in cc,
    )
